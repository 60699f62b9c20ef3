-- ===== src/Examples.antt =====
-- Runs of the program on small tables, and the theorems applied to them.
mod Data
mod Rbac
mod Guard
mod Permissions
mod Sessions
mod Login
mod ApiKey
mod Dependencies
mod Routes
mod Scripts
mod Migrations
mod Telemetry
mod Commands
mod App
