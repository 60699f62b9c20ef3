-- ===== src/App.antt =====
-- What app/main.py sets up around the routes: the Redis client, request ids, answers to errors, and settings.
pub mod RedisClient
pub mod OneClient
pub mod Urls
pub mod Responses
pub mod Raised
pub mod Answers
pub mod RequestId
pub mod Identified
pub mod Config
