-- ===== src/Platform.antt =====
-- What the program takes from code outside the repository: hashlib, argon2-cffi and Python's
-- Unicode tables. The functions are parameters; what the code relies on is a record of laws.
use specter_cloud.Prelude.{ℕ, ◌≤◌, ◌≡◌, Text, Bool, length}

-- How `PasswordHasher.verify` ends: it returns, or it raises one of three exceptions.
pub data VerifyOutcome : Type 0 where
  verified verify_mismatch_error verification_error invalid_hash : VerifyOutcome

pub record Platform : Type 0 where
  -- hashlib.sha256(raw.encode()).hexdigest()
  pub sha256_hex : Text → Text
  -- str.lower
  pub lower : Text → Text
  -- whether a character above ASCII is a decimal digit to `int`
  pub is_decimal : ℕ → Bool
  -- datetime.isoformat
  pub isoformat : ℕ → Text
  -- PasswordHasher().hash, with the salt that it draws
  pub argon2_hash : Text → Text → Text
  -- PasswordHasher().verify
  pub argon2_verify : Text → Text → VerifyOutcome
  -- PasswordHasher().check_needs_rehash
  pub check_needs_rehash : Text → Bool

-- The documented behaviour that theorems use as a hypothesis.
pub record IsSound (p : Platform) : Type 0 where
  -- a SHA-256 digest has 64 hexadecimal digits
  pub length-sha256_hex : (s : Text) → length (p.sha256_hex s) ≤ 64
  -- a hash verifies against the password that it was made of
  pub verify-hash :
      (salt plain : Text)
      → p.argon2_verify (p.argon2_hash salt plain) plain ≡ VerifyOutcome.verified
