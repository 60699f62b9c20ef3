-- ===== src/Password.antt =====
-- app/auth/password.py: password hashes. argon2-cffi is a parameter.
use specter_cloud.Prelude.{Text, non_empty, Bool, true, false, if◌then◌else◌}
use specter_cloud.Platform.{
  Platform, VerifyOutcome, verified, verify_mismatch_error, verification_error, invalid_hash,
}
use specter_cloud.Store.{Action, pure, raise, value_error}

-- `salt` is what the hasher draws.
unfoldable pub hash_password : Platform → Text → Text → Action Text
hash_password platform salt plain =
    if non_empty plain then pure (platform.argon2_hash salt plain) else raise value_error

abbrev returns : VerifyOutcome → Bool
returns verified = true
returns verify_mismatch_error = false
returns verification_error = false
returns invalid_hash = false

unfoldable pub verify_password : Platform → Text → Text → Bool
verify_password platform plain hashed = returns (platform.argon2_verify hashed plain)

abbrev pub needs_rehash : Platform → Text → Bool
needs_rehash platform hashed = platform.check_needs_rehash hashed
