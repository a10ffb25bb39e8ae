-- ===== src/Auth/Password.antt =====
-- internal/auth/password.go and token.go: the length policy and what is stored of a secret.
-- argon2id with its text form, and SHA-256 in hexadecimal, are parameters.
use sys_sentient.Auth.User.{TextOps}
use sys_sentient.Prelude.{
  ltb, if◌then◌else◌, nat_key, string_key, String, Bool, false, Option, none, some,
}

-- `derive` is the text of a new hash from a salt; `check` is the answer of a stored text, none if it
-- cannot be read.
pub record Crypto : Type 0 where
  pub derive : String → String → String
  pub check : String → String → Option Bool
  pub sha256 : String → String

pub data PasswordError : Type 0 where
  too_short too_long no_salt : PasswordError

pub data Hashed : Type 0 where
  hashed : String → Hashed
  not_hashed : PasswordError → Hashed

module _ (text : TextOps) where
  unfoldable pub validate_password : String → Option PasswordError
  validate_password password =
      if ltb (text.rune_count password) 12
      then some too_short
      else if ltb 128 (text.rune_count password)
      then some too_long
      else none

  -- `salt` is what crypto/rand gives, if it does.
  unfoldable pub hash_password : Crypto → Option String → String → Hashed
  unfolding validate_password
  hash_password crypto salt password = elim (validate_password password) [
    | some e ↦ not_hashed e
    | none ↦ elim salt [
      | none ↦ not_hashed no_salt
      | some bytes ↦ hashed (crypto.derive bytes password)
    ]
  ]

-- Whether a password is right: a text that cannot be read is never.
abbrev pub is_right : Option Bool → Bool
is_right none = false
is_right (some ok) = ok

abbrev pub verify_password : Crypto → String → String → Bool
verify_password crypto encoded password = is_right (crypto.check encoded password)
