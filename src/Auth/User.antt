-- ===== src/Auth/User.antt =====
-- internal/auth/user.go: roles, the identity of a request, and the normal form of an address.
-- The functions of package strings are a parameter.
use sys_sentient.Prelude.{
  ltb, if◌then◌else◌, ◌==◌, nat_key, string_key, ℕ, String, Bool, false, not, ◌&&◌, ◌||◌, Option,
  none, some,
}

-- TrimSpace, ToLower, `len`, ContainsAny with the four spaces, Cut and Contains at "@", and EqualFold.
pub record TextOps : Type 0 where
  pub trim_space : String → String
  pub to_lower : String → String
  pub byte_length : String → ℕ
  pub has_space : String → Bool
  pub cut_at : String → Option (String × String)
  pub has_at : String → Bool
  pub rune_count : String → ℕ
  pub equal_fold : String → String → Bool

pub data Role : Type 0 where
  admin viewer : Role

pub record User : Type 0 where
  pub id : String
  pub email : String
  pub role : Role

abbrev pub role_text : Role → String
role_text admin = "admin"
role_text viewer = "viewer"

module _ (text : TextOps) where
  unfoldable pub parse_role : String → Option Role
  parse_role s =
      if text.trim_space s == "admin"
      then some admin
      else if text.trim_space s == "viewer"
      then some viewer
      else none

  -- The parts round the first "@": both there, and no second one.
  abbrev pub well_formed : Option (String × String) → Bool
  well_formed none = false
  well_formed (some (local, domain)) =
      not (local == "") && (not (domain == "") && not (text.has_at domain))

  unfoldable pub normalize_email : String → Option String
  normalize_email raw =
      let s = text.to_lower (text.trim_space raw) in
      if ltb (text.byte_length s) 3 || (ltb 254 (text.byte_length s) || text.has_space s)
      then none
      else if well_formed (text.cut_at s)
      then some s
      else none
