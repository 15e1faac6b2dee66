-- ===== src/Account/Passwords.antt =====
-- domain/passwords.py, with Python's methods of texts as an argument.
use visi_on_route.Prelude.{
  Bool, List, String, [], any, false, if◌then◌else◌, ltb, str_eq, true, ℕ, ◌++◌, ◌||◌, ◌∷◌,
}

pub record PasswordText : Type 0 where
  pub length : String → ℕ
  pub lower : String → String
  pub is_digit : String → Bool
  pub is_alpha : String → Bool

pub data PasswordProblem : Type 0 where
  too_short too_common one_kind : PasswordProblem

abbrev pub blocklist : List String
blocklist = "123456789012" ∷ "password1234" ∷ "visionroute1" ∷ "qwertyuiop12" ∷ []

abbrev pub when : Bool → PasswordProblem → List PasswordProblem
when b p = if b then p ∷ [] else []

unfoldable pub password_problems : PasswordText → String → List PasswordProblem
password_problems t password =
    when (ltb (t.length password) 12) PasswordProblem.too_short
    ++ when (any (str_eq (t.lower password)) blocklist) PasswordProblem.too_common
    ++ when (t.is_digit password || t.is_alpha password) PasswordProblem.one_kind

abbrev pub is_acceptable : PasswordText → String → Bool
is_acceptable t password = elim (password_problems t password) [ [] ↦ true | p ∷ ps ↦ false ]
