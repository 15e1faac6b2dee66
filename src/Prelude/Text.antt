-- ===== src/Prelude/Text.antt =====
-- What the services use of Python's texts, beside comparison: the methods of `str` are no code of
-- this repository, so they are fields that a caller supplies.
use Prim.Native.String.{String}
use mathlib.Core.Option.{Option, none, some}
use mathlib.Core.Bool.{Bool, true, false}
use Prim.Native.Nat.{ℕ}
use text.Mathlib.Text.{◌==◌ as str_eq}

pub record TextMethods : Type 0 where
  -- `s.strip()`
  pub strip : String → String
  -- `s[:n]`
  pub prefix : ℕ → String → String

-- `not s`
abbrev pub is_empty : String → Bool
is_empty s = str_eq s ""

-- `(s or "")`
abbrev pub or_empty : Option String → String
or_empty none = ""
or_empty (some s) = s

-- Equality of two texts that may be null.
abbrev pub same_text : Option String → Option String → Bool
same_text none none = true
same_text (some a) (some b) = str_eq a b
same_text _ _ = false
