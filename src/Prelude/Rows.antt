-- ===== src/Prelude/Rows.antt =====
-- Columns that may be null, and moments in time.
use visi_on_route.Prelude.Tests.{◌==◌}
use Prim.Native.Nat.{ℕ, ◌*◌}
use mathlib.Core.Bool.{Bool, true, false}
use mathlib.Core.Option.{Option, none, some}

-- A moment: microseconds since the first moment of the calendar, in UTC. Python and PostgreSQL
-- keep moments and intervals to the microsecond, so this loses nothing.
abbrev pub Time : Type 0
Time = ℕ

abbrev pub seconds : ℕ → Time
seconds n = n * 1000000

abbrev pub minutes : ℕ → Time
minutes n = seconds (n * 60)

abbrev pub hours : ℕ → Time
hours n = minutes (n * 60)

abbrev pub days : ℕ → Time
days n = hours (n * 24)

-- Equality of two columns that may be null, as `==` on Python's values.
abbrev pub same : Option ℕ → Option ℕ → Bool
same none none = true
same (some a) (some b) = a == b
same _ _ = false

-- `x is not None`
abbrev pub is_some {ℓ} : {A : Type ℓ} → Option A → Bool
is_some none = false
is_some (some _) = true

-- `x is None`
abbrev pub is_none {ℓ} : {A : Type ℓ} → Option A → Bool
is_none none = true
is_none (some _) = false

-- `x or y`, where no value of `x` counts as false
abbrev pub or_else {ℓ} : {A : Type ℓ} → Option A → Option A → Option A
or_else none y = y
or_else (some x) y = some x
