-- ===== src/Prelude/Percent.antt =====
-- Percentages that the program holds as floats, as exact fractions `num / den`.
use Prim.Native.Nat.{ℕ, ◌*◌, ◌≤◌}
use mathlib.Core.Bool.{Bool}
use open_stack_cnf.Prelude.Tests.{leb, if◌then◌else◌}

pub record Percent : Type 0 where
  pub num : ℕ
  pub den : ℕ

-- A literal such as `70.0`.
abbrev pub whole : ℕ → Percent
whole n = record { num = n; den = 1 }

infix 50 ◌≤%◌
abbrev pub ◌≤%◌ : Percent → Percent → Type 0
p ≤% q = p.num * q.den ≤ q.num * p.den

abbrev pub leb_percent : Percent → Percent → Bool
leb_percent p q = leb (p.num * q.den) (q.num * p.den)

-- `min(p, q)` keeps the first of two equal values.
abbrev pub min_percent : Percent → Percent → Percent
min_percent p q = if leb_percent p q then p else q
