-- ===== src/OpenStack/Rounding.antt =====
-- cnf/openstack/client.py: the floats of `get_cluster_metrics`. A float that is not negative is its
-- exact value, a fraction; one that does not fit the exponent of a float is not rounded further.
use open_stack_cnf.Prelude.{
  ℕ, zero, suc, ◌+◌, ◌*◌, ◌/◌, ◌%◌, ◌==◌, ◌||◌, ◌&&◌, true, false, ltb, if◌then◌else◌,
}
use open_stack_cnf.Prelude.Percent.{Percent}

-- The whole number nearest to a fraction, and of two as near the even one.
unfoldable pub nearest : ℕ → ℕ → ℕ
nearest num den =
    let q = num / den in
    let r = 2 * (num % den) in if ltb den r || (r == den && q % 2 == 1) then q + 1 else q

-- `2 ** 52`
abbrev smallest : ℕ
smallest = 4503599627370496

-- A fraction to 53 bits: it is doubled, or halved, until its whole part has as many, and what was
-- done is taken back of the nearest whole number.
unfoldable pub rounded_from : ℕ → ℕ → ℕ → ℕ → ℕ → Percent
unfolding nearest
rounded_from zero num den up down = record { num = nearest num den * down; den = up }
rounded_from (suc f) num den up down = elim (ltb num (smallest * den)) [
  | true ↦ rounded_from f (2 * num) den (2 * up) down
  | false ↦ elim (ltb num (2 * smallest * den)) [
    | true ↦ record { num = nearest num den * down; den = up }
    | false ↦ rounded_from f num (2 * den) up (2 * down)
  ]
]

-- The float nearest to a fraction. The fraction is doubled or halved fewer times than it has bits
-- above and below, and 53 more.
unfoldable pub float_of : ℕ → ℕ → Percent
unfolding rounded_from
float_of num den = elim (num == 0) [
  | true ↦ record { num = 0; den = 1 }
  | false ↦ rounded_from (53 + num + den) num den 1 1
]

-- `used / total * 100`, in floats
unfoldable pub share_of : ℕ → ℕ → Percent
unfolding float_of
share_of used total =
    let quotient = float_of used total in float_of (quotient.num * 100) quotient.den

-- `round(used / total * 100, 2) if total else 0`, in hundredths: `round` is exact on its float.
unfoldable pub used_percent : ℕ → ℕ → ℕ
unfolding share_of nearest
used_percent used total = elim (total == 0) [
  | true ↦ 0
  | false ↦ let share = share_of used total in nearest (share.num * 100) share.den
]
