-- ===== src/Migration/Progress.antt =====
-- cnf/migration/engine.py: the progress that is reported while the memory is copied.
use native.Mathlib.Nat.{mul-le-mul_left}
use open_stack_cnf.Prelude.{
  ℕ, ◌+◌, ◌*◌, ◌≤◌, ◌<◌, ◌≡◌, true, false, arith, Option, none, some, Bool-cases, inl, inr, ltb,
  leb,
}
use open_stack_cnf.Prelude.Percent.{Percent, whole, ◌≤%◌}
use open_stack_cnf.Migration.Live.{memory_progress}
use open_stack_cnf.Migration.Tunnel.{percent_of}

percent_of_le : (o : Option (ℕ × ℕ)) → percent_of o ≤% whole 99
unfolding percent_of
percent_of_le none = omega arith
percent_of_le (some (total, processed)) = elim (Bool-cases (ltb 0 total)) [
  | inl some_total ↦ elim (Bool-cases (leb (99 * total) (processed * 100 * 1))) [
    | inl full ↦ rw (some_total, full) (omega arith)
    | inr part ↦ rw (some_total, part) (ground arith)
  ]
  | inr no_total ↦ rw no_total (omega arith)
]

percent_of_none : percent_of none ≤% whole 0
unfolding percent_of
percent_of_none = omega arith

percent_of_zero : (total : ℕ) → percent_of (some (total, 0)) ≤% whole 0
unfolding percent_of
percent_of_zero total = elim (Bool-cases (ltb 0 total)) [
  | inl some_total ↦ elim (Bool-cases (leb (99 * total) (0 * 100 * 1))) [
    | inl full ↦ absurd (ground arith)
    | inr part ↦ rw (some_total, part) (omega arith)
  ]
  | inr no_total ↦ rw no_total (omega arith)
]

nothing_copied :
    (o : Option (ℕ × ℕ)) → percent_of o ≤% whole 0 → memory_progress (percent_of o) ≤% whole 25
nothing_copied o le = omega (arith, le)

-- More of the same total is no smaller share.
percent_of_mono :
    (total processed more : ℕ)
    → processed ≤ more
    → percent_of (some (total, processed)) ≤% percent_of (some (total, more))
unfolding percent_of
percent_of_mono total processed more le = elim (Bool-cases (ltb 0 total)) [
  | inl some_total ↦ elim (Bool-cases (leb (99 * total) (processed * 100 * 1))) [
    | inl full ↦ elim (Bool-cases (leb (99 * total) (more * 100 * 1))) [
      | inl full' ↦ rw (some_total, full, full') (omega arith)
      | inr part' ↦ absurd (ground arith)
    ]
    | inr part ↦ elim (Bool-cases (leb (99 * total) (more * 100 * 1))) [
      | inl full' ↦ rw (some_total, part, full') (ground arith)
      | inr part' ↦
          let scaled = mul-le-mul_left total le in
          rw (some_total, part, part') (omega (arith, scaled))
    ]
  ]
  | inr no_total ↦ rw no_total (omega arith)
]

-- `25 + 50 * processed / total`
abbrev pub linear_progress : ℕ → ℕ → Percent
linear_progress total processed = record { num = 25 * total + 50 * processed; den = total }

percent_of_exact :
    (total processed : ℕ)
    → 0 < total
    → processed * 100 < 99 * total
    → (memory_progress (percent_of (some (total, processed))) ≤% linear_progress total processed)
      × (linear_progress total processed ≤% memory_progress (percent_of (some (total, processed))))
unfolding percent_of
percent_of_exact total processed p below =
    let some_total : ltb 0 total ≡ true = ground arith in
    let part : leb (99 * total) (processed * 100 * 1) ≡ false = ground arith in
    rw (some_total, part) (omega arith, omega arith)

-- The progress that is recorded in the memory phase for an answer of the hypervisor lies between 25
-- and 75 per cent. It is 25 where no answer is given or nothing is processed, and of the same total it
-- is not less where more is processed. Below 99 per cent of the total it is 25 and 50 times the share
-- that is processed.
pub memory_progress_bounds :
    ((o : Option (ℕ × ℕ))
      → (whole 25 ≤% memory_progress (percent_of o)) × (memory_progress (percent_of o) ≤% whole 75))
    × (memory_progress (percent_of none) ≤% whole 25)
    × ((total : ℕ) → memory_progress (percent_of (some (total, 0))) ≤% whole 25)
    × ((total processed more : ℕ)
        → processed ≤ more
        → memory_progress (percent_of (some (total, processed)))
          ≤% memory_progress (percent_of (some (total, more))))
    × ((total processed : ℕ)
        → 0 < total
        → processed * 100 < 99 * total
        → (memory_progress (percent_of (some (total, processed)))
            ≤% linear_progress total processed)
          × (linear_progress total processed
              ≤% memory_progress (percent_of (some (total, processed)))))
memory_progress_bounds = (
  λ o. let le = percent_of_le o in (omega arith, omega (arith, le)),
  nothing_copied none percent_of_none,
  λ total. nothing_copied (some (total, 0)) (percent_of_zero total),
  λ total processed more h. let le = percent_of_mono total processed more h in omega (arith, le),
  percent_of_exact,
)
