-- ===== src/Prelude/Lists.antt =====
-- Lists measured and searched over the native numbers.
use Prim.Native.Nat.{ℕ, zero, suc, ◌+◌, ◌≤◌}
use mathlib.Core.Path.{◌≡◌, refl, ap, ◌∙◌}
use mathlib.Core.Bool.{Bool, true, false, ◌||◌}
use mathlib.Core.List.{List, [], ◌∷◌, ◌++◌, map}
use mathlib.Core.Logic.{◌⊎◌, ◌↔◌, inl, inr}
use native.Mathlib.Omega.{arith}
use native.Mathlib.Nat.{zero-add, suc-add}
use native.Mathlib.Numerals.{unary_clauses}
use open_stack_cnf.Prelude.Tests.{if◌then◌else◌, Bool-cases}

module _ {ℓ} {A : Type ℓ} where
  abbrev pub length : List A → ℕ
  length [] = 0
  length (_ ∷ xs) = suc (length xs)

  abbrev pub is_empty : List A → Bool
  is_empty [] = true
  is_empty (_ ∷ _) = false

  -- A list comprehension with a condition.
  unfoldable pub keep : (A → Bool) → List A → List A
  keep p [] = []
  keep p (x ∷ xs) = let rest = keep p xs in if p x then x ∷ rest else rest

  unfoldable pub any : (A → Bool) → List A → Bool
  any p [] = false
  any p (x ∷ xs) = p x || any p xs

  unfoldable pub take : ℕ → List A → List A
  take zero xs = []
  take (suc n) [] = []
  take (suc n) (x ∷ xs) = x ∷ take n xs

  unfoldable pub drop : ℕ → List A → List A
  drop zero xs = xs
  drop (suc n) [] = []
  drop (suc n) (x ∷ xs) = drop n xs

  pub take-add : (n k : ℕ) (xs : List A) → take (n + k) xs ≡ take n xs ++ take k (drop n xs)
  unfolding take drop
  take-add zero k xs = ap (λ n. take n xs) (zero-add k)
  take-add (suc n) zero [] = simp unary_clauses refl
  take-add (suc n) (suc k) [] = simp unary_clauses refl
  take-add (suc n) k (x ∷ xs) = rw (suc-add n k) (ap (λ l. x ∷ l) (take-add n k xs))

  pub drop-add : (n k : ℕ) (xs : List A) → drop (n + k) xs ≡ drop k (drop n xs)
  unfolding drop
  drop-add zero k xs = ap (λ n. drop n xs) (zero-add k)
  drop-add (suc n) zero [] = simp unary_clauses refl
  drop-add (suc n) (suc k) [] = simp unary_clauses refl
  drop-add (suc n) k (x ∷ xs) = rw (suc-add n k) (drop-add n k xs)

  pub length-take : (n : ℕ) (xs : List A) → length (take n xs) ≤ n
  unfolding take
  length-take zero xs = omega arith
  length-take (suc n) [] = omega arith
  length-take (suc n) (x ∷ xs) = omega (arith, length-take n xs)

  pub length-append : (xs ys : List A) → length (xs ++ ys) ≡ length xs + length ys
  length-append [] ys = omega arith
  length-append (x ∷ xs) ys = omega (arith, length-append xs ys)

pub length-map {ℓ κ} :
    {A : Type ℓ} {B : Type κ} (f : A → B) (xs : List A) → length (map f xs) ≡ length xs
length-map f [] = refl
length-map f (x ∷ xs) = ap suc (length-map f xs)

-- Membership as a type that computes.
module _ {A : Type 0} where
  abbrev pub In : A → List A → Type 0
  In a [] = ⊥
  In a (x ∷ xs) = (a ≡ x) ⊎ In a xs

  pub In-append_right : (a : A) (xs ys : List A) → In a ys → In a (xs ++ ys)
  In-append_right a [] ys h = h
  In-append_right a (x ∷ xs) ys h = inr (In-append_right a xs ys h)

  -- What a comprehension with a condition keeps.
  pub In-keep : (p : A → Bool) (a : A) (xs : List A) → In a (keep p xs) ↔ (In a xs × (p a ≡ true))
  unfolding keep
  In-keep p a [] = (λ h. absurd h, λ h. absurd h.0)
  In-keep p a (x ∷ xs) =
      let (to, back) = In-keep p a xs in
      elim (Bool-cases (p x)) [
        | inl h ↦ rw h (
          λ i. elim i [ inl e ↦ (inl e, ap p e ∙ h) | inr j ↦ let (k, q) = to j in (inr k, q) ],
          λ i. elim i.0 [ inl e ↦ inl e | inr j ↦ inr (back (j, i.1)) ],
        )
        | inr h ↦ rw h (
          λ i. let (k, q) = to i in (inr k, q),
          λ i. elim i.0 [ inl e ↦ absurd (cc (e, h, i.1)) | inr j ↦ back (j, i.1) ],
        )
      ]

pub In-map :
    {A B : Type 0} (f : A → B) (b : B) (xs : List A)
    → In b (map f xs) ↔ ((a : A) × In a xs × (b ≡ f a))
In-map f b [] = (λ h. absurd h, λ h. absurd h.1)
In-map f b (x ∷ xs) =
    let (to, back) = In-map f b xs in
    (
      λ h. elim h [ inl e ↦ (x, inl refl, e) | inr i ↦ let (a, j, e) = to i in (a, inr j, e) ],
      λ h. elim h.1 [ inl e ↦ inl (h.2 ∙ ap f e) | inr j ↦ inr (back (h.0, j, h.2)) ],
    )

module _ {ℓ κ} {A : Type ℓ} where
  abbrev pub All : (A → Type κ) → List A → Type κ
  All P [] = Unit
  All P (x ∷ xs) = P x × All P xs

  pub All-append : (P : A → Type κ) (xs ys : List A) → All P xs → All P ys → All P (xs ++ ys)
  All-append P [] ys hx hy = hy
  All-append P (x ∷ xs) ys hx hy = (hx.0, All-append P xs ys hx.1 hy)

pub All-In {κ} : {A : Type 0} (P : A → Type κ) (xs : List A) → ((a : A) → In a xs → P a) → All P xs
All-In P [] h = tt
All-In P (x ∷ xs) h = (h x (inl refl), All-In P xs (λ a i. h a (inr i)))
