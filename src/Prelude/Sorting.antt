-- ===== src/Prelude/Sorting.antt =====
-- A list in an order: a row goes before the first of those that it comes before.
use mathlib.Core.Path.{◌≡◌, refl}
use mathlib.Core.Logic.{inl, inr}
use mathlib.Core.Bool.{Bool, true, false}
use mathlib.Core.List.{List, [], ◌∷◌, ◌++◌, Permᴰ}
use mathlib.Core.List.Permᴰ
use open_stack_cnf.Prelude.Tests.{if◌then◌else◌, Bool-cases}
use open_stack_cnf.Prelude.Lists.{All}

module _ {A : Type 0} (before : A → A → Bool) where
  unfoldable pub insert_by : A → List A → List A
  insert_by x [] = x ∷ []
  insert_by x (y ∷ ys) = let rest = insert_by x ys in if before x y then x ∷ y ∷ ys else y ∷ rest

  unfoldable pub sort_onto : List A → List A → List A
  unfolding insert_by
  sort_onto sorted [] = sorted
  sort_onto sorted (x ∷ xs) = sort_onto (insert_by x sorted) xs

  unfoldable pub sort_by : List A → List A
  unfolding sort_onto
  sort_by xs = sort_onto [] xs

  All-insert_by : (P : A → Type 0) (x : A) (ys : List A) → P x → All P ys → All P (insert_by x ys)
  unfolding insert_by
  All-insert_by P x [] hx hy = (hx, tt)
  All-insert_by P x (y ∷ ys) hx hy = elim (Bool-cases (before x y)) [
    | inl h ↦ rw h (hx, hy)
    | inr h ↦ rw h (hy.0, All-insert_by P x ys hx hy.1)
  ]

  All-sort_onto :
      (P : A → Type 0) (sorted xs : List A) → All P sorted → All P xs → All P (sort_onto sorted xs)
  unfolding sort_onto
  All-sort_onto P sorted [] hs hx = hs
  All-sort_onto P sorted (x ∷ xs) hs hx =
      All-sort_onto P (insert_by x sorted) xs (All-insert_by P x sorted hx.0 hs) hx.1

  pub All-sort_by : (P : A → Type 0) (xs : List A) → All P xs → All P (sort_by xs)
  unfolding sort_by
  All-sort_by P xs h = All-sort_onto P [] xs tt h

  insert_by-Permᴰ : (x : A) (ys : List A) → Permᴰ (insert_by x ys) (x ∷ ys)
  unfolding insert_by
  insert_by-Permᴰ x [] = Permᴰ.refl (x ∷ [])
  insert_by-Permᴰ x (y ∷ ys) = elim (Bool-cases (before x y)) [
    | inl h ↦ rw h (Permᴰ.refl (x ∷ y ∷ ys))
    | inr h ↦ rw h (Permᴰ.trans (Permᴰ.cons refl (insert_by-Permᴰ x ys)) (Permᴰ.swap refl refl))
  ]

  sort_onto-Permᴰ : (sorted xs : List A) → Permᴰ (sort_onto sorted xs) (sorted ++ xs)
  unfolding sort_onto
  sort_onto-Permᴰ sorted [] = Permᴰ.symm (Permᴰ.append-nil sorted)
  sort_onto-Permᴰ sorted (x ∷ xs) = Permᴰ.trans (sort_onto-Permᴰ (insert_by x sorted) xs) (
      Permᴰ.trans (Permᴰ.append_right xs (insert_by-Permᴰ x sorted))
        (Permᴰ.symm (Permᴰ.middle x sorted xs)))

  -- Nothing is lost and nothing is there twice.
  pub sort_by-Permᴰ : (xs : List A) → Permᴰ (sort_by xs) xs
  unfolding sort_by
  sort_by-Permᴰ xs = sort_onto-Permᴰ [] xs

-- Each element stands in a relation to all behind it.
abbrev pub IsSorted : {A : Type 0} → (A → A → Type 0) → List A → Type 0
IsSorted R [] = Unit
IsSorted R (x ∷ xs) = All (R x) xs × IsSorted R xs

module _ {A : Type 0} (R : A → A → Type 0) (before : A → A → Bool)
    (join : (x y z : A) → R x y → R y z → R x z) (sooner : (x y : A) → before x y ≡ true → R x y)
    (later : (x y : A) → before x y ≡ false → R y x) where
  All-trans : (x y : A) → R x y → (zs : List A) → All (R y) zs → All (R x) zs
  All-trans x y h [] a = tt
  All-trans x y h (z ∷ zs) a = (join x y z h a.0, All-trans x y h zs a.1)

  insert_by-IsSorted : (x : A) (ys : List A) → IsSorted R ys → IsSorted R (insert_by before x ys)
  unfolding insert_by
  insert_by-IsSorted x [] h = (tt, tt)
  insert_by-IsSorted x (y ∷ ys) h = elim (Bool-cases (before x y)) [
    | inl p ↦ rw p ((sooner x y p, All-trans x y (sooner x y p) ys h.0), h)
    | inr p ↦ rw p (All-insert_by before (R y) x ys (later x y p) h.0, insert_by-IsSorted x ys h.1)
  ]

  sort_onto-IsSorted :
      (sorted xs : List A) → IsSorted R sorted → IsSorted R (sort_onto before sorted xs)
  unfolding sort_onto
  sort_onto-IsSorted sorted [] h = h
  sort_onto-IsSorted sorted (x ∷ xs) h =
      sort_onto-IsSorted (insert_by before x sorted) xs (insert_by-IsSorted x sorted h)

  -- An order that the test decides, up to ties, is the order of the result.
  pub sort_by-IsSorted : (xs : List A) → IsSorted R (sort_by before xs)
  unfolding sort_by
  sort_by-IsSorted xs = sort_onto-IsSorted [] xs tt
