-- ===== src/Prelude/Dict.antt =====
-- A Python dict with text keys, and a database table by primary key, in insertion order.
use mathlib.Core.Path.{◌≡◌, refl}
use mathlib.Core.Logic.{◌≢◌}
use mathlib.Core.Option.{Option, none, some}
use mathlib.Core.List.{List, [], ◌∷◌}
use Prim.Native.String.{String}
use native.Mathlib.Omega.{arith}
use text.Mathlib.Text.{◌==◌}
use text.Mathlib.TextEquality.{eq_iff}
use text.Mathlib.TextPositions.{eq_refl}
use open_stack_cnf.Prelude.Tests.{if◌then◌else◌}

abbrev pub Dict {ℓ} : Type ℓ → Type ℓ
Dict V = List (String × V)

-- The rows of a table.
abbrev pub rows {ℓ} : {R : Type ℓ} → Dict R → List R
rows [] = []
rows ((_, r) ∷ d) = r ∷ rows d

module _ {ℓ} {V : Type ℓ} where
  unfoldable pub lookup : String → Dict V → Option V
  lookup key [] = none
  lookup key ((name, value) ∷ rest) = if name == key then some value else lookup key rest

  unfoldable pub insert : String → V → Dict V → Dict V
  insert key value [] = (key, value) ∷ []
  insert key value ((name, old) ∷ rest) =
      if name == key then (key, value) ∷ rest else (name, old) ∷ insert key value rest

  pub lookup-insert :
      (key name : String) (value : V) (d : Dict V)
      → lookup name (insert key value d) ≡ (if key == name then some value else lookup name d)
  unfolding lookup insert
  lookup-insert key name value [] = refl
  lookup-insert key name value ((first, old) ∷ rest) = ground (
    arith,
    eq_iff first key,
    eq_iff first name,
    eq_iff key name,
    lookup-insert key name value rest,
  )

  pub lookup-insert_self :
      (key : String) (value : V) (d : Dict V) → lookup key (insert key value d) ≡ some value
  lookup-insert_self key value d = simp (lookup-insert, eq_refl)

  pub lookup-insert_ne :
      (key name : String) (value : V) (d : Dict V)
      → key ≢ name
      → lookup name (insert key value d) ≡ lookup name d
  lookup-insert_ne key name value d apart = rw lookup-insert (ground (arith, eq_iff key name))
