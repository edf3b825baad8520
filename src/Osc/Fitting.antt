-- ===== src/Osc/Fitting.antt =====
-- cnf/osc/v1: the rows of a table fit its columns.
use open_stack_cnf.Prelude.{
  ℕ, suc, String, List, [], ◌∷◌, map, length, length-map, All, ◌≡◌, refl, sym, ap, ◌∙◌,
}
use mathlib.Core.Path.{subst}
use open_stack_cnf.Effect.Exceptions.{Result, ok, err}
use open_stack_cnf.Effect.Env.{Json}
use open_stack_cnf.Effect.Laws.{ok-injective}
use open_stack_cnf.Osc.Table.{
  Table, Reader, all_ok, cons_ok, read_row, table_of, table_ok, lister, show_one, iterate,
}

-- Every row has a value for each column.
abbrev pub IsFitting : Table → Type 0
IsFitting t = All (λ row. length row ≡ length t.columns) t.rows

cons_ok-value :
    {A : Type 0} (r : Result A) (q : Result (List A)) {xs : List A}
    → cons_ok r q ≡ ok xs
    → (a : A) × (ys : List A) × (r ≡ ok a) × (q ≡ ok ys) × (xs ≡ a ∷ ys)
cons_ok-value (err e) q h = cc
cons_ok-value (ok a) (err e) h = cc
cons_ok-value (ok a) (ok ys) h = (a, ys, refl, refl, cc)

length-all_ok :
    {A : Type 0} (rs : List (Result A)) {xs : List A} → all_ok rs ≡ ok xs → length xs ≡ length rs
unfolding all_ok
length-all_ok [] h = ap length (sym (ok-injective h))
length-all_ok (r ∷ rs) h =
    let (a, ys, _, q, e) = cons_ok-value r (all_ok rs) h in
    ap length e ∙ ap suc (length-all_ok rs q)

length-read_row :
    (readers : List Reader) (j : Json) {row : List Json}
    → read_row readers j ≡ ok row
    → length row ≡ length readers
length-read_row readers j h = length-all_ok _ h ∙ length-map (λ r. r j) readers

rows_fit :
    (readers : List Reader) (n : ℕ) (objects : List Json) {rows : List (List Json)}
    → length readers ≡ n
    → all_ok (map (read_row readers) objects) ≡ ok rows
    → All (λ row. length row ≡ n) rows
unfolding all_ok
rows_fit readers n [] p h = subst (All (λ row. length row ≡ n)) (ok-injective h) tt
rows_fit readers n (j ∷ objects) p h =
    let (row, rest, r, q, e) = cons_ok-value (read_row readers j) _ h in
    subst (All (λ x. length x ≡ n)) (sym e)
      (length-read_row readers j r ∙ p, rows_fit readers n objects p q)

table_ok-fits :
    (columns : List String) (rows : Result (List (List Json))) {t : Table}
    → ((xs : List (List Json)) → rows ≡ ok xs → All (λ row. length row ≡ length columns) xs)
    → table_ok columns rows ≡ ok t
    → IsFitting t
table_ok-fits columns (err e) k h = cc
table_ok-fits columns (ok xs) k h = subst IsFitting (ok-injective h) (k xs refl)

table_of-fits :
    (columns : List String) (readers : List Reader) (r : Result (List Json)) {t : Table}
    → length readers ≡ length columns
    → table_of columns readers r ≡ ok t
    → IsFitting t
table_of-fits columns readers (err e) p h = cc
table_of-fits columns readers (ok objects) p h =
    table_ok-fits columns _ (λ xs. rows_fit readers (length columns) objects p) h

pub show_one-fits :
    (columns : List String) (readers : List Reader) {t : Table}
    → length readers ≡ length columns
    → (j : Json) → show_one columns readers j ≡ ok t
    → IsFitting t
unfolding show_one
show_one-fits columns readers p j h = table_of-fits columns readers (ok (j ∷ [])) p h

pub lister-fits :
    (columns : List String) (readers : List Reader) {t : Table}
    → length readers ≡ length columns
    → (j : Json) → lister columns readers j ≡ ok t
    → IsFitting t
unfolding lister
lister-fits columns readers p j h = table_of-fits columns readers (iterate j) p h
