-- ===== src/Osc/Table.antt =====
-- cnf/osc/v1: how the commands lay an answer out. A command returns its columns and its rows; that of
-- one object has one row.
use open_stack_cnf.Prelude.{String, ◌⧺◌, not, List, [], ◌∷◌, map, keep, str_eq}
use open_stack_cnf.Prelude.Text.{chars}
use open_stack_cnf.Effect.Exceptions.{Result, ok, err, external}
use open_stack_cnf.Effect.Env.{Json, Items, Members, null, str, arr, obj, nil, cons, end, member}
use open_stack_cnf.Ceph.{get_or, item}

pub record Table : Type 0 where
  pub columns : List String
  pub rows : List (List Json)

-- A tuple or a list: the first expression that raises ends it.
abbrev pub cons_ok : {A : Type 0} → Result A → Result (List A) → Result (List A)
cons_ok (err e) _ = err e
cons_ok (ok a) (err e) = err e
cons_ok (ok a) (ok rest) = ok (a ∷ rest)

unfoldable pub all_ok : {A : Type 0} → List (Result A) → Result (List A)
all_ok [] = ok []
all_ok (r ∷ rs) = cons_ok r (all_ok rs)

abbrev pub items_list : Items → List Json
items_list nil = []
items_list (cons j xs) = j ∷ items_list xs

-- The keys of a dict in the order in which they first came, each once.
unfoldable pub keys_of : Members → List String
unfolding keep
keys_of end = []
keys_of (member k _ m) = k ∷ keep (λ t. not (str_eq t k)) (keys_of m)

-- `for x in data`
unfoldable pub iterate : Json → Result (List Json)
unfolding keys_of chars
iterate (arr xs) = ok (items_list xs)
iterate (obj m) = ok (map str (keys_of m))
iterate (str s) = ok (map str (chars s))
iterate _ = err (external "TypeError: not iterable")

abbrev pub as_text : Json → Result String
as_text (str s) = ok s
as_text _ = err (external "TypeError: expected str instance")

-- `", ".join(texts)`
unfoldable pub joined : List String → String
joined [] = ""
joined (s ∷ []) = s
joined (s ∷ (t ∷ rest)) = s ⧺ ", " ⧺ joined (t ∷ rest)

abbrev joined_ok : Result (List String) → Result Json
unfolding joined
joined_ok (err e) = err e
joined_ok (ok texts) = ok (str (joined texts))

abbrev joined_from : Result (List Json) → Result Json
joined_from (err e) = err e
joined_from (ok xs) = joined_ok (all_ok (map as_text xs))

-- An expression of a row.
abbrev pub Reader : Type 0
Reader = Json → Result Json

-- `data["key"]`
abbrev pub field : String → Reader
unfolding item
field key j = item j key

-- `data.get("key")`
abbrev pub optional : String → Reader
unfolding get_or
optional key j = get_or j key null

-- `", ".join(data.get("key", []))`
unfoldable pub joined_field : String → Reader
unfolding get_or iterate all_ok joined
joined_field key j = elim (get_or j key (arr nil)) [
  | err e ↦ err e
  | ok v ↦ joined_from (iterate v)
]

-- The tuple of a row.
abbrev pub read_row : List Reader → Json → Result (List Json)
read_row readers j = all_ok (map (λ r. r j) readers)

abbrev pub table_ok : List String → Result (List (List Json)) → Result Table
table_ok columns (err e) = err e
table_ok columns (ok rows) = ok (record { columns = columns; rows = rows })

-- The rows of the objects that an answer goes through.
abbrev pub table_of : List String → List Reader → Result (List Json) → Result Table
table_of columns readers (err e) = err e
table_of columns readers (ok objects) = table_ok columns (all_ok (map (read_row readers) objects))

-- What a command that lists returns: a row for each object.
unfoldable pub lister : List String → List Reader → Json → Result Table
unfolding iterate all_ok
lister columns readers j = table_of columns readers (iterate j)

-- What a command that shows one object returns.
unfoldable pub show_one : List String → List Reader → Json → Result Table
unfolding all_ok
show_one columns readers j = table_of columns readers (ok (j ∷ []))
