-- ===== src/Ceph/Json.antt =====
-- How cnf/storage/ceph.py reads the JSON that `rbd` prints: `dict` and `list` operations.
use open_stack_cnf.Prelude.{
  String, Bool, true, false, ◌||◌, Option, none, some, List, [], ◌∷◌, if◌then◌else◌, str_eq,
}
use open_stack_cnf.Prelude.Text.{contains}
use open_stack_cnf.Effect.Exceptions.{Result, ok, err, external}
use open_stack_cnf.Effect.Env.{Json, Items, Members, str, arr, obj, nil, cons, end, member}

-- The last of equal keys counts, as in a dict that `json.loads` builds.
unfoldable pub find_member : String → Members → Option Json
find_member k end = none
find_member k (member j v m) =
    let rest = find_member k m in
    elim rest [ some w ↦ some w | none ↦ if str_eq j k then some v else none ]

-- `data.get(key, default)`: what is no dict has no `get`.
unfoldable pub get_or : Json → String → Json → Result Json
unfolding find_member
get_or (obj m) k d = elim (find_member k m) [ none ↦ ok d | some v ↦ ok v ]
get_or _ k d = err (external "AttributeError: get")

-- `data[key]`
unfoldable pub item : Json → String → Result Json
unfolding find_member
item (obj m) k = elim (find_member k m) [ none ↦ err (external "KeyError") | some v ↦ ok v ]
item _ k = err (external "TypeError")

unfoldable pub items_have : String → Items → Bool
items_have t nil = false
items_have t (cons (str s) xs) = str_eq s t || items_have t xs
items_have t (cons _ xs) = items_have t xs

unfoldable pub members_have : String → Members → Bool
members_have t end = false
members_have t (member k _ m) = str_eq k t || members_have t m

-- `text in data`
unfoldable pub json_in : String → Json → Result Bool
unfolding items_have members_have
json_in t (str s) = ok (contains t s)
json_in t (arr xs) = ok (items_have t xs)
json_in t (obj m) = ok (members_have t m)
json_in t _ = err (external "TypeError: not iterable")

-- A list of values of any kind.
abbrev pub Elements : Type 0
Elements = List Json

unfoldable pub list_of : Items → List Json
list_of nil = []
list_of (cons x xs) = x ∷ list_of xs

-- `data if isinstance(data, list) else []`
unfoldable pub elements_of : Json → List Json
unfolding list_of
elements_of (arr xs) = list_of xs
elements_of _ = []

unfoldable pub is_text : String → Json → Bool
is_text t (str s) = str_eq s t
is_text t _ = false

-- `vm_id in img or "volume-" in img`: what is no container raises.
abbrev volume_in : Json → Result Bool → Result Bool
volume_in img (ok true) = ok true
volume_in img (ok false) = json_in "volume-" img
volume_in img (err e) = err e

abbrev keep_image : Json → Result Bool → Result (List Json) → Result (List Json)
keep_image img (err e) rest = err e
keep_image img (ok true) rest = elim rest [ ok imgs ↦ ok (img ∷ imgs) | err e ↦ err e ]
keep_image img (ok false) rest = rest

unfoldable pub images_for : String → List Json → Result (List Json)
unfolding json_in
images_for vm_id [] = ok []
images_for vm_id (img ∷ rest) =
    let kept = images_for vm_id rest in keep_image img (volume_in img (json_in vm_id img)) kept
