-- ===== src/Osc/Rows.antt =====
-- cnf/osc/v1 and cnf/api/v1: the rows that the answers of the handlers give.
use open_stack_cnf.Prelude.{String, List, [], ◌∷◌, map, ◌≡◌, refl, ap}
use open_stack_cnf.Effect.Exceptions.{ok}
use open_stack_cnf.Effect.Env.{Json, str, arr}
use open_stack_cnf.Ceph.{get_or, item, find_member}
use open_stack_cnf.Api.Clusters.{ClusterResponse}
use open_stack_cnf.Api.Vms.{VmSummary, VmPage}
use open_stack_cnf.Osc.Table.{
  Reader, all_ok, as_text, read_row, table_ok, iterate, items_list, joined, joined_field, lister,
}
use open_stack_cnf.Osc.Commands.{cluster_row, vm_row, page_columns, page_row}
use open_stack_cnf.Osc.Answers.{array, number_or_null, cluster_json, vm_json, page_json}

abbrev pub cluster_values : ClusterResponse → List Json
cluster_values c =
    str c.id
    ∷ str c.name
    ∷ str c.role
    ∷ str c.status
    ∷ str c.grpc_addr
    ∷ number_or_null c.bgp_as
    ∷ []

abbrev pub vm_values : VmSummary → List Json
vm_values v = str v.id ∷ str v.name ∷ str v.status ∷ str v.host ∷ str (joined v.ips) ∷ []

abbrev pub page_values : VmPage → List Json
page_values v =
    str v.summary.id
    ∷ str v.summary.name
    ∷ str v.summary.status
    ∷ str v.summary.host
    ∷ str v.flavor_id
    ∷ str (joined v.summary.ips)
    ∷ str (joined v.summary.volumes)
    ∷ []

items-array : {A : Type 0} (f : A → Json) (xs : List A) → items_list (array f xs) ≡ map f xs
items-array f [] = refl
items-array f (x ∷ xs) = ap (λ l. f x ∷ l) (items-array f xs)

read_texts : (xs : List String) → all_ok (map as_text (items_list (array str xs))) ≡ ok xs
unfolding all_ok
read_texts [] = refl
read_texts (x ∷ xs) = rw (read_texts xs) refl

joined_vm : (v : VmSummary) → joined_field "ips" (vm_json v) ≡ ok (str (joined v.ips))
unfolding joined_field get_or find_member iterate
joined_vm v = rw (read_texts v.ips) refl

pub read_vm : (v : VmSummary) → read_row vm_row (vm_json v) ≡ ok (vm_values v)
unfolding all_ok item find_member
read_vm v = rw (joined_vm v) refl

-- The row of `VMStatus`.
pub read_page :
    (v : VmPage)
    → table_ok page_columns (all_ok (read_row page_row (page_json v) ∷ []))
      ≡ ok (record { columns = page_columns; rows = page_values v ∷ [] })
unfolding all_ok item joined_field get_or find_member iterate
read_page v = rw (read_texts v.summary.ips, read_texts v.summary.volumes) refl

pub read_cluster :
    (c : ClusterResponse) → read_row cluster_row (cluster_json c) ≡ ok (cluster_values c)
unfolding all_ok item get_or find_member
read_cluster c = refl

module _ {A : Type 0} (f : A → Json) (values : A → List Json) (readers : List Reader)
    (reads : (a : A) → read_row readers (f a) ≡ ok (values a)) where
  read_rows : (xs : List A) → all_ok (map (read_row readers) (map f xs)) ≡ ok (map values xs)
  unfolding all_ok
  read_rows [] = refl
  read_rows (x ∷ xs) = rw (reads x, read_rows xs) refl

  pub lister-array :
      (columns : List String) (xs : List A)
      → lister columns readers (arr (array f xs))
        ≡ ok (record { columns = columns; rows = map values xs })
  unfolding lister iterate
  lister-array columns xs = rw (items-array f xs, read_rows xs) refl
