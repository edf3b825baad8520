-- ===== src/Effect/Exceptions.antt =====
-- The exception classes of cnf/storage/ceph.py, cnf/network/bgp.py, cnf/openstack/client.py and
-- cnf/migration/engine.py, each with its text, and `external` for what libraries raise.
use open_stack_cnf.Prelude.{ℕ, String}

pub data Exception : Type 0 where
  ceph_error ceph_sync_timeout bgp_error migration_error : String → Exception
  vm_not_found vm_error vm_timeout external : String → Exception
  http_error : ℕ → String → Exception

-- `str(e)`
abbrev pub text : Exception → String
text (ceph_error m) = m
text (ceph_sync_timeout m) = m
text (bgp_error m) = m
text (migration_error m) = m
text (vm_not_found m) = m
text (vm_error m) = m
text (vm_timeout m) = m
text (external m) = m
text (http_error _ m) = m

pub data Result {ℓ} (A : Type ℓ) : Type ℓ where
  ok : A → Result A
  err : Exception → Result A
