-- ===== src/OpenStack/Details.antt =====
-- cnf/openstack/client.py: what the client returns, and the sums and shares of the metrics.
use open_stack_cnf.OpenStack.Rounding.{used_percent}
use open_stack_cnf.Prelude.{ℕ, ◌+◌, String, Option, none, some, List, [], ◌∷◌, ◌++◌}
use open_stack_cnf.Prelude.Dict.{Dict}
use open_stack_cnf.Effect.Env.{Server, Hypervisor}

pub record VmDetails : Type 0 where
  pub id : String
  pub name : String
  pub status : String
  pub host : String
  pub flavor_id : String
  pub image_id : String
  pub ips : List String
  pub floating_ips : List String
  pub volume_ids : List String
  pub security_groups : List String
  pub metadata : Dict String
  pub availability_zone : String

pub record FlavorDetails : Type 0 where
  pub id : String
  pub name : String
  pub vcpus : ℕ
  pub ram_mb : ℕ
  pub disk_gb : ℕ

pub record VolumeDetails : Type 0 where
  pub id : String
  pub name : String
  pub size_gb : ℕ
  pub status : String

-- `get_cluster_metrics`; the percentages are in hundredths.
pub record ClusterMetrics : Type 0 where
  pub cpu_used_pct : ℕ
  pub ram_used_pct : ℕ
  pub disk_used_pct : ℕ
  pub vm_count : ℕ
  pub network_bw_mbps : ℕ

pub record Totals : Type 0 where
  pub total_vcpus : ℕ
  pub total_ram : ℕ
  pub total_disk : ℕ
  pub used_vcpus : ℕ
  pub used_ram : ℕ
  pub used_disk : ℕ

-- The nested loop over `server.addresses`.
abbrev pub all_addresses : List (List String) → List String
all_addresses [] = []
all_addresses (addrs ∷ rest) = addrs ++ all_addresses rest

abbrev pub image_or_blank : Option String → String
image_or_blank none = ""
image_or_blank (some i) = i

abbrev pub details_of : Server → List String → VmDetails
details_of server fips = record {
  id = server.id;
  name = server.name;
  status = server.status;
  host = server.host;
  flavor_id = server.flavor_id;
  image_id = image_or_blank server.image_id;
  ips = all_addresses server.addresses;
  floating_ips = fips;
  volume_ids = server.volumes_attached;
  security_groups = server.security_groups;
  metadata = server.metadata;
  availability_zone = server.availability_zone;
}

abbrev pub no_totals : Totals
no_totals = record {
  total_vcpus = 0;
  total_ram = 0;
  total_disk = 0;
  used_vcpus = 0;
  used_ram = 0;
  used_disk = 0;
}

-- One round of the loop over the hypervisors.
abbrev pub add_hypervisor : Totals → Hypervisor → Totals
add_hypervisor t h = record {
  total_vcpus = t.total_vcpus + h.vcpus;
  total_ram = t.total_ram + h.memory_size;
  total_disk = t.total_disk + h.local_disk_size;
  used_vcpus = t.used_vcpus + h.vcpus_used;
  used_ram = t.used_ram + h.memory_used;
  used_disk = t.used_disk + h.local_disk_used;
}

unfoldable pub totals_from : Totals → List Hypervisor → Totals
totals_from t [] = t
totals_from t (h ∷ hs) = totals_from (add_hypervisor t h) hs

abbrev pub metrics_of : Totals → ℕ → ClusterMetrics
unfolding used_percent
metrics_of t n = record {
  cpu_used_pct = used_percent t.used_vcpus t.total_vcpus;
  ram_used_pct = used_percent t.used_ram t.total_ram;
  disk_used_pct = used_percent t.used_disk t.total_disk;
  vm_count = n;
  network_bw_mbps = 0;
}
