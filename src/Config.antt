-- ===== src/Config.antt =====
-- cnf/config.py: the settings that the modelled code reads, with their defaults. They are read
-- once (`get_settings` is cached), so they are a constant of the environment. The numbers are
-- sizes, counts and intervals, and are taken not to be negative.
use open_stack_cnf.Prelude.{ℕ, ◌*◌, String, List, [], ◌∷◌, if◌then◌else◌, str_eq}

pub record CephConfig : Type 0 where
  pub conf_path : String
  pub keyring_path : String
  pub client_name : String
  pub pool : String
  pub mirror_lag_threshold_bytes : ℕ

pub record BgpConfig : Type 0 where
  pub as_number : ℕ
  pub convergence_wait_seconds : ℕ

pub record RaftConfig : Type 0 where
  pub etcd_endpoints : List String
  pub heartbeat_interval_ms : ℕ
  pub lease_ttl_seconds : ℕ

pub record OpenStackConfig : Type 0 where
  pub auth_url : String
  pub region_name : String

pub record Settings : Type 0 where
  pub cluster_id : String
  pub cluster_name : String
  pub cluster_grpc_addr : String
  pub ceph : CephConfig
  pub bgp : BgpConfig
  pub raft : RaftConfig
  pub openstack : OpenStackConfig
  pub collection_interval_seconds : ℕ
  pub migration_max_lag_bytes : ℕ

abbrev pub ceph_defaults : CephConfig
ceph_defaults = record {
  conf_path = "/etc/ceph/ceph.conf";
  keyring_path = "/etc/ceph/ceph.client.cnf.keyring";
  client_name = "client.cnf";
  pool = "vms";
  mirror_lag_threshold_bytes = 50 * 1024 * 1024;
}

abbrev pub bgp_defaults : BgpConfig
bgp_defaults = record { as_number = 65000; convergence_wait_seconds = 5 }

abbrev pub raft_defaults : RaftConfig
raft_defaults = record {
  etcd_endpoints = "localhost:2379" ∷ [];
  heartbeat_interval_ms = 500;
  lease_ttl_seconds = 10;
}

abbrev pub openstack_defaults : OpenStackConfig
openstack_defaults = record { auth_url = ""; region_name = "RegionOne" }

-- `ensure_cluster_id`; the first argument is the identifier that `uuid.uuid4` makes.
unfoldable pub ensure_cluster_id : String → String → String
ensure_cluster_id fresh v = if str_eq v "" then fresh else v

-- The settings with no environment variable and no file, for an identifier from `uuid.uuid4`.
abbrev pub settings_defaults : String → Settings
unfolding ensure_cluster_id
settings_defaults fresh = record {
  cluster_id = ensure_cluster_id fresh "";
  cluster_name = "";
  cluster_grpc_addr = "";
  ceph = ceph_defaults;
  bgp = bgp_defaults;
  raft = raft_defaults;
  openstack = openstack_defaults;
  collection_interval_seconds = 30;
  migration_max_lag_bytes = 50 * 1024 * 1024;
}
