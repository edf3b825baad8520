-- ===== src/Tests/Setting.antt =====
-- An environment in which all calls succeed, and a migration of one machine with one volume.
use open_stack_cnf.Prelude.{◌*◌, String, true, false, none, some, [], ◌∷◌, length, ltb}
use open_stack_cnf.Prelude.Int.{pos}
use open_stack_cnf.Prelude.Percent.{whole}
use open_stack_cnf.Config.{Settings, ceph_defaults, bgp_defaults, raft_defaults, openstack_defaults}
use open_stack_cnf.Db.Models.{Migration, MigrationType, pending, empty_database}
use open_stack_cnf.Effect.Exceptions.{ok, err, external}
use open_stack_cnf.Effect.Env.{Env, Server, Json, str, arr, obj, nil, cons, end, member}
use open_stack_cnf.Effect.Session.{World}
use open_stack_cnf.Migration.Context.{Engine}

abbrev pub test_server : String → Server
test_server status = record {
  id = "vm";
  name = "web";
  status = status;
  addresses = ("10.0.0.5" ∷ []) ∷ [];
  host = "node1";
  flavor_id = "small";
  image_id = none;
  volumes_attached = "v1" ∷ [];
  security_groups = [];
  metadata = [];
  availability_zone = "nova";
}

-- The JSON that every command prints: an image with journaling that is in sync.
abbrev pub test_json : Json
test_json = obj (
    member "name" (str "volume-v1") (
      member "features" (arr (cons (str "journaling") nil))
        (member "state" (str "up+replaying") (member "description" (str "replaying") end))))

abbrev test_settings : Settings
test_settings = record {
  cluster_id = "here";
  cluster_name = "here";
  cluster_grpc_addr = "here:50051";
  ceph = ceph_defaults;
  bgp = bgp_defaults;
  raft = raft_defaults;
  openstack = openstack_defaults;
  collection_interval_seconds = 30;
  migration_max_lag_bytes = 50 * 1024 * 1024;
}

abbrev pub test_env : Env
test_env = record {
  settings = test_settings;
  run = λ h cmd. ok (record { returncode = pos 0; stdout = "{}"; stderr = "" });
  json_loads = λ t. ok test_json;
  server = λ h side i. ok (some (test_server "SHUTOFF"));
  texts = λ h side c. ok [];
  command = λ h side c. ok tt;
  hypervisors = λ h side. ok [];
  volume = λ h side v. ok (record { id = v; name = v; size = 20; status = "in-use" });
  new_volume = λ h side c. ok "new";
  flavor = λ h side f. ok (record { id = f; name = f; vcpus = 1; ram = 512; disk = 1 });
  stub = λ h side r. ok true;
  libvirt = λ h c. ok tt;
  job_info = λ h d. ok none;
  monitor_rounds = λ h. 1;
  new_lease = λ h ttl. ok 7;
  put_if_absent = λ h c. ok true;
  key_value = λ h k. ok none;
  entries = λ h k. ok [];
  etcd = λ h c. ok tt;
  enqueue = λ h. ok tt;
  db_fault = λ h. none;
  eval = λ t cpu ram disk vms. ok (ltb 8000 cpu);
  uuid = λ h. "new";
  now = λ h. length h;
  monotonic = λ h. length h;
  first = λ h a b. false;
}

-- The machine is not there.
abbrev pub lost_env : Env
lost_env = record test_env { server = λ h side i. err (external "ConnectionError") }

abbrev pub test_row : MigrationType → Migration
test_row type = record {
  id = "m1";
  vm_id = "vm";
  vm_name = none;
  source_cluster_id = "here";
  dest_cluster_id = "there";
  type = type;
  state = pending;
  progress_pct = whole 0;
  error = none;
  rbd_images = none;
  vm_ips = none;
  options = [];
  initiated_by = none;
  started_at = none;
  finished_at = none;
  created_at = 0;
}

abbrev pub test_world : World
test_world = record { history = []; db = empty_database }

abbrev pub test_engine : MigrationType → Engine
test_engine type = record {
  world = record {
    history = [];
    db = record empty_database { migrations = ("m1", test_row type) ∷ [] };
  };
  ctx = record {
    migration_id = "m1";
    vm_id = "vm";
    source_cluster_id = "here";
    dest_cluster_id = "there";
    migration_type = type;
    options = ("dest_host", some "node2") ∷ ("dest_next_hop", some "10.0.0.1") ∷ [];
    vm = none;
    rbd_images = [];
    vm_ips = [];
    source_grpc_client = none;
    dest_grpc_client = none;
    state = pending;
    progress = whole 0;
    started_at = none;
    error = "";
  };
  rollbacks = [];
  aborted = false;
  cancelled = false;
}
