-- ===== src/Effect/Call.antt =====
-- What the program asks of the outside: one constructor for each call of a library or a command.
use open_stack_cnf.Prelude.{ℕ, String, Option, List}
use open_stack_cnf.Prelude.Int.{ℤ}
use open_stack_cnf.Prelude.Dict.{Dict}
use open_stack_cnf.Db.Models.{MigrationType}

-- Which of the two clusters of a migration a client or a stub belongs to.
pub data Side : Type 0 where
  source dest : Side

-- Calls of the OpenStack SDK.
pub data Sdk : Type 0 where
  get_server : String → Sdk
  port_floating_ips : String → Sdk
  device_floating_ips : String → Sdk
  servers : Option String → Sdk
  stop_server start_server delete_server force_delete_server : String → Sdk
  get_flavor : String → Sdk
  hypervisors : Sdk
  get_volume : String → Sdk
  -- name, size, volume type, pool and image
  create_volume : String → ℕ → Option String → String → String → Sdk
  networks : String → Sdk

-- Calls of a gRPC stub.
pub data Rpc : Type 0 where
  promote_rbd_image : String → String → Rpc
  withdraw_ip announce_ip : String → Rpc

-- Calls of libvirt; a connection is named by its URI.
pub data Libvirt : Type 0 where
  open_uri : String → Libvirt
  lookup_by_name : String → String → Libvirt
  -- domain, destination URI, migration URI and flags
  migrate_to_uri : String → String → String → ℕ → Libvirt
  job_info : String → Libvirt
  abort_job : String → Libvirt
  close_uri : String → Libvirt

-- Calls of the etcd client; a lease is named by its id.
pub data Etcd : Type 0 where
  -- host and port
  connect : String → ℤ → Etcd
  lease : ℕ → Etcd
  -- key, value and lease: put if the key has version 0
  put_if_absent : String → String → ℕ → Etcd
  get_key : String → Etcd
  put_key : String → String → Etcd
  refresh_lease : ℕ → Etcd
  revoke_lease : ℕ → Etcd
  get_prefix : String → Etcd

-- Updates of the Prometheus metrics of cnf/utils/logging.py, with the labels and values that vary; the
-- node's own id and a status that is always the same are left out.
pub data Metric : Type 0 where
  active_inc active_dec : MigrationType → Metric
  -- type, source cluster, destination cluster, status
  migration_total : MigrationType → String → String → String → Metric
  migration_duration : MigrationType → ℕ → Metric
  bgp_announcement : String → Metric
  rbd_promotion : Metric
  leader_change : Metric
  grpc_request : String → Metric
  -- cluster and value; the third has the cluster's name too
  cluster_cpu cluster_ram : String → ℕ → Metric
  cluster_vms : String → String → ℕ → Metric

pub data Call : Type 0 where
  subprocess : List String → Call
  -- in seconds, and in milliseconds
  sleep sleep_ms : ℕ → Call
  sdk : Side → Sdk → Call
  rpc : Side → Rpc → Call
  libvirt : Libvirt → Call
  etcd : Etcd → Call
  metric : Metric → Call
  -- one database session, from its first query to its commit or rollback
  db_session : Call
  -- a Celery task: type, migration, virtual machine, source, destination, options
  enqueue : MigrationType → String → String → String → String → Dict (Option String) → Call
  -- `context.set_code` and `context.set_details` of gRPC
  set_context : String → String → Call

-- The calls made so far, the latest first.
abbrev pub History : Type 0
History = List Call
