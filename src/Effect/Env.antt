-- ===== src/Effect/Env.antt =====
-- How the outside answers: every answer may depend on all the calls made before, and may be an
-- exception. No law is assumed here; a theorem that needs one has it as a hypothesis.
use open_stack_cnf.Prelude.{ℕ, String, Bool, Option, List}
use open_stack_cnf.Prelude.Int.{ℤ}
use open_stack_cnf.Prelude.Dict.{Dict}
use open_stack_cnf.Config.{Settings}
use open_stack_cnf.Effect.Exceptions.{Exception, Result}
use open_stack_cnf.Effect.Call.{Side, Sdk, Rpc, Libvirt, Etcd, History}

-- `subprocess.CompletedProcess`
pub record Completed : Type 0 where
  pub returncode : ℤ
  pub stdout : String
  pub stderr : String

mutual
  -- A value of the `json` module; its numbers are integers.
  pub data Json : Type 0 where
    null : Json
    bool : Bool → Json
    num : ℤ → Json
    str : String → Json
    arr : Items → Json
    obj : Members → Json

  pub data Items : Type 0 where
    nil : Items
    cons : Json → Items → Items

  pub data Members : Type 0 where
    end : Members
    member : String → Json → Members → Members

-- What the code reads of the SDK's `Server`: `addresses` has the addresses of each network.
pub record Server : Type 0 where
  pub id : String
  pub name : String
  pub status : String
  pub addresses : List (List String)
  pub host : String
  pub flavor_id : String
  pub image_id : Option String
  pub volumes_attached : List String
  pub security_groups : List String
  pub metadata : Dict String
  pub availability_zone : String

pub record Hypervisor : Type 0 where
  pub vcpus : ℕ
  pub vcpus_used : ℕ
  pub memory_size : ℕ
  pub memory_used : ℕ
  pub local_disk_size : ℕ
  pub local_disk_used : ℕ

pub record Volume : Type 0 where
  pub id : String
  pub name : String
  pub size : ℕ
  pub status : String

pub record Flavor : Type 0 where
  pub id : String
  pub name : String
  pub vcpus : ℕ
  pub ram : ℕ
  pub disk : ℕ

pub record Env : Type 0 where
  pub settings : Settings
  pub run : History → List String → Result Completed
  pub json_loads : String → Result Json
  pub server : History → Side → String → Result (Option Server)
  pub texts : History → Side → Sdk → Result (List String)
  pub command : History → Side → Sdk → Result (Unit {0})
  pub hypervisors : History → Side → Result (List Hypervisor)
  pub volume : History → Side → String → Result Volume
  pub new_volume : History → Side → Sdk → Result String
  pub flavor : History → Side → String → Result Flavor
  -- the `success` field of the response
  pub stub : History → Side → Rpc → Result Bool
  pub libvirt : History → Libvirt → Result (Unit {0})
  -- fields 3 and 4 of `jobInfo()`, where it returns a value that is not empty
  pub job_info : History → String → Result (Option (ℕ × ℕ))
  -- how often the progress of a live migration is polled before it ends
  pub monitor_rounds : History → ℕ
  pub new_lease : History → ℕ → Result ℕ
  pub put_if_absent : History → Etcd → Result Bool
  pub key_value : History → String → Result (Option String)
  pub entries : History → String → Result (List (String × String))
  pub etcd : History → Etcd → Result (Unit {0})
  -- `.delay` of a Celery task
  pub enqueue : History → Result (Unit {0})
  -- the exception with which a session's query or commit fails
  pub db_fault : History → Option Exception
  -- `bool(eval(trigger, …))` over the values of cpu_pct, ram_pct, disk_pct (in hundredths) and
  -- vm_count
  pub eval : String → ℕ → ℕ → ℕ → ℕ → Result Bool
  -- `str(uuid.uuid4())`
  pub uuid : History → String
  -- `datetime.now` and `time.time`; and `time.monotonic`, which never goes back
  pub now : History → ℕ
  pub monotonic : History → ℕ
  -- whether the database gives one row before another, by their keys, where the order that a query
  -- asks for leaves it open
  pub first : History → String → String → Bool
