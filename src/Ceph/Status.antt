-- ===== src/Ceph/Status.antt =====
-- The commands of cnf/storage/ceph.py, the image info and the mirror status.
use open_stack_cnf.Prelude.{
  String, ◌⧺◌, Bool, true, false, ◌&&◌, none, some, List, [], ◌∷◌, ◌++◌, if◌then◌else◌, str_eq,
}
use open_stack_cnf.Prelude.Int.{ℤ, pos, scale, is_zero}
use open_stack_cnf.Prelude.Text.{second, before, int_of, trim, remove_prefix}
use open_stack_cnf.Config.{CephConfig}
use open_stack_cnf.Effect.Exceptions.{Result, ok, err, ceph_error, external}
use open_stack_cnf.Effect.Call.{subprocess}
use open_stack_cnf.Effect.Env.{Env, Completed, Json, str, arr, obj, nil, end}
use open_stack_cnf.Effect.Action.{Action, pure, raise, lift, ◌>>=◌}
use open_stack_cnf.Effect.Session.{World, ask}
use open_stack_cnf.Ceph.Json.{get_or, item, json_in, is_text}

pub record MirrorStatus : Type 0 where
  pub image : String
  pub pool : String
  pub state : Json
  pub description : Json
  pub lag_bytes : ℤ
  pub lag_seconds : ℤ
  pub synced : Bool

pub record RbdImageInfo : Type 0 where
  pub name : Json
  pub pool : String
  pub size_bytes : Json
  pub features : Json
  pub mirroring_enabled : Bool
  pub mirroring_state : Json

abbrev pub base_args : CephConfig → List String
base_args cfg =
    "rbd"
    ∷ ("--conf=" ⧺ cfg.conf_path)
    ∷ ("--keyring=" ⧺ cfg.keyring_path)
    ∷ ("--id=" ⧺ remove_prefix cfg.client_name "client.")
    ∷ []

abbrev pub base_cmd : CephConfig → List String
base_cmd cfg = base_args cfg ++ ("--format=json" ∷ [])

-- The command line of `_run_plain`.
abbrev pub plain_cmd : CephConfig → List String → List String
plain_cmd cfg args = base_args cfg ++ args

-- The command line of `_run`.
abbrev pub json_cmd : CephConfig → List String → List String
json_cmd cfg args = base_cmd cfg ++ args

-- The lag of a text with the entries that the mirror is behind: 4096 bytes for each, and 0 where no
-- number can be read.
unfoldable pub lag_of_text : String → ℤ
lag_of_text desc = elim (second "entries_behind_master=" desc) [
  | none ↦ pos 0
  | some rest ↦ elim (int_of (before "," rest)) [ none ↦ pos 0 | some n ↦ scale n 4096 ]
]

-- `desc.split`, which only a text has.
abbrev lag_of_split : Json → Result ℤ
lag_of_split (str s) = ok (lag_of_text s)
lag_of_split _ = err (external "AttributeError: split")

abbrev lag_where : Json → Result Bool → Result ℤ
lag_where desc (ok true) = lag_of_split desc
lag_where desc (ok false) = ok (pos 0)
lag_where desc (err e) = err e

-- The lag of a description, which may be any value.
unfoldable pub lag_of : Json → Result ℤ
unfolding json_in lag_of_text
lag_of desc = lag_where desc (json_in "entries_behind_master" desc)

module _ (env : Env) where
  abbrev plain_output : Completed → Action World String
  plain_output result =
      if is_zero result.returncode
      then pure result.stdout
      else raise (ceph_error (trim result.stderr))

  unfoldable pub run_plain : List String → Action World String
  run_plain args = do
    let cmd = plain_cmd env.settings.ceph args
    result ← ask (subprocess cmd) (λ h. env.run h cmd)
    plain_output result

  abbrev json_output : Completed → Action World Json
  json_output result =
      if is_zero result.returncode
      then (if str_eq (trim result.stdout) ""
          then pure (obj end)
          else lift (env.json_loads result.stdout))
      else raise (ceph_error ("rbd command failed: " ⧺ trim result.stderr))

  unfoldable pub run_json : List String → Action World Json
  run_json args = do
    let cmd = json_cmd env.settings.ceph args
    result ← ask (subprocess cmd) (λ h. env.run h cmd)
    json_output result

  unfoldable pub get_image_info : String → String → Action World RbdImageInfo
  get_image_info pool image = do
    data' ← run_json ("info" ∷ (pool ⧺ "/" ⧺ image) ∷ [])
    name ← lift (item data' "name")
    size ← lift (get_or data' "size" (Json.num (pos 0)))
    features ← lift (get_or data' "features" (arr nil))
    enabled ← lift (json_in "journaling" features)
    mirroring ← lift (get_or data' "mirroring" (obj end))
    state ← lift (get_or mirroring "state" (str "disabled"))
    pure (record {
      name = name;
      pool = pool;
      size_bytes = size;
      features = features;
      mirroring_enabled = enabled;
      mirroring_state = state;
    })

  abbrev pub status_of : String → String → Json → Json → ℤ → MirrorStatus
  status_of pool image state desc lag_bytes = record {
    image = image;
    pool = pool;
    state = state;
    description = desc;
    lag_bytes = lag_bytes;
    lag_seconds = pos 0;
    synced = is_text "up+replaying" state && is_zero lag_bytes;
  }

  unfoldable pub get_mirror_status : String → String → Action World MirrorStatus
  get_mirror_status pool image = do
    data' ← run_json ("mirror" ∷ "image" ∷ "status" ∷ (pool ⧺ "/" ⧺ image) ∷ [])
    desc ← lift (get_or data' "description" (str ""))
    lag_bytes ← lift (lag_of desc)
    state ← lift (get_or data' "state" (str "unknown"))
    pure (status_of pool image state desc lag_bytes)
