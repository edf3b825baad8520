-- ===== src/Migration/Tunnel.antt =====
-- cnf/migration/engine.py: `QEMUMigrationTunnel`. The monitor runs beside the migration; its
-- rounds, as many as the environment says, are placed after both connections are open and before
-- the migration ends, and it is cancelled while it sleeps.
use Prim.Native.Nat.{bit_or}
use open_stack_cnf.Prelude.{
  ℕ, zero, suc, ◌*◌, String, ◌⧺◌, true, Option, none, some, ltb, if◌then◌else◌,
}
use open_stack_cnf.Prelude.Text.{decimal}
use open_stack_cnf.Prelude.Percent.{Percent, whole, min_percent}
use open_stack_cnf.Effect.Call.{
  Libvirt, libvirt, open_uri, lookup_by_name, migrate_to_uri, job_info, abort_job, close_uri, sleep,
}
use open_stack_cnf.Effect.Env.{Env}
use open_stack_cnf.Effect.Action.{Action, pure, with_state, modify, attempt, finally, ◌>>=◌, ◌>>◌}
use open_stack_cnf.Effect.Session.{World, ask, tell}
use open_stack_cnf.Migration.Context.{Engine, Tunnel, on_world}

-- VIR_MIGRATE_LIVE, PERSIST_DEST, UNDEFINE_SOURCE, COMPRESSED and AUTO_CONVERGE
abbrev pub libvirt_migrate_flags : ℕ
libvirt_migrate_flags = bit_or (bit_or (bit_or (bit_or 1 4) 8) 64) 8192

abbrev pub default_port : ℕ
default_port = 49152

abbrev pub hypervisor_uri : String → String
hypervisor_uri host = "qemu+ssh://" ⧺ host ⧺ "/system"

abbrev pub tunnel_uri : Tunnel → String
tunnel_uri t = "tcp://" ⧺ t.dest_host ⧺ ":" ⧺ decimal t.port

-- `min(99.0, (info[4] / info[3]) * 100)` where `info and info[3] > 0`, and 0.0 elsewhere.
unfoldable pub percent_of : Option (ℕ × ℕ) → Percent
percent_of none = whole 0
percent_of (some (total, processed)) =
    if ltb 0 total
    then min_percent (whole 99) (record { num = processed * 100; den = total })
    else whole 0

module _ (env : Env) where
  unfoldable pub libvirt_do : Libvirt → Action World (Unit {0})
  libvirt_do c = ask (libvirt c) (λ h. env.libvirt h c)

  -- The `try` of `_get_progress_pct`: a connection is closed only if nothing raises.
  unfoldable pub read_progress : Tunnel → Action World (Option (ℕ × ℕ))
  read_progress t = do
    libvirt_do (open_uri (hypervisor_uri t.source_host))
    libvirt_do (lookup_by_name (hypervisor_uri t.source_host) t.vm_id)
    info ← ask (libvirt (job_info t.vm_id)) (λ h. env.job_info h t.vm_id)
    libvirt_do (close_uri (hypervisor_uri t.source_host))
    pure info

  -- `_get_progress_pct`
  unfoldable pub get_progress_pct : Tunnel → Action World Percent
  unfolding percent_of
  get_progress_pct t =
      attempt (do info ← read_progress t; pure (percent_of info)) (λ e. pure (whole 0))

  module _ (callback : Percent → Action Engine (Unit {0})) where
    -- One round of `_monitor_progress` after its sleep: what raises is passed over.
    unfoldable pub poll_progress : Tunnel → Action Engine (Unit {0})
    poll_progress t = attempt (do pct ← on_world (get_progress_pct t); callback pct) (λ e. pure tt)

    -- `while not self._cancelled`, for the rounds that the migration leaves time for.
    unfoldable pub monitor_progress : ℕ → Tunnel → Action Engine (Unit {0})
    monitor_progress zero t = pure tt
    monitor_progress (suc n) t =
        let rest = on_world (tell (sleep 2)) >> poll_progress t >> monitor_progress n t in
        with_state λ e. if e.cancelled then pure tt else rest

    -- The call of `migrateToURI3`, with the monitor beside it.
    unfoldable pub migrate_monitored : Tunnel → Action Engine (Unit {0})
    migrate_monitored t = do
      with_state λ e. monitor_progress (env.monitor_rounds e.world.history) t
      on_world (
          libvirt_do (
            migrate_to_uri t.vm_id (hypervisor_uri t.dest_host) (tunnel_uri t)
              libvirt_migrate_flags))

    -- The inner `try` of `_do_migrate`.
    unfoldable pub migrate_connected : Tunnel → Action Engine (Unit {0})
    migrate_connected t = do
      on_world (libvirt_do (lookup_by_name (hypervisor_uri t.source_host) t.vm_id))
      on_world (libvirt_do (open_uri (hypervisor_uri t.dest_host)))
      finally (migrate_monitored t) (on_world (libvirt_do (close_uri (hypervisor_uri t.dest_host))))

    -- `_do_migrate`
    unfoldable pub do_migrate : Tunnel → Action Engine (Unit {0})
    do_migrate t = do
      on_world (libvirt_do (open_uri (hypervisor_uri t.source_host)))
      finally (migrate_connected t)
          (on_world (libvirt_do (close_uri (hypervisor_uri t.source_host))))

    -- `QEMUMigrationTunnel.run`
    unfoldable pub run_tunnel : Tunnel → Action Engine (Unit {0})
    run_tunnel t = do do_migrate t; callback (whole 100)

  -- The `_abort` of `abort`, without its `except`.
  unfoldable pub abort_calls : Tunnel → Action World (Unit {0})
  abort_calls t = do
    libvirt_do (open_uri (hypervisor_uri t.source_host))
    libvirt_do (lookup_by_name (hypervisor_uri t.source_host) t.vm_id)
    libvirt_do (abort_job t.vm_id)
    libvirt_do (close_uri (hypervisor_uri t.source_host))

  -- `QEMUMigrationTunnel.abort`
  unfoldable pub abort_migration : Tunnel → Action Engine (Unit {0})
  abort_migration t = do
    modify (λ e. record e { cancelled = true })
    attempt (on_world (abort_calls t)) (λ e. pure tt)
