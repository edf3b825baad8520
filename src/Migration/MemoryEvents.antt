-- ===== src/Migration/MemoryEvents.antt =====
-- cnf/migration/engine.py: the events that the memory step of a live migration records.
use mathlib.Core.Path.{subst}
use mathlib.Core.List.{append_assoc, append-nil}
use open_stack_cnf.Prelude.{
  String, Option, none, some, List, [], ◌∷◌, ◌++◌, ◌≡◌, refl, sym, ◌∙◌, ap, All, All-append,
}
use open_stack_cnf.Prelude.Percent.{Percent}
use open_stack_cnf.Db.Models.{MigrationEvent, memory}
use open_stack_cnf.Effect.Env.{Env}
use open_stack_cnf.Effect.Action.{Action}
use open_stack_cnf.Effect.Trace.{Preorder, Keeps, keeps_rules}
use open_stack_cnf.OpenStack.{VmDetails}
use open_stack_cnf.Migration.Context.{
  Engine, Tunnel, Rollback, event_of, on_world, register_rollback,
}
use open_stack_cnf.Migration.Tunnel.{run_tunnel}
use open_stack_cnf.Migration.Reported.{IsReported}
use open_stack_cnf.Migration.Calls.{client_calls, client-on_world, client-register_rollback}
use open_stack_cnf.Migration.StepCalls.{IsStep, run_tunnel-kept}
use open_stack_cnf.Migration.Events.{Prefix, start, next, transition_records}
use open_stack_cnf.Migration.Live

-- An event of the memory phase, with the progress 25 + p / 2 for a share p that the tunnel reports.
abbrev pub IsMemory : Env → String → MigrationEvent → Type 0
IsMemory env id e =
    (p : Percent) × IsReported env p × (e ≡ event_of id memory (Live.memory_progress p))

-- What records events of the memory phase and no others.
abbrev pub memory_events : Env → Preorder Engine
memory_events env = record {
  rel = λ e e'.
      (e'.ctx.migration_id ≡ e.ctx.migration_id)
      × (ys : List MigrationEvent) × (e'.world.db.events ≡ e.world.db.events ++ ys)
      × All (IsMemory env e.ctx.migration_id) ys;
  same = λ e. (refl, [], sym (append-nil e.world.db.events), tt);
  join = λ a b c p q.
      let (idp, ys, eqp, allp) = p in
      let (idq, zs, eqq, allq) = q in
      (
        idq ∙ idp,
        ys ++ zs,
        eqq ∙ ap (λ l. l ++ zs) eqp ∙ append_assoc a.world.db.events ys zs,
        All-append (IsMemory env a.ctx.migration_id) ys zs allp
            (subst (λ i. All (IsMemory env i) zs) idp allq),
      );
}

memory-of-client :
    {Q : _ → Type 0} {A : Type 0} (env : Env) (m : Action Engine A)
    → Keeps (client_calls Q) m
    → Keeps (memory_events env) m
memory-of-client env m k = record {
  at = λ s. (
    ap (λ i. i.0) (k.at s).1,
    [],
    ap (λ d. d.events) (k.at s).2 ∙ sym (append-nil s.world.db.events),
    tt,
  );
}

Prefix-All :
    (P : MigrationEvent → Type 0) {e : MigrationEvent} {ys : List MigrationEvent}
    → P e
    → Prefix ys (e ∷ [])
    → All P ys
Prefix-All P p start = tt
Prefix-All P p (next start) = (p, tt)

module _ (env : Env) where
  progress_cb-memory :
      (p : Percent) → IsReported env p → Keeps (memory_events env) (Live.progress_cb env p)
  unfolding Live.progress_cb
  progress_cb-memory p reported = record {
    at = λ s.
        let (id, ys, eq, pre, _) = transition_records env memory (Live.memory_progress p) s in
        (id, ys, eq, Prefix-All (IsMemory env s.ctx.migration_id) (p, reported, refl) pre);
  }

  tunnel-memory : (t : Tunnel) → Keeps (memory_events env) (run_tunnel env (Live.progress_cb env) t)
  tunnel-memory t =
      run_tunnel-kept env (memory_events env)
        (λ A m k. memory-of-client {Q = IsStep} env (on_world m) (client-on_world m k))
        (Live.progress_cb env) progress_cb-memory t

  register-memory : (r : Rollback) → Keeps (memory_events env) (register_rollback r)
  register-memory r = memory-of-client {Q = IsStep} env _ (client-register_rollback r)

  copy_memory-memory :
      (vm : VmDetails) (host : Option String)
      → Keeps (memory_events env) (Live.copy_memory env vm host)
  unfolding Live.copy_memory Live.open_tunnel
  copy_memory-memory vm none = search keeps_rules
  copy_memory-memory vm (some host) = search (keeps_rules, tunnel-memory, register-memory) depth 10

  pub copy_memory_of-memory :
      (vm : Option VmDetails) → Keeps (memory_events env) (Live.copy_memory_of env vm)
  unfolding Live.copy_memory_of
  copy_memory_of-memory none = search keeps_rules
  copy_memory_of-memory (some vm) = search (keeps_rules, copy_memory-memory)
