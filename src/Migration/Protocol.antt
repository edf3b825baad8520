-- ===== src/Migration/Protocol.antt =====
-- cnf/migration/engine.py: the state machine that both engines implement, and that what they record
-- follows it.
use mathlib.Core.Path.{subst}
use open_stack_cnf.Prelude.{String, true, List, [], ◌∷◌, ◌++◌, map, ◌≡◌, refl, sym, ap}
use open_stack_cnf.Prelude.Percent.{whole}
use open_stack_cnf.Db.Models.{
  MigrationState, MigrationEvent, MigrationType, cold, live, pending, preflight, disk, memory,
  cutover, bgp, cleanup, done, state_value,
}
use open_stack_cnf.Effect.Exceptions.{ok}
use open_stack_cnf.Effect.Env.{Env}
use open_stack_cnf.Migration.Context.{Engine, event_of}
use open_stack_cnf.Migration.ColdEvents.{milestones, run-cold_events}
use open_stack_cnf.Migration.LiveEvents.{live_stages, run-live_events}
use open_stack_cnf.Migration.Stages.{Stage, once, many, Covers, Begins, Prefix-Begins, Covers-once}
use open_stack_cnf.Migration.Cold
use open_stack_cnf.Migration.Live

-- A step of a migration of a type. A phase that copies may be entered again, with more progress. Only
-- a live migration copies the memory, and it does so before its cutover.
pub data Step : MigrationType → MigrationState → MigrationState → Type 0 where
  check : {type : MigrationType} → Step type pending preflight
  copy : {type : MigrationType} → Step type preflight disk
  copied : Step cold disk disk
  stream : Step live disk memory
  streamed : Step live memory memory
  register_cold : Step cold disk cutover
  switch_live : Step live memory cutover
  announce : {type : MigrationType} → Step type cutover bgp
  clean : {type : MigrationType} → Step type bgp cleanup
  finish : {type : MigrationType} → Step type cleanup done

-- The events record a walk of the state machine from the first state to the second.
pub data Walk : MigrationType → MigrationState → List MigrationEvent → MigrationState → Type 0 where
  here : {type : MigrationType} {s : MigrationState} → Walk type s [] s
  next :
      {type : MigrationType} {s t u : MigrationState} {e : MigrationEvent}
      {es : List MigrationEvent}
      → Step type s t
      → e.state ≡ state_value t
      → Walk type t es u
      → Walk type s (e ∷ es) u

-- Stages that keep to the state machine from a state on, and end in the last one.
abbrev IsAllowed : MigrationType → MigrationState → List Stage → MigrationState → Type 0
IsAllowed type s [] u = s ≡ u
IsAllowed type s (once e ∷ ss) u =
    (t : MigrationState) × Step type s t × (e.state ≡ state_value t) × IsAllowed type t ss u
IsAllowed type s (many P ∷ ss) u =
    Step type s s × ((e : MigrationEvent) → P e → e.state ≡ state_value s) × IsAllowed type s ss u

Begins-Walk :
    {type : MigrationType} (s u : MigrationState) {ss : List Stage} {es : List MigrationEvent}
    → Begins ss es
    → IsAllowed type s ss u
    → (t : MigrationState) × Walk type s es t
Begins-Walk s u Begins.stopped a = (s, here)
Begins-Walk s u (Begins.one b) a =
    let (t, step, same, rest) = a in
    let (v, walk) = Begins-Walk t u b rest in (v, next step same walk)
Begins-Walk s u (Begins.leave b) a = Begins-Walk s u b a.2
Begins-Walk s u (Begins.again p b) a =
    let (v, walk) = Begins-Walk s u b a in (v, next a.0 (a.1 _ p) walk)

Covers-Walk :
    {type : MigrationType} (s u : MigrationState) {ss : List Stage} {es : List MigrationEvent}
    → Covers ss es
    → IsAllowed type s ss u
    → Walk type s es u
Covers-Walk {type = type} s u Covers.finished a = subst (Walk type s []) a here
Covers-Walk s u (Covers.one c) a =
    let (t, step, same, rest) = a in next step same (Covers-Walk t u c rest)
Covers-Walk s u (Covers.leave c) a = Covers-Walk s u c a.2
Covers-Walk s u (Covers.again p c) a = next a.0 (a.1 _ p) (Covers-Walk s u c a)

-- The last part of both engines, after the cutover.
abbrev last_part : MigrationEvent → MigrationEvent → MigrationEvent → List Stage
last_part b c d = once b ∷ once c ∷ once d ∷ []

last_part-IsAllowed :
    {type : MigrationType} (b c d : MigrationEvent)
    → b.state ≡ "bgp"
    → c.state ≡ "cleanup"
    → d.state ≡ "done"
    → IsAllowed type cutover (last_part b c d) done
last_part-IsAllowed b c d hb hc hd =
    (bgp, announce, hb, (cleanup, clean, hc, (done, finish, hd, refl)))

cold_stages-IsAllowed : (id : String) → IsAllowed cold pending (map once (milestones id)) done
cold_stages-IsAllowed id =
    let rest =
      last_part-IsAllowed (event_of id bgp (whole 85)) (event_of id cleanup (whole 95))
        (event_of id done (whole 100)) refl refl refl in
    (
      preflight,
      check,
      refl,
      (disk, copy, refl, (disk, copied, refl, (cutover, register_cold, refl, rest))),
    )

live_stages-IsAllowed : (env : Env) (id : String) → IsAllowed live pending (live_stages env id) done
live_stages-IsAllowed env id =
    let rest =
      last_part-IsAllowed (event_of id bgp (whole 90)) (event_of id cleanup (whole 96))
        (event_of id done (whole 100)) refl refl refl in
    (
      preflight,
      check,
      refl,
      (
        disk,
        copy,
        refl,
        (
          memory,
          stream,
          refl,
          (streamed, λ e p. ap (λ x. x.state) p.2, (cutover, switch_live, refl, rest)),
        ),
      ),
    )

-- Both engines implement the state machine: what a run of a cold and what a run of a live migration
-- adds to the events is a walk of it from PENDING by the steps of that type, and if the run returns
-- true a walk to DONE. So a cold migration never enters MEMORY, and a live one is in it before CUTOVER.
pub engines-follow_protocol :
    (env : Env) (e : Engine)
    → ((ys : List MigrationEvent) × ((Cold.run env e).1.world.db.events ≡ e.world.db.events ++ ys)
        × ((t : MigrationState) × Walk cold pending ys t)
        × ((Cold.run env e).0 ≡ ok true → Walk cold pending ys done))
      × ((ys : List MigrationEvent) × ((Live.run env e).1.world.db.events ≡ e.world.db.events ++ ys)
          × ((t : MigrationState) × Walk live pending ys t)
          × ((Live.run env e).0 ≡ ok true → Walk live pending ys done))
engines-follow_protocol env e =
    let id = e.ctx.migration_id in
    let (ys, eq, pre, all) = run-cold_events env e in
    let (zs, eq', begins, covers) = run-live_events env e in
    let allowed = cold_stages-IsAllowed id in
    let allowed_live = live_stages-IsAllowed env id in
    (
      (
        ys,
        eq,
        Begins-Walk pending done (Prefix-Begins pre) allowed,
        λ h.
            subst (λ xs. Walk cold pending xs done) (sym (all h))
              (Covers-Walk pending done (Covers-once (milestones id)) allowed),
      ),
      (
        zs,
        eq',
        Begins-Walk pending done begins allowed_live,
        λ h. Covers-Walk pending done (covers h) allowed_live,
      ),
    )
