-- ===== src/Scheduler/Mastery.antt =====
-- cnf/scheduler/scheduler.py: what the flags of the scheduler guard.
use open_stack_cnf.Prelude.{Bool, true, false, List, [], ◌∷◌, ◌≡◌, refl, All, ◌∙◌}
use open_stack_cnf.Effect.Env.{Env}
use open_stack_cnf.Effect.Session.{World}
use open_stack_cnf.Scheduler.{scheduler_round}
use open_stack_cnf.Scheduler.Running.{
  SchedulerTask, SchedulerEvent, set_master, stop, wake, loop_test, on_event, on_events,
}

-- No call makes the node the master.
abbrev pub IsDemotion : SchedulerEvent → Type 0
IsDemotion (set_master b) = b ≡ false
IsDemotion stop = Unit
IsDemotion wake = Unit

module _ (env : Env) where
  round-db :
      (r s : Bool) (w : World)
      → ((loop_test env (record { is_master = false; running = r; sleeping = s }) w).1.db ≡ w.db)
        × ((loop_test env (record { is_master = false; running = r; sleeping = s }) w).0.is_master
            ≡ false)
  unfolding loop_test
  round-db true s w = (refl, refl)
  round-db false s w = (refl, refl)

  wake-db :
      (m r s : Bool) (w : World)
      → m ≡ false
      → ((on_event env wake (record { is_master = m; running = r; sleeping = s }) w).1.db ≡ w.db)
        × ((on_event env wake (record { is_master = m; running = r; sleeping = s }) w).0.is_master
            ≡ false)
  unfolding on_event scheduler_round
  wake-db true r s w h = cc
  wake-db false r true w h = round-db r true w
  wake-db false r false w h = (refl, refl)

  on_event-db :
      (e : SchedulerEvent)
      → IsDemotion e
      → (t : SchedulerTask) (w : World) → t.is_master ≡ false
      → ((on_event env e t w).1.db ≡ w.db) × ((on_event env e t w).0.is_master ≡ false)
  unfolding on_event
  on_event-db (set_master b) d t w h = (refl, d)
  on_event-db stop d t w h = (refl, h)
  on_event-db wake d t w h = wake-db t.is_master t.running t.sleeping w h

  -- A scheduler that is not the master, and that no call makes the master, changes no table,
  -- whatever the order in which it wakes, is demoted and is stopped; and it is still not the master.
  pub on_events-demoted :
      (es : List SchedulerEvent)
      → All IsDemotion es
      → (t : SchedulerTask) (w : World) → t.is_master ≡ false
      → ((on_events env es t w).1.db ≡ w.db) × ((on_events env es t w).0.is_master ≡ false)
  unfolding on_events
  on_events-demoted [] d t w h = (refl, h)
  on_events-demoted (e ∷ es) d t w h =
      let (p, q) = on_event-db e d.0 t w h in
      let (p', q') = on_events-demoted es d.1 (on_event env e t w).0 (on_event env e t w).1 q in
      (p' ∙ p, q')

  ended :
      (es : List SchedulerEvent) (m r : Bool) (w : World)
      → ((on_events env es (record { is_master = m; running = r; sleeping = false }) w).1 ≡ w)
        × ((on_events env es (record { is_master = m; running = r; sleeping = false }) w).0.sleeping
            ≡ false)
  unfolding on_events on_event
  ended [] m r w = (refl, refl)
  ended (set_master b ∷ es) m r w = ended es b r w
  ended (stop ∷ es) m r w = ended es m false w
  ended (wake ∷ es) m r w = ended es m r w

  stopped_asleep :
      (es : List SchedulerEvent) (m r s : Bool) (w : World)
      → s ≡ true
      → ((on_events env
            (stop ∷ wake ∷ es)
            (record { is_master = m; running = r; sleeping = s })
            w).1
          ≡ (scheduler_round env m w).1)
        × ((on_events env
              (stop ∷ wake ∷ es)
              (record { is_master = m; running = r; sleeping = s })
              w).0.sleeping
            ≡ false)
  unfolding on_events on_event loop_test
  stopped_asleep es m r true w h = ended es m false (scheduler_round env m w).1
  stopped_asleep es m r false w h = cc

  -- A scheduler that is stopped while it sleeps runs one more round, which evaluates only if it is
  -- still the master; after that no event makes a call, changes a table or starts a sleep.
  pub on_events-stop :
      (es : List SchedulerEvent) (t : SchedulerTask) (w : World)
      → t.sleeping ≡ true
      → ((on_events env (stop ∷ wake ∷ es) t w).1 ≡ (scheduler_round env t.is_master w).1)
        × ((on_events env (stop ∷ wake ∷ es) t w).0.sleeping ≡ false)
  on_events-stop es t w h = stopped_asleep es t.is_master t.running t.sleeping w h
