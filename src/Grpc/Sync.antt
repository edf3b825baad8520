-- ===== src/Grpc/Sync.antt =====
-- cnf/grpc/server.py: what `SyncState` answers.
use open_stack_cnf.Prelude.{
  false, true, none, ◌≡◌, refl, ◌↔◌, In, In-keep, In-map, keep, any, not, map, arith, [], ◌∷◌,
}
use open_stack_cnf.Prelude.Dict.{rows}
use open_stack_cnf.Db.Models.{
  Migration, MigrationState, pending, preflight, disk, memory, cutover, bgp, cleanup, done, failed,
  aborted,
}
use open_stack_cnf.Effect.Exceptions.{ok}
use open_stack_cnf.Effect.Env.{Env}
use open_stack_cnf.Effect.Action.{gets}
use open_stack_cnf.Effect.Session.{World}
use open_stack_cnf.Effect.Sessions.{session_value}
use open_stack_cnf.Api.Migrations.{is_terminal, is_state}
use open_stack_cnf.Grpc.Peer.{
  SyncStateResponse, MigrationStatus, info_of, status_of, is_active, sync_of, sync_state,
}

not_in-is_terminal :
    (s : MigrationState)
    → not (any (is_state s) (done ∷ failed ∷ aborted ∷ [])) ≡ not (is_terminal s)
unfolding any
not_in-is_terminal pending = refl
not_in-is_terminal preflight = refl
not_in-is_terminal disk = refl
not_in-is_terminal memory = refl
not_in-is_terminal cutover = refl
not_in-is_terminal bgp = refl
not_in-is_terminal cleanup = refl
not_in-is_terminal done = refl
not_in-is_terminal failed = refl
not_in-is_terminal aborted = refl

is_active-true : (m : Migration) → (is_active m ≡ true) ↔ (is_terminal m.state ≡ false)
unfolding is_active
is_active-true m =
    let e = not_in-is_terminal m.state in (λ h. ground (arith, e, h), λ h. ground (arith, e, h))

-- Where its session has no fault, `SyncState` answers with the active migrations, those that the
-- API would still abort: a status is in the answer exactly if it is that of a row whose state is
-- none of DONE, FAILED and ABORTED. The clusters are all clusters, in their order.
pub sync_state-active :
    (env : Env) (w : World)
    → env.db_fault w.history ≡ none
    → (r : SyncStateResponse) × ((sync_state env w).0 ≡ ok r)
      × (r.clusters ≡ map info_of (rows w.db.clusters))
      × ((s : MigrationStatus)
          → In s r.active_migrations ↔ (
              (m : Migration) × In m (rows w.db.migrations)
              × (is_terminal m.state ≡ false)
              × (s ≡ status_of m)))
unfolding sync_state sync_of
sync_state-active env w sound = (
  sync_of w.db,
  session_value env (gets sync_of) w sound refl,
  refl,
  λ s.
      let (to, back) = In-map status_of s (keep is_active (rows w.db.migrations)) in
      (
        λ i.
            let (m, j, e) = to i in
            let (k, t) = (In-keep is_active m (rows w.db.migrations)).0 j in
            (m, k, (is_active-true m).0 t, e),
        λ h.
            let (m, k, t, e) = h in
            back (m, (In-keep is_active m (rows w.db.migrations)).1 (k, (is_active-true m).1 t), e),
      ),
)
