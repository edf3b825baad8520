-- ===== src/Grpc/Reports.antt =====
-- cnf/grpc/server.py: the handlers of images and prefixes report how their command ended.
use open_stack_cnf.Prelude.{String, Bool, true, false, some, ◌≡◌, ap, ◌∙◌, inl, inr}
use open_stack_cnf.Effect.Exceptions.{Exception, Result, ok, err, text}
use open_stack_cnf.Effect.Env.{Env}
use open_stack_cnf.Effect.Action.{Action, pure, attempt, ◌>>=◌}
use open_stack_cnf.Effect.Laws.{Result-cases, attempt-of-ok, attempt-of-err, >>=-of-ok, >>=-of-err}
use open_stack_cnf.Effect.Session.{World}
use open_stack_cnf.Ceph
use open_stack_cnf.Bgp
use open_stack_cnf.Grpc.Control.{
  RbdResponse, promote_rbd_image, demote_rbd_image, announce_ip, withdraw_ip,
}

-- The report of a result: `done` if there is a value, and what the exception gives if not.
abbrev pub report : {A B : Type 0} → A → (Exception → A) → Result B → A
report done failed (ok _) = done
report done failed (err e) = failed e

abbrev pub failure : Exception → RbdResponse
failure e = record { success = false; message = text e }

-- A `try` that reports: it returns, and leaves the state that its command left.
attempt_reports :
    {S A B : Type 0} (m : Action S B) (done : A) (failed : Exception → A) (s : S)
    → attempt (m >>= λ _. pure done) (λ e. pure (failed e)) s
      ≡ (ok (report done failed (m s).0), (m s).1)
attempt_reports m done failed s =
    let body = m >>= λ _. pure done in
    let handler = λ (e : Exception). pure (failed e) in
    elim (Result-cases (m s).0) [
      | inl (b, p) ↦
          let q = >>=-of-ok m (λ _. pure done) s p in
          rw p (attempt-of-ok body handler s (ap (λ r. r.0) q) ∙ ap (λ r. (ok done, r.1)) q)
      | inr (e, p) ↦
          let q = >>=-of-err m (λ _. pure done) s p in
          rw p (attempt-of-err body handler s (ap (λ r. r.0) q) ∙ ap (λ r. (ok (failed e), r.1)) q)
    ]

-- The handlers that promote and demote an image, and announce and withdraw a prefix, never raise:
-- each runs the command of the node's own client, leaves what the command left, and answers with
-- success exactly if the command returned; the two for images answer with the text of what was
-- raised, if it did not.
pub handlers-report :
    (env : Env) (pool image prefix next_hop : String) (force : Bool) (w : World)
    → (promote_rbd_image env pool image force w ≡ (
      ok (
          report
            (record { success = true; message = "promoted" })
            failure
            (Ceph.promote env pool image force w).0),
      (Ceph.promote env pool image force w).1,
    ))
      × (demote_rbd_image env pool image w ≡ (
        ok (
            report
              (record { success = true; message = "demoted" })
              failure
              (Ceph.demote env pool image w).0),
        (Ceph.demote env pool image w).1,
      ))
      × (announce_ip env prefix next_hop w ≡ (
        ok (
            report true
              (λ e. false)
              (Bgp.announce env (record { prefix = prefix; next_hop = some next_hop }) w).0),
        (Bgp.announce env (record { prefix = prefix; next_hop = some next_hop }) w).1,
      ))
      × (withdraw_ip env prefix w ≡ (
        ok (report true (λ e. false) (Bgp.withdraw env prefix w).0),
        (Bgp.withdraw env prefix w).1,
      ))
unfolding promote_rbd_image demote_rbd_image announce_ip withdraw_ip
handlers-report env pool image prefix next_hop force w = (
  attempt_reports (Ceph.promote env pool image force) _ failure w,
  attempt_reports (Ceph.demote env pool image) _ failure w,
  attempt_reports (Bgp.announce env (record { prefix = prefix; next_hop = some next_hop })) true
      (λ e. false) w,
  attempt_reports (Bgp.withdraw env prefix) true (λ e. false) w,
)
