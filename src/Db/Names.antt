-- ===== src/Db/Names.antt =====
-- cnf/db/models.py: the values of `MigrationState`.
use open_stack_cnf.Prelude.{String, some, List, [], ◌∷◌, ◌≡◌, refl, ◌↔◌, eq_iff, arith}
use open_stack_cnf.Db.Models.{
  MigrationState, state_value, all_states, find_state, state_named, pending, preflight, disk,
  memory, cutover, bgp, cleanup, done, failed, aborted,
}

find_state_sound :
    (s : String) (xs : List MigrationState) (x : MigrationState)
    → find_state s xs ≡ some x
    → state_value x ≡ s
unfolding find_state
find_state_sound s [] x h = cc
find_state_sound s (y ∷ ys) x h = ground (arith, eq_iff (state_value y) s, find_state_sound s ys x)

state_named-value : (x : MigrationState) → state_named (state_value x) ≡ some x
unfolding state_named find_state
state_named-value pending = refl
state_named-value preflight = refl
state_named-value disk = refl
state_named-value memory = refl
state_named-value cutover = refl
state_named-value bgp = refl
state_named-value cleanup = refl
state_named-value done = refl
state_named-value failed = refl
state_named-value aborted = refl

-- A text names a state exactly when it is the value of that state: each state is read back from its
-- value, and every text that is accepted is the value of the state it is read as.
pub state_named-state_value :
    (s : String) (x : MigrationState) → (state_named s ≡ some x) ↔ (state_value x ≡ s)
unfolding state_named
state_named-state_value s x =
    (λ h. find_state_sound s all_states x h, λ h. rw h at (state_named-value x))
