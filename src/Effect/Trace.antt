-- ===== src/Effect/Trace.antt =====
-- What an action may do to the state: a reflexive and transitive relation holds from before to
-- after, whether it returns or raises. One rule for each way to build an action, for `search`.
use open_stack_cnf.Prelude.{
  ◌≡◌, refl, ◌∙◌, Bool, true, false, List, [], ◌∷◌, Option, none, some, if◌then◌else◌, arith,
}
use open_stack_cnf.Db.Models.{Database}
use open_stack_cnf.Effect.Exceptions.{Exception, Result, ok, err}
use open_stack_cnf.Effect.Call.{Call, History, db_session}
use open_stack_cnf.Effect.Env.{Env}
use open_stack_cnf.Effect.Action.{
  Action, pure, raise, lift, gets, with_state, attempt, continue, finally, for_each, ◌>>=◌,
}
use open_stack_cnf.Effect.Session.{World, ask, tell, with_session, faulty, settle}

pub record Preorder (S : Type 0) : Type 1 where
  pub rel : S → S → Type 0
  pub same : (s : S) → rel s s
  pub join : (a b c : S) → rel a b → rel b c → rel a c

pub record Keeps {S A : Type 0} (P : Preorder S) (m : Action S A) : Type 0 where
  pub at : (s : S) → P.rel s (m s).1

module _ {S A : Type 0} {P : Preorder S} where
  pub Keeps-pure : (a : A) → Keeps P (pure {S = S} a)
  Keeps-pure a = record { at = P.same }

  pub Keeps-raise : (e : Exception) → Keeps {A = A} P (raise {S = S} e)
  Keeps-raise e = record { at = P.same }

  pub Keeps-lift : (r : Result A) → Keeps P (lift {S = S} r)
  Keeps-lift r = record { at = P.same }

  pub Keeps-gets : (f : S → A) → Keeps P (gets f)
  Keeps-gets f = record { at = P.same }

  pub Keeps-with_state : (k : S → Action S A) → ((s : S) → Keeps P (k s)) → Keeps P (with_state k)
  unfolding with_state
  Keeps-with_state k h = record { at = λ s. (h s).at s }

  pub Keeps-if :
      (b : Bool) (m n : Action S A) → Keeps P m → Keeps P n → Keeps P (if b then m else n)
  Keeps-if true m n km kn = km
  Keeps-if false m n km kn = kn

  pub attempt_result :
      (h : Exception → Action S A)
      → ((e : Exception) → Keeps P (h e))
      → (s : S) (p : Result A × S) → P.rel s p.1
      → P.rel s (attempt (λ _. p) h s).1
  unfolding attempt
  attempt_result h kh s (ok a, s') r = r
  attempt_result h kh s (err e, s') r = P.join s s' (h e s').1 r ((kh e).at s')

  pub Keeps-attempt :
      (m : Action S A) (h : Exception → Action S A)
      → Keeps P m
      → ((e : Exception) → Keeps P (h e))
      → Keeps P (attempt m h)
  unfolding attempt
  Keeps-attempt m h km kh = record { at = λ s. attempt_result h kh s (m s) (km.at s) }

  pub Keeps-finally :
      (m : Action S A) (f : Action S (Unit {0})) → Keeps P m → Keeps P f → Keeps P (finally m f)
  unfolding finally
  Keeps-finally m f km kf = record {
    at = λ s. P.join s (m s).1 (f (m s).1).1 (km.at s) (kf.at (m s).1);
  }

module _ {S A B : Type 0} {P : Preorder S} where
  pub Keeps-continue :
      (r : Result A) (f : A → Action S B) → ((a : A) → Keeps P (f a)) → Keeps P (continue r f)
  Keeps-continue (ok a) f kf = kf a
  Keeps-continue (err e) f kf = record { at = P.same }

  pub Keeps-bind :
      (m : Action S A) (f : A → Action S B)
      → Keeps P m
      → ((a : A) → Keeps P (f a))
      → Keeps P (m >>= f)
  unfolding ◌>>=◌
  Keeps-bind m f km kf = record {
    at = λ s.
        P.join s (m s).1 (continue (m s).0 f (m s).1).1 (km.at s)
          ((Keeps-continue (m s).0 f kf).at (m s).1);
  }

module _ {S A B : Type 0} (P : Preorder S) where
  continue_rel :
      (r : Result A) (f : A → Action S B) (a s : S)
      → P.rel a s
      → ((x : A) → r ≡ ok x → P.rel s (f x s).1)
      → P.rel a (continue r f s).1
  continue_rel (ok x) f a s p q = P.join a s (f x s).1 p (q x refl)
  continue_rel (err e) f a s p q = p

  -- The second part of a sequence, from the state and the value of the first.
  pub bind_rel :
      (m : Action S A) (f : A → Action S B) (s : S)
      → P.rel s (m s).1
      → ((x : A) → (m s).0 ≡ ok x → P.rel (m s).1 (f x (m s).1).1)
      → P.rel s ((m >>= f) s).1
  unfolding ◌>>=◌
  bind_rel m f s p q = continue_rel (m s).0 f s (m s).1 p q

module _ {S A : Type 0} {P : Preorder S} where
  pub Keeps-for_each :
      (xs : List A) (f : A → Action S (Unit {0}))
      → ((x : A) → Keeps P (f x))
      → Keeps P (for_each xs f)
  unfolding for_each
  Keeps-for_each [] f kf = record { at = P.same }
  Keeps-for_each (x ∷ xs) f kf = record {
    at = λ s. P.join s (f x s).1 (for_each (x ∷ xs) f s).1 ((kf x).at s) (
        (Keeps-continue (f x s).0 (λ _. for_each xs f) (λ _. Keeps-for_each xs f kf)).at (f x s).1);
  }

pub ruleset keeps_rules = (
  Keeps-pure, Keeps-raise, Keeps-lift, Keeps-gets, Keeps-with_state, Keeps-if, Keeps-attempt,
  Keeps-finally, Keeps-bind, Keeps-for_each,
)

-- `h` is `old` with calls that satisfy `Q` in front.
pub data Since (Q : Call → Type 0) (old : History) : History → Type 0 where
  same : Since Q old old
  more : {c : Call} {h : History} → Q c → Since Q old h → Since Q old (c ∷ h)

pub Since-trans : {Q : Call → Type 0} {a b c : History} → Since Q a b → Since Q b c → Since Q a c
Since-trans p same = p
Since-trans p (more q r) = more q (Since-trans p r)

pub Since-map :
    {Q R : Call → Type 0} {a b : History} → ((c : Call) → Q c → R c) → Since Q a b → Since R a b
Since-map f same = same
Since-map f (more q s) = more (f _ q) (Since-map f s)

-- A call of any kind.
abbrev pub IsAny : Call → Type 0
IsAny c = Unit {0}

-- Every call that an action adds to the history satisfies `Q`, and the database stays as it was.
abbrev pub calls : (Call → Type 0) → Preorder World
calls Q = record {
  rel = λ w w'. Since Q w.history w'.history × (w'.db ≡ w.db);
  same = λ w. (same, refl);
  join = λ a b c p q. (Since-trans p.0 q.0, q.1 ∙ p.1);
}

module _ {Q : Call → Type 0} where
  pub Keeps-ask :
      {A : Type 0} (c : Call) (reply : History → Result A) → Q c → Keeps (calls Q) (ask c reply)
  Keeps-ask c reply q = record { at = λ w. (more q same, refl) }

  pub Keeps-tell : (c : Call) → Q c → Keeps (calls Q) (tell c)
  Keeps-tell c q = record { at = λ w. (more q same, refl) }

pub ruleset calls_rules = (keeps_rules, Keeps-ask, Keeps-tell)

module _ {A : Type 0} (o : Option Exception) (w : World) where
  faulty-history : (r : Result A × Database) → (faulty o w (settle w r)).1.history ≡ w.history
  faulty-history r = ground arith

  faulty-db :
      (P : Database → Type 0) (r : Result A × Database)
      → P w.db
      → P r.1
      → P (faulty o w (settle w r)).1.db
  faulty-db P (ok a, d) p q = elim o as (λ x. P (faulty x w (settle w (ok a, d))).1.db) [
    | none ↦ q
    | some e ↦ p
  ]
  faulty-db P (err e, d) p q = elim o as (λ x. P (faulty x w (settle w (err e, d))).1.db) [
    | none ↦ p
    | some e ↦ p
  ]

module _ {A : Type 0} (env : Env) (body : Action Database A) (w : World) where
  -- A session is one more call.
  pub with_session-history : (with_session env body w).1.history ≡ db_session ∷ w.history
  unfolding with_session
  with_session-history =
      faulty-history (env.db_fault w.history) (record w { history = db_session ∷ w.history })
        (body w.db)

  -- What holds of the tables before, and of those that the body makes, holds after a session.
  pub with_session-db :
      (P : Database → Type 0) → P w.db → P (body w.db).1 → P (with_session env body w).1.db
  unfolding with_session
  with_session-db P =
      faulty-db (env.db_fault w.history) (record w { history = db_session ∷ w.history }) P
        (body w.db)
