-- ===== src/Cdc/Restart/Posts.antt =====
-- The restarts among the calls.
use dockerize_and_ansible.Base.{
  ℕ, String, ◌≡◌, refl, ap, List, [], ◌∷◌, ◌++◌, append-nil, contains, nat_eq,
}
use dockerize_and_ansible.Base.Effect.{Outcome, return, M, ◌>>=◌}
use dockerize_and_ansible.Base.Effect.Emits.{Emits, Emits-step}
use dockerize_and_ansible.Cdc.State
use dockerize_and_ansible.Cdc.State.{Response, Env, State, Event, History, ask}
use dockerize_and_ansible.Cdc.Restart.{restart_kafka_connect_tasks}

-- The restarts that were posted, in order.
abbrev pub posts : History → List (String × ℕ)
posts [] = []
posts (State.post_restart name id ∷ h) = (name, id) ∷ posts h
posts (_ ∷ h) = posts h

pub posts-append : (g h : History) → posts (g ++ h) ≡ posts g ++ posts h
posts-append [] h = refl
posts-append (State.post_restart name id ∷ g) h = ap (◌∷◌ (name, id)) (posts-append g h)
posts-append (_ ∷ g) h = posts-append g h

-- Kafka Connect answers every restart, with whatever status.
abbrev pub AnswersRestarts : Env → Type 0
AnswersRestarts env =
    (name : String) (id : ℕ) (h : History)
    → (r : Response (Unit {0})) × (env.post_restart name id h ≡ return r)

-- A statement that returns and posts just these restarts.
abbrev pub Posts : {A : Type 0} → M State A → State → List (String × ℕ) → Type 0
Posts m s xs = Emits (λ t. posts t.trace) m s xs

pub posts-silent : (h : History) (e : Event) → posts (e ∷ []) ≡ [] → posts (h ++ e ∷ []) ≡ posts h
posts-silent h e silent = rw (posts-append, silent, append-nil)

-- A call that is answered and is no restart.
pub Posts-ask :
    {A B : Type 0} (e : Event) (answer : History → Outcome A) (f : A → M State B) (s : State)
    (a : A) (ys : List (String × ℕ))
    → answer s.trace ≡ return a
    → posts (e ∷ []) ≡ []
    → Posts (f a) (record s { trace = s.trace ++ e ∷ [] }) ys
    → Posts (ask e answer >>= f) s ys
unfolding ask
Posts-ask e answer f s a ys answered silent =
    Emits-step (ask e answer) f ys (λ i. (answered i, record s { trace = s.trace ++ e ∷ [] }))
      (posts-silent s.trace e silent)

pub Posts-restart :
    (env : Env) (name : String) (id : ℕ) (s : State)
    → AnswersRestarts env
    → Posts (restart_kafka_connect_tasks env name id) s ((name, id) ∷ [])
unfolding restart_kafka_connect_tasks ask ◌>>=◌
Posts-restart env name id s answers =
    let (r, e) = answers name id s.trace in
    record {
      final = record s { trace = s.trace ++ State.post_restart name id ∷ [] };
      result = contains (200 ∷ 204 ∷ []) r.status_code;
      ran = rw e;
      sent = posts-append s.trace (State.post_restart name id ∷ []);
    }
