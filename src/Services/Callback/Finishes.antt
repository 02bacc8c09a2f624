-- ===== src/Services/Callback/Finishes.antt =====
-- `deliver` where only the agent fails.
use executor_service.Common.{
  ℕ, zero, suc, ◌+◌, ◌≡◌, refl, sym, subst, Bool, true, false, not, String, Option, none, some,
  is_some, ltb,
}
use executor_service.Errors.{Error, http_error, callback_delivery_error}
use executor_service.Action.{ok, raised, Action}
use executor_service.Action.Triple.{
  Triple, Returns, Post, Triple-pure, Triple-raise, Triple-if, Triple-bind, Triple-weaken,
  Triple-except, Triple-attempt, Triple-both, Triple-sure, Returns-weaken,
}
use executor_service.Schemas.State.{ExecutionState, is_terminal}
use executor_service.Schemas.Callback.{ExecutionCallback, from_state, callback_at}
use executor_service.Platform.{Keys}
use executor_service.Repository.{RedisExecutionRepository, record_callback_attempt}
use executor_service.Repository.Store.{At, Holds, Now, At-mono, frame}
use executor_service.Repository.Methods.{
  mark_callback_pending-Triple, record_callback_attempt-Triple,
}
use executor_service.Repository.Reliable.{
  Reliable, mark_callback_pending-Returns, record_callback_attempt-Returns,
  mark_callback_delivered-Returns, mark_callback_failed-Returns,
}
use executor_service.Clients.Agent.{send, wrap, send-keeps}
use executor_service.Services.Callback.{
  CallbackService, is_delivered, event_id_of, lift_outcome, pause, after_send, attempts, report,
  deliver,
}
use executor_service.Services.Callback.Concludes.{Reported, deliver-Triple}

abbrev pub is_http : Error → Bool
is_http (http_error _) = true
is_http _ = false

abbrev is_delivery : Error → Bool
is_delivery (callback_delivery_error _) = true
is_delivery _ = false

-- A pause returns, and a post returns or raises httpx's HTTPError.
pub record Responsive (r : RedisExecutionRepository) (service : CallbackService r) : Type 0 where
  pub sleep_returns : (duration : ℕ) → Returns (λ _. Unit {0}) (service.sleep duration)
  pub post_answers :
      (url : String) (body : ExecutionCallback) (key : String)
      → Triple
          (λ _. Unit {0})
          (service.client.http_post url body key)
          (λ _ _. Unit {0})
          (λ x _. is_http x ≡ true)

-- Terminal, with the time of its completion.
abbrev pub IsFinished : ExecutionState → Type 0
IsFinished s = (is_terminal s ≡ true) × (is_some s.completed_at ≡ true)

from_state-ok :
    (s : ExecutionState) (event_id : String)
    → IsFinished s
    → (body : ExecutionCallback) × (from_state s event_id ≡ ok body)
unfolding from_state callback_at
from_state-ok s event_id h = rw (h.0) (go s.completed_at h.1)
  where
    go :
        (c : Option ℕ)
        → is_some c ≡ true
        → (body : ExecutionCallback) × (callback_at s event_id c ≡ ok body)
    go none e = cc
    go (some t) e = (_, refl)

module _ (r : RedisExecutionRepository) (service : CallbackService r) (reliable : Reliable r)
    (responsive : Responsive r service) (base : Keys r.Payload) where
  open service use {client, max_attempts}

  abbrev Has : String → r.World → Type 0
  Has id = Holds r id base IsFinished

  wrap-delivery :
      (x : Error)
      → Triple {A = Unit {0}}
          (λ (_ : r.World). is_http x ≡ true)
          (wrap r client x)
          (λ _ _. Unit {0})
          (λ y _. is_delivery y ≡ true)
  unfolding wrap
  wrap-delivery (http_error t) = Triple-raise _ (λ w h. refl)
  wrap-delivery x = record { at = λ w h. cc }

  send-delivery :
      (id url : String) (body : ExecutionCallback)
      → Triple
          (Has id)
          (send r client url body)
          (λ _. Has id)
          (λ x w. Has id w × (is_delivery x ≡ true))
  unfolding send
  send-delivery id url body =
      Triple-weaken
        (Triple-both
          (frame r (λ m. (s : ExecutionState) × At r id base IsFinished s m)
            (send-keeps r client url body))
          (Triple-except (responsive.post_answers url body body.event_id) wrap-delivery))
        (λ w h. (h, tt)) (λ v w h. h.0) (λ x w h. h)

  -- A recorded attempt leaves the execution finished.
  recorded :
      (id : String) (error : Option String)
      → Triple (Has id) (record_callback_attempt r id error) (λ _. Has id) (λ _ _. ⊥)
  recorded id error =
      Triple-weaken
        (Triple-sure
          (record_callback_attempt-Triple r id base {Q = IsFinished} {R = IsFinished} (λ s p. p)
            (λ s p. p) error (λ s p. p))
          (record_callback_attempt-Returns r reliable id base IsFinished error))
        (λ w h. h) (λ s w a. (s, a)) (λ x w e. e)

  paused : (id : String) (n : ℕ) → Triple (Has id) (pause r service n) (λ _. Has id) (λ _ _. ⊥)
  unfolding pause
  paused id n =
      Triple-if (ltb n max_attempts) _ _
        (λ e.
          Triple-sure
            (frame r (λ m. (s : ExecutionState) × At r id base IsFinished s m)
              (service.sleep_law _))
            (Returns-weaken (λ w h. tt) (responsive.sleep_returns _)))
        (λ e. Triple-pure tt (λ w h. h))

  after_send-ok :
      (id : String) (n : ℕ) (next : String → Action r.World ExecutionState)
      → Returns (Has id) (after_send r service id n next (ok tt))
  unfolding after_send
  after_send-ok id n next =
      Triple-bind (recorded id none)
        (λ _. mark_callback_delivered-Returns r reliable id base IsFinished)

  after_send-refused :
      (id : String) (n : ℕ) (next : String → Action r.World ExecutionState)
      → ((text : String) → Returns (Has id) (next text))
      → (x : Error)
      → Triple
          (λ w. Has id w × (is_delivery x ≡ true))
          (after_send r service id n next (raised x))
          (λ _ _. Unit {0})
          (λ _ _. ⊥)
  unfolding after_send
  after_send-refused id n next h (callback_delivery_error text) =
      Triple-weaken
        (Triple-bind (recorded id (some text)) (λ _. Triple-bind (paused id n) (λ _. h text)))
        (λ w p. p.0) (λ s w q. q) (λ x w q. q)
  after_send-refused id n next h x = record { at = λ w p. cc (p.1) }

  attempts-Returns :
      (state : ExecutionState) (body : ExecutionCallback) (left n : ℕ) (text : String)
      → Returns (Has state.execution_id) (attempts r service state body left n text)
  unfolding attempts
  attempts-Returns state body zero n text =
      mark_callback_failed-Returns r reliable state.execution_id base IsFinished text
  attempts-Returns state body (suc left) n text =
      Triple-attempt
        (after_send r service state.execution_id n (attempts r service state body left (n + 1)))
        (send-delivery state.execution_id state.callback_url body)
        (λ _. after_send-ok state.execution_id n (attempts r service state body left (n + 1)))
        (λ x.
          after_send-refused state.execution_id n _ (attempts-Returns state body left (n + 1)) x)

  -- The pending state has the id that it was stored under.
  attempts-Returns_at :
      (id : String) (pending : ExecutionState) (body : ExecutionCallback) (text : String)
      → Returns
          (Now r id base IsFinished pending)
          (attempts r service pending body max_attempts 1 text)
  attempts-Returns_at id pending body text = record {
    at = λ w a.
        (attempts-Returns pending body max_attempts 1 text).at w
          (pending, subst (λ i. At r i base IsFinished pending (r.stored w)) (sym a.own) a);
  }

  lifted :
      (id : String) (pending : ExecutionState) (event_id : String)
      → Triple
          (Now r id base IsFinished pending)
          (lift_outcome r service (from_state pending event_id))
          (λ _. Now r id base IsFinished pending)
          (λ _ _. ⊥)
  unfolding lift_outcome
  lifted id pending event_id = record {
    at = λ w a. let (body, e) = from_state-ok pending event_id a.holds in rw e a;
  }

  report-Returns :
      (start : ExecutionState) (event_id : String)
      → Returns (Has start.execution_id) (report r service start event_id)
  unfolding report
  report-Returns start event_id =
      Triple-bind
        (Triple-sure
          (mark_callback_pending-Triple r start.execution_id base {Q = IsFinished} {R = IsFinished}
            (λ s p. p) (λ s p. p) event_id (λ s p. p))
          (mark_callback_pending-Returns r reliable start.execution_id base IsFinished event_id))
        (λ pending.
          Triple-bind (lifted start.execution_id pending event_id)
            (λ body. attempts-Returns_at start.execution_id pending body _))

  deliver-Returns :
      (start : ExecutionState)
      → IsFinished start
      → Returns (Now r start.execution_id base (λ s. s ≡ start) start) (deliver r service start)
  unfolding deliver
  deliver-Returns start h =
      Triple-if (is_delivered start.callback_status) _ _ (λ e. Triple-pure start (λ w a. tt))
        (λ e.
          Triple-if (not (is_terminal start)) _ _ (λ n. absurd (no_way h.0 n))
            (λ n.
              Returns-weaken (λ w a. (start, At-mono r (λ p. h) a))
                (report-Returns start (event_id_of r service start))))
    where
      no_way : {b : Bool} → b ≡ true → not b ≡ true → ⊥
      no_way e n = cc

  pub deliver-sure :
      (start : ExecutionState)
      → IsFinished start
      → Triple
          (Now r start.execution_id base (λ s. s ≡ start) start)
          (deliver r service start)
          (Now r start.execution_id base (Reported r service start base))
          (λ _ _. ⊥)
  deliver-sure start h = Triple-sure (deliver-Triple r service start base) (deliver-Returns start h)

  -- If the GET and SET of Redis return, if pauses return, if a post raises nothing but an HTTPError,
  -- and if Redis holds the state that is handed in, which is terminal and has the time of its
  -- completion, then `deliver` returns a state that Redis then holds, and that was delivered before,
  -- or was delivered now within the attempts allowed, or is given up after all of them.
  pub deliver-finishes :
      (start : ExecutionState) (w : r.World)
      → IsFinished start
      → Now r start.execution_id base (λ s. s ≡ start) start w
      → Post
          (Now r start.execution_id base (Reported r service start base))
          (λ _ _. ⊥)
          (deliver r service start w)
  deliver-finishes start w h a = (deliver-sure start h).at w a
