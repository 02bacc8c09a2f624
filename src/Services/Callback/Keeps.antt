-- ===== src/Services/Callback/Keeps.antt =====
-- `deliver` and what neither Redis, nor the agent, nor a pause has a part in.
use executor_service.Common.{ℕ, zero, suc, ◌+◌, not, String, ltb}
use executor_service.Errors.{callback_delivery_error}
use executor_service.Action.{Outcome, ok, raised, Action}
use executor_service.Action.Triple.{
  Keeps, Triple-pure, Triple-raise, Triple-if, Triple-bind, Triple-attempt, Triple-except,
}
use executor_service.Schemas.Callback.{ExecutionCallback, from_state}
use executor_service.Schemas.State.{ExecutionState, is_terminal}
use executor_service.Clients.Agent.{send, wrap-raises}
use executor_service.Repository.{RedisExecutionRepository}
use executor_service.Repository.Aside.{
  Aside, mark_callback_pending-Keeps, record_callback_attempt-Keeps, mark_callback_delivered-Keeps,
  mark_callback_failed-Keeps,
}
use executor_service.Services.Callback.{
  CallbackService, is_delivered, event_id_of, lift_outcome, pause, after_send, attempts, report,
  deliver,
}

module _ (r : RedisExecutionRepository) (service : CallbackService r) {F : r.World → Type 0}
    (aside : Aside r F)
    (post_aside : (url : String) (body : ExecutionCallback) (key : String)
      → Keeps F (service.client.http_post url body key))
    (sleep_aside : (duration : ℕ) → Keeps F (service.sleep duration)) where
  open service use {client, max_attempts}

  send-Keeps : (url : String) (body : ExecutionCallback) → Keeps F (send r client url body)
  unfolding send
  send-Keeps url body =
      Triple-except (post_aside url body body.event_id) (λ x. wrap-raises r client x)

  lift_outcome-Keeps : {A : Type 0} (o : Outcome A) → Keeps F (lift_outcome r service o)
  unfolding lift_outcome
  lift_outcome-Keeps (ok a) = Triple-pure a (λ w p. p)
  lift_outcome-Keeps (raised x) = Triple-raise x (λ w p. p)

  pause-Keeps : (n : ℕ) → Keeps F (pause r service n)
  unfolding pause
  pause-Keeps n =
      Triple-if (ltb n max_attempts) _ _ (λ _. sleep_aside _) (λ _. Triple-pure tt (λ w p. p))

  after_send-Keeps :
      (id : String) (n : ℕ) (next : String → Action r.World ExecutionState)
      → ((text : String) → Keeps F (next text))
      → (o : Outcome (Unit {0})) → Keeps F (after_send r service id n next o)
  unfolding after_send
  after_send-Keeps id n next h (raised (callback_delivery_error text)) =
      Triple-bind (record_callback_attempt-Keeps r aside id _)
        (λ _. Triple-bind (pause-Keeps n) (λ _. h text))
  after_send-Keeps id n next h (raised _) = Triple-raise _ (λ w p. p)
  after_send-Keeps id n next h (ok _) =
      Triple-bind (record_callback_attempt-Keeps r aside id _)
        (λ _. mark_callback_delivered-Keeps r aside id)

  attempts-Keeps :
      (state : ExecutionState) (body : ExecutionCallback) (left n : ℕ) (text : String)
      → Keeps F (attempts r service state body left n text)
  unfolding attempts
  attempts-Keeps state body zero n text = mark_callback_failed-Keeps r aside state.execution_id text
  attempts-Keeps state body (suc left) n text =
      let rest = after_send-Keeps state.execution_id n _ (attempts-Keeps state body left (n + 1)) in
      Triple-attempt
        (after_send r service state.execution_id n (attempts r service state body left (n + 1)))
        (send-Keeps state.callback_url body) (λ a. rest (ok a)) (λ x. rest (raised x))

  report-Keeps :
      (state : ExecutionState) (event_id : String) → Keeps F (report r service state event_id)
  unfolding report
  report-Keeps state event_id =
      Triple-bind (mark_callback_pending-Keeps r aside state.execution_id event_id) (λ pending.
        Triple-bind (lift_outcome-Keeps (from_state pending event_id))
          (λ body. attempts-Keeps pending body max_attempts 1 _))

  pub deliver-Keeps : (state : ExecutionState) → Keeps F (deliver r service state)
  unfolding deliver
  deliver-Keeps state =
      Triple-if (is_delivered state.callback_status) _ _ (λ _. Triple-pure state (λ w p. p))
        (λ _.
          Triple-if (not (is_terminal state)) _ _ (λ _. Triple-raise _ (λ w p. p))
            (λ _. report-Keeps state (event_id_of r service state)))
