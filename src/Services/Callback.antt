-- ===== src/Services/Callback.antt =====
-- services/callback.py: CallbackService delivers the result of a terminal execution, with retries.
pub mod Trying
pub mod Concludes
pub mod Keeps
pub mod Finishes
pub mod Sleeping
pub mod Pauses
use Prim.Native.String.{◌++◌}
use executor_service.Common.{
  ℕ, zero, suc, ◌+◌, ◌-◌, ◌*◌, ◌^◌, ◌≡◌, Bool, true, false, not, String, Option, none, some, ltb,
  if◌then◌else◌,
}
use executor_service.Errors.{Error, callback_delivery_error, value_error}
use executor_service.Action.{Outcome, ok, raised, Action, pure, raise, attempt, ◌>>=◌, ◌>>◌}
use executor_service.Action.Triple.{Triple}
use executor_service.Schemas.State.{ExecutionStatus, CallbackStatus, ExecutionState, is_terminal}
use executor_service.Schemas.Callback.{ExecutionCallback, text_or, from_state}
use executor_service.Platform.{Keys}
use executor_service.Repository.{
  RedisExecutionRepository, mark_callback_pending, record_callback_attempt, mark_callback_delivered,
  mark_callback_failed,
}
use executor_service.Clients.Agent.{AgentCallbackClient, send}

-- `uuid5 text` is `str(uuid5(NAMESPACE_URL, text))`, and `sleep` is `asyncio.sleep`; the unit of
-- `backoff` is whatever `sleep` takes.
pub record CallbackService (repository : RedisExecutionRepository) : Type 1 where
  pub client : AgentCallbackClient repository
  pub max_attempts : ℕ
  pub backoff : ℕ
  pub uuid5 : String → String
  pub sleep : ℕ → Action repository.World (Unit {0})
  pub sleep_law :
      (duration : ℕ) (m : Keys repository.Payload)
      → Triple
          (λ w. repository.stored w ≡ m)
          (sleep duration)
          (λ _ w. repository.stored w ≡ m)
          (λ _ w. repository.stored w ≡ m)

-- `f"{state.status}"` of a StrEnum is its value.
status_text : ExecutionStatus → String
status_text ExecutionStatus.queued = "QUEUED"
status_text ExecutionStatus.running = "RUNNING"
status_text ExecutionStatus.succeeded = "SUCCEEDED"
status_text ExecutionStatus.failed = "FAILED"

abbrev pub is_delivered : CallbackStatus → Bool
is_delivered CallbackStatus.delivered = true
is_delivered _ = false

module _ (repository : RedisExecutionRepository) (service : CallbackService repository) where
  open service use {client, max_attempts}

  -- The id of the event: the one recorded before, or one made of the execution and its status.
  unfoldable pub event_id_of : ExecutionState → String
  unfolding status_text
  event_id_of state =
      text_or state.callback_event_id
        (service.uuid5 ("executor:" ++ (state.execution_id ++ (":" ++ status_text state.status))))

  lift_outcome : {A : Type 0} → Outcome A → Action repository.World A
  lift_outcome (ok a) = pure a
  lift_outcome (raised x) = raise x

  -- The pause before the next attempt; there is none after the last.
  pause : ℕ → Action repository.World (Unit {0})
  pause attempt_number =
      if ltb attempt_number max_attempts
      then service.sleep (service.backoff * 2 ^ (attempt_number - 1))
      else pure tt

  -- The `except` and `else` clauses around `self.client.send`; `next` is the rest of the loop.
  after_send :
      String
      → ℕ
      → (String → Action repository.World ExecutionState)
      → Outcome (Unit {0})
      → Action repository.World ExecutionState
  unfolding pause
  after_send execution_id attempt_number next (raised (callback_delivery_error text)) = do
    record_callback_attempt repository execution_id (some text)
    pause attempt_number
    next text
  after_send execution_id attempt_number next (raised x) = raise x
  after_send execution_id attempt_number next (ok _) = do
    record_callback_attempt repository execution_id none
    mark_callback_delivered repository execution_id

  -- `for attempt in range(1, self.max_attempts + 1)`: the attempts left, and the next one's number.
  pub attempts :
      ExecutionState → ExecutionCallback → ℕ → ℕ → String → Action repository.World ExecutionState
  unfolding after_send
  attempts state callback zero attempt_number last_error =
      mark_callback_failed repository state.execution_id last_error
  attempts state callback (suc left) attempt_number last_error = do
    outcome ← attempt (send repository client state.callback_url callback)
    after_send state.execution_id attempt_number (attempts state callback left (attempt_number + 1))
        outcome

  report : ExecutionState → String → Action repository.World ExecutionState
  unfolding lift_outcome attempts
  report state event_id = do
    pending ← mark_callback_pending repository state.execution_id event_id
    callback ← lift_outcome (from_state pending event_id)
    attempts pending callback max_attempts 1 "Callback delivery failed"

  unfoldable pub deliver : ExecutionState → Action repository.World ExecutionState
  unfolding report event_id_of
  deliver state =
      if is_delivered state.callback_status
      then pure state
      else if not (is_terminal state)
      then raise (value_error "Cannot deliver callback for non-terminal state")
      else report state (event_id_of state)
