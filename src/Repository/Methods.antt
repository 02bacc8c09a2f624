-- ===== src/Repository/Methods.antt =====
-- Every method of the repository, from a store that has a state of the execution with `P`: it
-- returns the changed state with `Q`, which the store then has, or it raises, and the store has a
-- state with `R`, which is the old one or the changed one.
use executor_service.Common.{ℕ, ◌≡◌, refl, String, Option, none, some}
use executor_service.Errors.{Error}
use executor_service.Action.{Action, ◌>>=◌}
use executor_service.Action.Triple.{Triple, Triple-pure, Triple-raise, Triple-bind, Triple-weaken}
use executor_service.Schemas.Value.{Fields}
use executor_service.Schemas.State.{ExecutionState, StepExecutionState}
use executor_service.Platform.{Keys}
use executor_service.Repository.{
  RedisExecutionRepository, utc_now, get_required, commit, or_now, or_raise, mark_running,
  bind_jupyter, set_request_msg_id, mark_step_running, mark_step_succeeded, mark_step_failed,
  mark_infrastructure_failed, mark_succeeded, mark_callback_pending, record_callback_attempt,
  mark_callback_delivered, mark_callback_failed,
}
use executor_service.Repository.Transitions.{
  update_step, step_with, to_running, to_bound, to_requested, step_to_running, to_step_running,
  step_to_succeeded, to_step_succeeded, step_to_failed, to_step_failed, to_infrastructure_failed,
  to_succeeded, to_callback_pending, to_attempted, to_callback_delivered, to_callback_failed,
}
use executor_service.Repository.Store.{Holds, Now, At-mono, get_required-At, utc_now-At, commit-At}

module _ (r : RedisExecutionRepository) (id : String) (base : Keys r.Payload)
    {P Q R : ExecutionState → Type 0} (before : (s : ExecutionState) → P s → R s)
    (after : (s : ExecutionState) → Q s → R s) where
  -- The shape of every method: load, then go on from the loaded state.
  loaded :
      {f : ExecutionState → Action r.World ExecutionState}
      → ((s : ExecutionState)
          → Triple (Now r id base P s) (f s) (Now r id base Q) (λ _. Holds r id base R))
      → Triple
          (Holds r id base P)
          (get_required r id >>= f)
          (Now r id base Q)
          (λ _. Holds r id base R)
  loaded h =
      Triple-bind
        (Triple-weaken (get_required-At r id base P) (λ w p. p) (λ s w a. a)
          (λ x w (s, a). (s, At-mono r (before s) a)))
        h

  committed :
      (s t : ExecutionState)
      → t.execution_id ≡ s.execution_id
      → (P s → Q t)
      → Triple (Now r id base P s) (commit r t) (Now r id base Q) (λ _. Holds r id base R)
  committed s t same h = commit-At r id base P s t same h (before s) (after t)

  -- One reading of the clock, and the write.
  stamped :
      (s : ExecutionState) (change : ℕ → ExecutionState)
      → ((now : ℕ) → (change now).execution_id ≡ s.execution_id)
      → ((now : ℕ) → P s → Q (change now))
      → Triple
          (Now r id base P s)
          (utc_now r >>= λ now. commit r (change now))
          (Now r id base Q)
          (λ _. Holds r id base R)
  stamped s change same h =
      Triple-bind (utc_now-At r id base P s) (λ now. committed s (change now) (same now) (h now))

  found-At :
      (s : ExecutionState) (x : Error) (o : Option StepExecutionState)
      → Triple
          (Now r id base P s)
          (or_raise r x o)
          (λ _. Now r id base P s)
          (λ _. Holds r id base R)
  unfolding or_raise
  found-At s x none = Triple-raise x (λ w a. (s, At-mono r (before s) a))
  found-At s x (some step) = Triple-pure step (λ w a. a)

  or_now-At :
      (s : ExecutionState) (o : Option ℕ)
      → Triple (Now r id base P s) (or_now r o) (λ _. Now r id base P s) (λ _. Holds r id base R)
  unfolding or_now
  or_now-At s none = utc_now-At r id base P s
  or_now-At s (some t) = Triple-pure t (λ w a. a)

  pub mark_running-Triple :
      (executor_id : String)
      → ((s : ExecutionState) (now : ℕ) → P s → Q (to_running now executor_id s))
      → Triple
          (Holds r id base P)
          (mark_running r id executor_id)
          (Now r id base Q)
          (λ _. Holds r id base R)
  unfolding mark_running
  mark_running-Triple executor_id h = loaded λ s. stamped s _ (λ now. refl) (h s)

  pub bind_jupyter-Triple :
      (target session_id kernel_id : String)
      → ((s : ExecutionState) (now : ℕ) → P s → Q (to_bound now target session_id kernel_id s))
      → Triple
          (Holds r id base P)
          (bind_jupyter r id target session_id kernel_id)
          (Now r id base Q)
          (λ _. Holds r id base R)
  unfolding bind_jupyter
  bind_jupyter-Triple target session_id kernel_id h = loaded λ s. stamped s _ (λ now. refl) (h s)

  pub set_request_msg_id-Triple :
      (request_msg_id : String)
      → ((s : ExecutionState) (now : ℕ) → P s → Q (to_requested now request_msg_id s))
      → Triple
          (Holds r id base P)
          (set_request_msg_id r id request_msg_id)
          (Now r id base Q)
          (λ _. Holds r id base R)
  unfolding set_request_msg_id
  set_request_msg_id-Triple request_msg_id h = loaded λ s. stamped s _ (λ now. refl) (h s)

  pub mark_step_running-Triple :
      (step_id : String)
      → ((s : ExecutionState) (started_at now : ℕ)
          → P s
          → Q (
              to_step_running now step_id
                (update_step step_id (step_to_running started_at) s.steps)
                s))
      → Triple
          (Holds r id base P)
          (mark_step_running r id step_id)
          (Now r id base Q)
          (λ _. Holds r id base R)
  unfolding mark_step_running
  mark_step_running-Triple step_id h = loaded λ s.
      Triple-bind (found-At s _ (step_with step_id s.steps)) (λ step.
        Triple-bind (or_now-At s step.started_at)
          (λ started_at. stamped s _ (λ now. refl) (h s started_at)))

  pub mark_step_succeeded-Triple :
      (step_id : String) (result : Option Fields)
      → ((s : ExecutionState) (completed_at now : ℕ)
          → P s
          → Q (
              to_step_succeeded now
                (update_step step_id (step_to_succeeded completed_at result) s.steps)
                s))
      → Triple
          (Holds r id base P)
          (mark_step_succeeded r id step_id result)
          (Now r id base Q)
          (λ _. Holds r id base R)
  unfolding mark_step_succeeded
  mark_step_succeeded-Triple step_id result h = loaded λ s.
      Triple-bind (found-At s _ (step_with step_id s.steps)) (λ step.
        Triple-bind (utc_now-At r id base P s)
          (λ completed_at. stamped s _ (λ now. refl) (h s completed_at)))

  pub mark_step_failed-Triple :
      (step_id error_type error_message : String) (traceback : Option String)
      → ((s : ExecutionState) (now : ℕ)
          → P s
          → Q (
              to_step_failed now step_id error_type error_message
                (update_step step_id
                  (step_to_failed now error_type error_message traceback)
                  s.steps)
                s))
      → Triple
          (Holds r id base P)
          (mark_step_failed r id step_id error_type error_message traceback)
          (Now r id base Q)
          (λ _. Holds r id base R)
  unfolding mark_step_failed
  mark_step_failed-Triple step_id error_type error_message traceback h = loaded λ s.
      Triple-bind (found-At s _ (step_with step_id s.steps))
        (λ step. stamped s _ (λ now. refl) (h s))

  pub mark_infrastructure_failed-Triple :
      (error_type error_message : String)
      → ((s : ExecutionState) (now : ℕ)
          → P s
          → Q (to_infrastructure_failed now error_type error_message s))
      → Triple
          (Holds r id base P)
          (mark_infrastructure_failed r id error_type error_message)
          (Now r id base Q)
          (λ _. Holds r id base R)
  unfolding mark_infrastructure_failed
  mark_infrastructure_failed-Triple error_type error_message h =
      loaded λ s. stamped s _ (λ now. refl) (h s)

  pub mark_succeeded-Triple :
      (result : Option Fields)
      → ((s : ExecutionState) (now : ℕ) → P s → Q (to_succeeded now result s))
      → Triple
          (Holds r id base P)
          (mark_succeeded r id result)
          (Now r id base Q)
          (λ _. Holds r id base R)
  unfolding mark_succeeded
  mark_succeeded-Triple result h = loaded λ s. stamped s _ (λ now. refl) (h s)

  pub mark_callback_pending-Triple :
      (event_id : String)
      → ((s : ExecutionState) → P s → Q (to_callback_pending event_id s))
      → Triple
          (Holds r id base P)
          (mark_callback_pending r id event_id)
          (Now r id base Q)
          (λ _. Holds r id base R)
  unfolding mark_callback_pending
  mark_callback_pending-Triple event_id h = loaded λ s. committed s _ refl (h s)

  pub record_callback_attempt-Triple :
      (error : Option String)
      → ((s : ExecutionState) → P s → Q (to_attempted error s))
      → Triple
          (Holds r id base P)
          (record_callback_attempt r id error)
          (Now r id base Q)
          (λ _. Holds r id base R)
  unfolding record_callback_attempt
  record_callback_attempt-Triple error h = loaded λ s. committed s _ refl (h s)

  pub mark_callback_delivered-Triple :
      ((s : ExecutionState) (now : ℕ) → P s → Q (to_callback_delivered now s))
      → Triple
          (Holds r id base P)
          (mark_callback_delivered r id)
          (Now r id base Q)
          (λ _. Holds r id base R)
  unfolding mark_callback_delivered
  mark_callback_delivered-Triple h = loaded λ s. stamped s _ (λ now. refl) (h s)

  pub mark_callback_failed-Triple :
      (error : String)
      → ((s : ExecutionState) → P s → Q (to_callback_failed error s))
      → Triple
          (Holds r id base P)
          (mark_callback_failed r id error)
          (Now r id base Q)
          (λ _. Holds r id base R)
  unfolding mark_callback_failed
  mark_callback_failed-Triple error h = loaded λ s. committed s _ refl (h s)
