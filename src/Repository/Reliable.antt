-- ===== src/Repository/Reliable.antt =====
-- The methods of the repository on a Redis whose commands return.
use executor_service.Common.{ℕ, ◌≡◌, false, String, Option, none, some}
use executor_service.Action.{Action, ◌>>=◌}
use executor_service.Action.Triple.{
  Triple, Returns, Triple-pure, Triple-bind, Triple-except, Triple-sure, Returns-weaken,
}
use executor_service.Schemas.Value.{Fields}
use executor_service.Schemas.State.{ExecutionState, StepExecutionState}
use executor_service.Platform.{Keys}
use executor_service.Clients.Redis
use executor_service.Repository.{
  RedisExecutionRepository, utc_now, key, get_required, save, commit, or_now, or_raise, find_step,
  mark_running, bind_jupyter, set_request_msg_id, mark_step_running, mark_step_succeeded,
  mark_succeeded, mark_callback_pending, record_callback_attempt, mark_callback_delivered,
  mark_callback_failed,
}
use executor_service.Repository.Transitions.{step_with}
use executor_service.Repository.Store.{Holds, Now, get_required-by}

-- A GET and a SET return.
pub record Reliable (r : RedisExecutionRepository) : Type 0 where
  pub get_returns : (k : String) → Returns (λ _. Unit {0}) (r.redis_get k)
  pub set_returns : (k : String) (v : r.Payload) → Returns (λ _. Unit {0}) (r.redis_set k v false)

module _ (r : RedisExecutionRepository) (reliable : Reliable r) where
  get-Returns : (k : String) → Returns (λ _. Unit {0}) (Redis.get r.redis_client k)
  unfolding Redis.get
  get-Returns k = Triple-except (reliable.get_returns k) (λ x. record { at = λ w p. elim p [ ] })

  utc_now-Returns : Returns (λ _. Unit {0}) (utc_now r)
  unfolding utc_now
  utc_now-Returns = record { at = λ w p. tt }

  or_now-Returns : (o : Option ℕ) → Returns (λ _. Unit {0}) (or_now r o)
  unfolding or_now
  or_now-Returns none = utc_now-Returns
  or_now-Returns (some t) = Triple-pure t (λ w p. tt)

  commit-Returns : (s : ExecutionState) → Returns (λ _. Unit {0}) (commit r s)
  unfolding commit save Redis.set
  commit-Returns s =
      Triple-bind
        (Triple-except (reliable.set_returns (key r s.execution_id) (r.dump_state s))
          (λ x. record { at = λ w p. elim p [ ] }))
        (λ _. Triple-pure s (λ w p. tt))

  stamped-Returns :
      (change : ℕ → ExecutionState)
      → Returns (λ _. Unit {0}) (utc_now r >>= λ now. commit r (change now))
  stamped-Returns change = Triple-bind utc_now-Returns (λ now. commit-Returns (change now))

  module _ (id : String) (base : Keys r.Payload) (P : ExecutionState → Type 0) where
    pub get_required-sure :
        Triple (Holds r id base P) (get_required r id) (Now r id base P) (λ _ _. ⊥)
    get_required-sure = get_required-by r id base P (λ s m a.
        Triple-sure (Redis.get-reads r.redis_client (key r id) m)
          (Returns-weaken (λ w p. tt) (get-Returns (key r id))))

    loaded-Returns :
        {f : ExecutionState → Action r.World ExecutionState}
        → ((s : ExecutionState) → P s → Returns (λ _. Unit {0}) (f s))
        → Returns (Holds r id base P) (get_required r id >>= f)
    loaded-Returns h =
        Triple-bind get_required-sure (λ s. record { at = λ w a. (h s a.holds).at w tt })

    pub mark_running-Returns :
        (executor_id : String) → Returns (Holds r id base P) (mark_running r id executor_id)
    unfolding mark_running
    mark_running-Returns executor_id = loaded-Returns (λ s p. stamped-Returns _)

    pub bind_jupyter-Returns :
        (target session_id kernel_id : String)
        → Returns (Holds r id base P) (bind_jupyter r id target session_id kernel_id)
    unfolding bind_jupyter
    bind_jupyter-Returns target session_id kernel_id = loaded-Returns (λ s p. stamped-Returns _)

    pub set_request_msg_id-Returns :
        (request_msg_id : String)
        → Returns (Holds r id base P) (set_request_msg_id r id request_msg_id)
    unfolding set_request_msg_id
    set_request_msg_id-Returns request_msg_id = loaded-Returns (λ s p. stamped-Returns _)

    pub mark_succeeded-Returns :
        (result : Option Fields) → Returns (Holds r id base P) (mark_succeeded r id result)
    unfolding mark_succeeded
    mark_succeeded-Returns result = loaded-Returns (λ s p. stamped-Returns _)

    pub mark_callback_pending-Returns :
        (event_id : String) → Returns (Holds r id base P) (mark_callback_pending r id event_id)
    unfolding mark_callback_pending
    mark_callback_pending-Returns event_id = loaded-Returns (λ s p. commit-Returns _)

    pub record_callback_attempt-Returns :
        (error : Option String) → Returns (Holds r id base P) (record_callback_attempt r id error)
    unfolding record_callback_attempt
    record_callback_attempt-Returns error = loaded-Returns (λ s p. commit-Returns _)

    pub mark_callback_delivered-Returns : Returns (Holds r id base P) (mark_callback_delivered r id)
    unfolding mark_callback_delivered
    mark_callback_delivered-Returns = loaded-Returns (λ s p. stamped-Returns _)

    pub mark_callback_failed-Returns :
        (error : String) → Returns (Holds r id base P) (mark_callback_failed r id error)
    unfolding mark_callback_failed
    mark_callback_failed-Returns error = loaded-Returns (λ s p. commit-Returns _)

    module _ (step_id : String)
        (known : (s : ExecutionState)
          → P s
          → (step : StepExecutionState) × (step_with step_id s.steps ≡ some step)) where
      found-Returns :
          (s : ExecutionState) (f : StepExecutionState → Action r.World ExecutionState)
          → P s
          → ((step : StepExecutionState) → Returns (λ _. Unit {0}) (f step))
          → Returns (λ _. Unit {0}) (find_step r s step_id >>= f)
      unfolding find_step or_raise
      found-Returns s f p h = let (step, e) = known s p in rw e (h step)

      pub mark_step_running-Returns : Returns (Holds r id base P) (mark_step_running r id step_id)
      unfolding mark_step_running
      mark_step_running-Returns = loaded-Returns (λ s p.
          found-Returns s _ p (λ step.
            Triple-bind (or_now-Returns step.started_at) (λ started_at. stamped-Returns _)))

      pub mark_step_succeeded-Returns :
          (result : Option Fields)
          → Returns (Holds r id base P) (mark_step_succeeded r id step_id result)
      unfolding mark_step_succeeded
      mark_step_succeeded-Returns result = loaded-Returns (λ s p.
          found-Returns s _ p
            (λ step. Triple-bind utc_now-Returns (λ completed_at. stamped-Returns _)))
