-- ===== src/Repository/Aside.antt =====
-- Statements about the world that Redis and the clock have no part in, and the repository's methods.
use executor_service.Common.{ℕ, ◌≡◌, refl, String, Bool, Option, none, some}
use executor_service.Errors.{Error, redis_error}
use executor_service.Action.{◌>>=◌}
use executor_service.Action.Triple.{Keeps, Triple-pure, Triple-raise, Triple-bind, Triple-except}
use executor_service.Schemas.Value.{Fields}
use executor_service.Schemas.State.{ExecutionState}
use executor_service.Clients.Redis
use executor_service.Clients.Redis.{wrap}
use executor_service.Repository.{
  RedisExecutionRepository, utc_now, parse, get, get_required, save, commit, or_now, or_raise,
  find_step, mark_running, bind_jupyter, set_request_msg_id, mark_step_running, mark_step_succeeded,
  mark_step_failed, mark_infrastructure_failed, mark_succeeded, mark_callback_pending,
  record_callback_attempt, mark_callback_delivered, mark_callback_failed,
}
use executor_service.Repository.Transitions.{step_with}

-- A GET, a SET, an XACK and a reading of the clock leave `F` as it is.
pub record Aside (r : RedisExecutionRepository) (F : r.World → Type 0) : Type 0 where
  pub get_aside : (k : String) → Keeps F (r.redis_get k)
  pub set_aside : (k : String) (v : r.Payload) (nx : Bool) → Keeps F (r.redis_set k v nx)
  pub xack_aside : (stream group id : String) → Keeps F (r.redis_xack stream group id)
  pub clock_aside : (w : r.World) → F w → F (r.clock w).1

module _ (r : RedisExecutionRepository) {F : r.World → Type 0} (aside : Aside r F) where
  wrap-Keeps : {A : Type 0} (what : String) (x : Error) → Keeps {A = A} F (wrap what x)
  unfolding wrap
  wrap-Keeps what (redis_error t) = Triple-raise _ (λ w p. p)
  wrap-Keeps what _ = Triple-raise _ (λ w p. p)

  utc_now-Keeps : Keeps F (utc_now r)
  unfolding utc_now
  utc_now-Keeps = record { at = λ w p. aside.clock_aside w p }

  or_now-Keeps : (o : Option ℕ) → Keeps F (or_now r o)
  unfolding or_now
  or_now-Keeps none = utc_now-Keeps
  or_now-Keeps (some t) = Triple-pure t (λ w p. p)

  or_raise-Keeps : {A : Type 0} (x : Error) (o : Option A) → Keeps F (or_raise r x o)
  unfolding or_raise
  or_raise-Keeps x none = Triple-raise x (λ w p. p)
  or_raise-Keeps x (some a) = Triple-pure a (λ w p. p)

  parse-Keeps : (v : Option r.Payload) → Keeps F (parse r v)
  unfolding parse
  parse-Keeps none = Triple-pure none (λ w p. p)
  parse-Keeps (some payload) = go (r.validate_state payload) refl
    where
      go :
          (o : Option ExecutionState)
          → r.validate_state payload ≡ o
          → Keeps F (parse r (some payload))
      go none e = rw (e, parse) (Triple-raise _ (λ w p. p))
      go (some s) e = rw (e, parse) (Triple-pure _ (λ w p. p))

  pub get_required-Keeps : (id : String) → Keeps F (get_required r id)
  unfolding get_required get Redis.get
  get_required-Keeps id =
      Triple-bind
        (Triple-bind (Triple-except (aside.get_aside _) (wrap-Keeps "Redis GET failed"))
          parse-Keeps)
        (or_raise-Keeps _)

  commit-Keeps : (s : ExecutionState) → Keeps F (commit r s)
  unfolding commit save Redis.set
  commit-Keeps s =
      Triple-bind (Triple-except (aside.set_aside _ _ _) (wrap-Keeps "Redis SET failed"))
        (λ _. Triple-pure s (λ w p. p))

  pub acknowledge-Keeps :
      (message_id : String) → Keeps F (Redis.acknowledge r.redis_client message_id)
  unfolding Redis.acknowledge
  acknowledge-Keeps message_id =
      Triple-except (aside.xack_aside _ _ _) (wrap-Keeps "Redis acknowledgement failed")

  -- One reading of the clock, and the write.
  stamped-Keeps :
      (change : ℕ → ExecutionState) → Keeps F (utc_now r >>= λ now. commit r (change now))
  stamped-Keeps change = Triple-bind utc_now-Keeps (λ now. commit-Keeps (change now))

  pub mark_running-Keeps : (id executor_id : String) → Keeps F (mark_running r id executor_id)
  unfolding mark_running
  mark_running-Keeps id executor_id = Triple-bind (get_required-Keeps id) (λ s. stamped-Keeps _)

  pub bind_jupyter-Keeps :
      (id target session_id kernel_id : String)
      → Keeps F (bind_jupyter r id target session_id kernel_id)
  unfolding bind_jupyter
  bind_jupyter-Keeps id target session_id kernel_id =
      Triple-bind (get_required-Keeps id) (λ s. stamped-Keeps _)

  pub set_request_msg_id-Keeps :
      (id message_id : String) → Keeps F (set_request_msg_id r id message_id)
  unfolding set_request_msg_id
  set_request_msg_id-Keeps id message_id =
      Triple-bind (get_required-Keeps id) (λ s. stamped-Keeps _)

  pub mark_step_running-Keeps : (id step_id : String) → Keeps F (mark_step_running r id step_id)
  unfolding mark_step_running find_step
  mark_step_running-Keeps id step_id = Triple-bind (get_required-Keeps id) (λ s.
      Triple-bind (or_raise-Keeps _ (step_with step_id s.steps))
        (λ step. Triple-bind (or_now-Keeps step.started_at) (λ started_at. stamped-Keeps _)))

  pub mark_step_succeeded-Keeps :
      (id step_id : String) (result : Option Fields)
      → Keeps F (mark_step_succeeded r id step_id result)
  unfolding mark_step_succeeded find_step
  mark_step_succeeded-Keeps id step_id result = Triple-bind (get_required-Keeps id) (λ s.
      Triple-bind (or_raise-Keeps _ (step_with step_id s.steps))
        (λ step. Triple-bind utc_now-Keeps (λ completed_at. stamped-Keeps _)))

  pub mark_step_failed-Keeps :
      (id step_id error_type message : String) (trace : Option String)
      → Keeps F (mark_step_failed r id step_id error_type message trace)
  unfolding mark_step_failed find_step
  mark_step_failed-Keeps id step_id error_type message trace =
      Triple-bind (get_required-Keeps id)
        (λ s. Triple-bind (or_raise-Keeps _ (step_with step_id s.steps)) (λ step. stamped-Keeps _))

  pub mark_infrastructure_failed-Keeps :
      (id error_type message : String)
      → Keeps F (mark_infrastructure_failed r id error_type message)
  unfolding mark_infrastructure_failed
  mark_infrastructure_failed-Keeps id error_type message =
      Triple-bind (get_required-Keeps id) (λ s. stamped-Keeps _)

  pub mark_succeeded-Keeps :
      (id : String) (result : Option Fields) → Keeps F (mark_succeeded r id result)
  unfolding mark_succeeded
  mark_succeeded-Keeps id result = Triple-bind (get_required-Keeps id) (λ s. stamped-Keeps _)

  pub mark_callback_pending-Keeps :
      (id event_id : String) → Keeps F (mark_callback_pending r id event_id)
  unfolding mark_callback_pending
  mark_callback_pending-Keeps id event_id =
      Triple-bind (get_required-Keeps id) (λ s. commit-Keeps _)

  pub record_callback_attempt-Keeps :
      (id : String) (error : Option String) → Keeps F (record_callback_attempt r id error)
  unfolding record_callback_attempt
  record_callback_attempt-Keeps id error = Triple-bind (get_required-Keeps id) (λ s. commit-Keeps _)

  pub mark_callback_delivered-Keeps : (id : String) → Keeps F (mark_callback_delivered r id)
  unfolding mark_callback_delivered
  mark_callback_delivered-Keeps id = Triple-bind (get_required-Keeps id) (λ s. stamped-Keeps _)

  pub mark_callback_failed-Keeps : (id error : String) → Keeps F (mark_callback_failed r id error)
  unfolding mark_callback_failed
  mark_callback_failed-Keeps id error = Triple-bind (get_required-Keeps id) (λ s. commit-Keeps _)
