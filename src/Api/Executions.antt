-- ===== src/Api/Executions.antt =====
-- api/executions.py: the two routes, with the exceptions that become status codes.
use executor_service.Common.{
  ℕ, ◌≡◌, refl, ap, ◌⊎◌, inl, inr, String, List, Option, none, some, if◌then◌else◌,
}
use executor_service.Errors.{
  Error, http_exception, duplicate_execution_error, infrastructure_error, kernel_not_found_error,
  cancelled_error, describe, is_infrastructure,
}
use executor_service.Action.{Action, pure, raise, ◌except◌, ◌>>=◌}
use executor_service.Action.Triple.{Triple, Post, Triple-bind, Triple-except}
use executor_service.Schemas.Command.{ExecutionCommand}
use executor_service.Schemas.State.{ExecutionState, ExecutionStatus}
use executor_service.Platform.{Keys}
use executor_service.Clients.Scripts.{Scripting, Stands, Refused, Left}
use executor_service.Repository.{RedisExecutionRepository, key, get}
use executor_service.Repository.Transitions.{build_initial_state}
use executor_service.Services.Submission.{submit, Accepted, NotAccepted, submit-Accepted}

pub record ExecutionAcceptedResponse : Type 0 where
  pub execution_id : String
  pub status : ExecutionStatus

module _ (r : RedisExecutionRepository) where
  submission_failed : {A : Type 0} → Error → Action r.World A
  submission_failed (duplicate_execution_error id) =
      raise (http_exception 409 (describe (duplicate_execution_error id)))
  submission_failed (infrastructure_error _) =
      raise (http_exception 503 "Execution submission failed")
  submission_failed (kernel_not_found_error _) =
      raise (http_exception 503 "Execution submission failed")
  submission_failed x = raise x

  unfoldable pub submit_execution :
      Scripting r.redis_client → ExecutionCommand → Action r.World ExecutionAcceptedResponse
  unfolding submission_failed
  submit_execution s command = do
    execution ← submit r s command except submission_failed
    pure (record { execution_id = execution.execution_id; status = execution.status })

  get_failed : {A : Type 0} → Error → Action r.World A
  get_failed x =
      if is_infrastructure x
      then raise (http_exception 503 "Execution state is unavailable")
      else raise x

  respond : Option ExecutionState → Action r.World ExecutionState
  respond none = raise (http_exception 404 "Execution not found")
  respond (some execution) = pure execution

  unfoldable pub get_execution : String → Action r.World ExecutionState
  unfolding get_failed respond
  get_execution execution_id = do
    execution ← get r execution_id except get_failed
    respond execution

  module _ (s : Scripting r.redis_client) (command : ExecutionCommand) (m : Keys r.Payload)
      (e : List (String × r.Payload)) where
    -- Accepted as queued.
    abbrev pub Queued : ExecutionAcceptedResponse → r.World → Type 0
    Queued response w =
        (response.execution_id ≡ command.execution_id)
        × (response.status ≡ ExecutionStatus.queued)
        × ((state : ExecutionState) × Accepted r s command m e state w)

    -- 409 and nothing has changed, or 503 or a cancellation with some of the work done.
    abbrev pub Rejected : Error → r.World → Type 0
    Rejected x w =
        ((x ≡ http_exception 409 (describe (duplicate_execution_error command.execution_id)))
          × Refused r.redis_client s (key r command.execution_id)
              (r.dump_state (build_initial_state 0 command)) (r.dump_command command) m e w)
        ⊎ (((x ≡ http_exception 503 "Execution submission failed") ⊎ (x ≡ cancelled_error))
            × ((now : ℕ) × Left r.redis_client s (key r command.execution_id)
                  (r.dump_state (build_initial_state now command)) (r.dump_command command) m e w))

    submission_failed-Rejected :
        (x : Error)
        → Triple {A = ExecutionState}
            (NotAccepted r s command m e x)
            (submission_failed x)
            (Accepted r s command m e)
            Rejected
    unfolding submission_failed
    submission_failed-Rejected (duplicate_execution_error id) = record {
      at = λ w p. elim p [
        | inl (same, refused) ↦ inl (ap (λ x. http_exception 409 (describe x)) same, refused)
        | inr (h, _) ↦ cc
      ];
    }
    submission_failed-Rejected (infrastructure_error t) = record {
      at = λ w p. elim p [ inl (h, _) ↦ cc | inr (_, left) ↦ inr (inl refl, left) ];
    }
    submission_failed-Rejected (kernel_not_found_error t) = record {
      at = λ w p. elim p [ inl (h, _) ↦ cc | inr (_, left) ↦ inr (inl refl, left) ];
    }
    submission_failed-Rejected cancelled_error = record {
      at = λ w p. elim p [ inl (h, _) ↦ cc | inr (_, left) ↦ inr (inr refl, left) ];
    }
    submission_failed-Rejected x = record {
      at = λ w p. elim p [ inl (h, _) ↦ cc | inr (h, _) ↦ cc ];
    }

    Accepted-Queued :
        (state : ExecutionState)
        → Triple
            (Accepted r s command m e state)
            (pure (record { execution_id = state.execution_id; status = state.status }))
            Queued
            Rejected
    unfolding build_initial_state
    Accepted-Queued state = record {
      at = λ w (now, same, id, added). (
        ap (λ (s : ExecutionState). s.execution_id) same,
        ap (λ (s : ExecutionState). s.status) same,
        (state, (now, same, id, added)),
      );
    }

    -- If nothing but the clock has been read, then `submit_execution` either answers with the id of
    -- the command as queued, and the command is accepted; or it ends with status 409, the execution
    -- was there, and nothing has changed; or it ends with status 503 or is cancelled, and some of
    -- the work may be done, but no older state is replaced.
    pub submit_execution-Queued :
        (w : r.World)
        → Stands r.redis_client s.entries m e w
        → Post Queued Rejected (submit_execution s command w)
    unfolding submit_execution
    submit_execution-Queued w stands =
        let t : Triple (Stands r.redis_client s.entries m e) (submit_execution s command) Queued
            Rejected =
          Triple-bind
            (Triple-except {m = submit r s command}
              (record { at = submit-Accepted r s command m e }) submission_failed-Rejected)
            Accepted-Queued in
        t.at w stands
