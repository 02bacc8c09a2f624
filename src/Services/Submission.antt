-- ===== src/Services/Submission.antt =====
-- services/submission.py: SubmissionService.
use executor_service.Common.{ℕ, ◌≡◌, refl, ◌⊎◌, inl, inr, true, not, ◌||◌, String, List, ◌∙◌}
use Prim.Native.String.{◌++◌}
use executor_service.Errors.{
  Error, duplicate_execution_error, infrastructure_error, kernel_not_found_error, cancelled_error,
  describe, is_infrastructure, is_exception,
}
use executor_service.Action.{Action, pure, raise, ◌except◌, ◌>>=◌, ◌>>◌}
use executor_service.Action.Triple.{Triple, Post, Triple-pure, Triple-bind, Triple-except}
use executor_service.Schemas.Command.{ExecutionCommand}
use executor_service.Schemas.State.{ExecutionState}
use executor_service.Platform.{Keys}
use executor_service.Clients.Scripts
use executor_service.Clients.Scripts.{
  Scripting, Stands, is_duplicate, Added, Refused, Left, submit-Triple,
}
use executor_service.Repository.{RedisExecutionRepository, utc_now, key}
use executor_service.Repository.Transitions.{build_initial_state}

module _ (r : RedisExecutionRepository) (s : Scripting r.redis_client) where
  -- The `except` clauses.
  translate : {A : Type 0} → Error → Action r.World A
  translate (duplicate_execution_error id) = raise (duplicate_execution_error id)
  translate (infrastructure_error message) = raise (infrastructure_error message)
  translate (kernel_not_found_error id) = raise (kernel_not_found_error id)
  translate cancelled_error = raise cancelled_error
  translate x = raise (infrastructure_error ("Execution submission failed: " ++ describe x))

  -- `SubmissionService.submit`
  unfoldable pub submit : ExecutionCommand → Action r.World ExecutionState
  unfolding translate
  submit command = do
    now ← utc_now r
    let state = build_initial_state now command
    (Scripts.submit r.redis_client s (key r command.execution_id) (r.dump_state state)
          command.execution_id (r.dump_command command)
        except translate)
    pure state

  module _ (command : ExecutionCommand) (m : Keys r.Payload) (e : List (String × r.Payload)) where
    -- The command was new: its first state is stored, and it is the last of the stream.
    abbrev pub Accepted : ExecutionState → r.World → Type 0
    Accepted state w =
        (now : ℕ) × (state ≡ build_initial_state now command)
        × (id : String) × Added r.redis_client s (key r command.execution_id) (r.dump_state state)
            (r.dump_command command) m e id w

    -- It raises: the execution was there and nothing has changed, or an infrastructure error or a
    -- cancellation has left some of the work done; never with an older state replaced.
    abbrev pub NotAccepted : Error → r.World → Type 0
    NotAccepted x w =
        ((x ≡ duplicate_execution_error command.execution_id)
          × Refused r.redis_client s (key r command.execution_id)
              (r.dump_state (build_initial_state 0 command)) (r.dump_command command) m e w)
        ⊎ ((is_infrastructure x || not (is_exception x) ≡ true)
            × ((now : ℕ) × Left r.redis_client s (key r command.execution_id)
                  (r.dump_state (build_initial_state now command)) (r.dump_command command) m e w))

    keeps :
        (now : ℕ) (x : Error)
        → is_infrastructure x || not (is_exception x) ≡ true
        → Triple {A = String}
            (Scripts.Failed r.redis_client s
              (key r command.execution_id)
              (r.dump_state (build_initial_state now command))
              (r.dump_command command)
              m
              e
              command.execution_id
              x)
            (raise x)
            (λ id.
              Added r.redis_client s
                (key r command.execution_id)
                (r.dump_state (build_initial_state now command))
                (r.dump_command command)
                m
                e
                id)
            NotAccepted
    keeps now x h = record {
      at = λ w p. elim p [ inl refused ↦ inl refused | inr (_, left) ↦ inr (h, (now, left)) ];
    }

    translate-NotAccepted :
        (now : ℕ) (x : Error)
        → Triple {A = String}
            (Scripts.Failed r.redis_client s
              (key r command.execution_id)
              (r.dump_state (build_initial_state now command))
              (r.dump_command command)
              m
              e
              command.execution_id
              x)
            (translate x)
            (λ id.
              Added r.redis_client s
                (key r command.execution_id)
                (r.dump_state (build_initial_state now command))
                (r.dump_command command)
                m
                e
                id)
            NotAccepted
    unfolding translate
    translate-NotAccepted now (duplicate_execution_error id) = record {
      at = λ w p. elim p [ inl refused ↦ inl refused | inr (h, _) ↦ cc ];
    }
    translate-NotAccepted now (infrastructure_error message) =
        keeps now (infrastructure_error message) refl
    translate-NotAccepted now (kernel_not_found_error id) =
        keeps now (kernel_not_found_error id) refl
    translate-NotAccepted now cancelled_error = keeps now cancelled_error refl
    translate-NotAccepted now x = record {
      at = λ w p. elim p [ inl (h, _) ↦ cc | inr (_, left) ↦ inr (refl, (now, left)) ];
    }

    -- If nothing but the clock has been read, then `submit` either returns the first state of the
    -- execution, which was not there and is stored now, with the command as the last message of the
    -- stream and nothing else changed; or it raises DuplicateExecutionError, the execution was
    -- there, and nothing has changed; or it raises an InfrastructureError or is cancelled, and then
    -- nothing was done, or the execution was not there and its state is stored, with its command in
    -- the stream or without.
    pub submit-Accepted :
        (w : r.World)
        → Stands r.redis_client s.entries m e w
        → Post Accepted NotAccepted (submit command w)
    unfolding submit utc_now
    submit-Accepted w stands =
        let now : ℕ = (r.clock w).0 in
        (Triple-bind
            (Triple-except
              (submit-Triple r.redis_client s (key r command.execution_id)
                (r.dump_state (build_initial_state now command)) (r.dump_command command) m e
                command.execution_id)
              (translate-NotAccepted now))
            (λ id. Triple-pure (build_initial_state now command) (λ w p. (now, refl, id, p)))).at
          (r.clock w).1 (r.stored-clock w ∙ stands.0, s.entries-clock w ∙ stands.1)
