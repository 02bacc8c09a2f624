-- ===== src/Workers/Execution/Submitted.antt =====
-- A command from its submission to its acknowledgement.
use executor_service.Common.{ℕ, ◌≡◌, refl, ap, ◌∙◌, String, List, some, arith, eq_iff, eq_refl}
use executor_service.Action.Triple.{Triple, Post, Triple-weaken}
use executor_service.Schemas.Command.{ExecutionCommand, validate}
use executor_service.Schemas.State.{ExecutionState}
use executor_service.Platform.{Keys}
use executor_service.Clients.Scripts.{Scripting, Stands}
use executor_service.Repository.{RedisExecutionRepository, key}
use executor_service.Repository.Transitions.{build_initial_state}
use executor_service.Repository.Store.{Holds}
use executor_service.Repository.Reliable.{Reliable}
use executor_service.Services.Execution.Progress.{IsSubmitted}
use executor_service.Services.Execution.Progress.Initial.{build_initial_state-IsSubmitted}
use executor_service.Services.Execution.Stepping.{Smooth}
use executor_service.Services.Callback.Finishes.{Responsive}
use executor_service.Services.Submission.{submit, Accepted, submit-Accepted}
use executor_service.Services.Processor
use executor_service.Services.Processor.{ExecutionProcessor}
use executor_service.Workers.Execution.Completes.{Completed, process_message_completes}

module _ (repository : RedisExecutionRepository) (scripting : Scripting repository.redis_client)
    (processor : ExecutionProcessor repository) (reliable : Reliable repository)
    (smooth : Smooth repository processor.execution_service.runner)
    (responsive : Responsive repository processor.callback_service) (message_id : String)
    (given command : ExecutionCommand) (valid : validate given ≡ some command)
    (m : Keys repository.Payload) (entries : List (String × repository.Payload)) where
  initial-id : (now : ℕ) → (build_initial_state now command).execution_id ≡ command.execution_id
  unfolding build_initial_state
  initial-id now = refl

  -- What the submission stores is the state of an execution that is not started.
  Accepted-Holds :
      (state : ExecutionState) (w : repository.World)
      → Accepted repository scripting command m entries state w
      → Holds repository command.execution_id m (IsSubmitted command.steps) w
  Accepted-Holds state w (now, same, id, (absent, stands)) = (
    state,
    record {
      payload = repository.dump_state state;
      found = rw (stands.0) (rw (eq_refl (key repository command.execution_id)));
      decoded = repository.validate-dump_state state;
      own = ap (λ (s : ExecutionState). s.execution_id) same ∙ initial-id now;
      holds = rw same (build_initial_state-IsSubmitted now given command valid);
      others =
          λ j ne. rw (stands.0) (ground (arith, eq_iff (key repository command.execution_id) j));
    },
  )

  -- The message of a command that was accepted is dealt with.
  abbrev pub Dealt : repository.World → Type 0
  Dealt w =
      Post (Completed repository processor reliable smooth responsive message_id command m w)
        (λ _ _. ⊥) (Processor.execute repository processor command w)

  -- If nothing but the clock has been read, if the command is valid, and if then the GET and SET of
  -- Redis return, sessions open and close, every step that is run returns when its callback does,
  -- pauses return and a post raises nothing but an HTTPError, then a command that `submit`
  -- accepts is dealt with: the processor returns a state that Redis holds, in which every step and
  -- the execution succeeded, and whose callback is delivered or given up; and the last thing that
  -- the worker does to the world is to send the acknowledgement.
  pub submit-Dealt :
      (w : repository.World)
      → Stands repository.redis_client scripting.entries m entries w
      → Post (λ _. Dealt) (λ _ _. Unit {0}) (submit repository scripting command w)
  submit-Dealt w stands =
      let t : Triple (Stands repository.redis_client scripting.entries m entries)
          (submit repository scripting command) (λ _. Dealt) (λ _ _. Unit {0}) =
        Triple-weaken {m = submit repository scripting command}
          (record { at = submit-Accepted repository scripting command m entries }) (λ w p. p)
          (λ state w a.
            process_message_completes repository processor reliable smooth responsive message_id
              command m w (Accepted-Holds state w a))
          (λ x w p. tt) in
      t.at w stands
