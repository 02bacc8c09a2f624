-- ===== src/Services/Execution.antt =====
-- services/execution.py: ExecutionService runs the steps of a command in one Jupyter session and
-- records what becomes of each.
pub mod Runner
pub mod Progress
pub mod Settling
pub mod Settles
pub mod Recorder
pub mod Sending
pub mod Sends
pub mod Stepping
pub mod Succeeds
use Prim.Native.String.{◌++◌}
use executor_service.Common.{
  Bool, true, false, String, List, [], ◌∷◌, Option, none, some, if◌then◌else◌,
}
use executor_service.Errors.{
  Error, code_execution_error, infrastructure_error, kernel_not_found_error, cancelled_error,
  describe,
}
use executor_service.Action.{Outcome, ok, raised, Action, pure, raise, attempt, ◌>>=◌, ◌>>◌}
use executor_service.Schemas.Value.{Fields}
use executor_service.Schemas.Command.{ExecutionEnvironment, ExecutionStep, ExecutionCommand}
use executor_service.Schemas.State.{ExecutionStatus, ExecutionState, is_terminal}
use executor_service.Repository.{
  RedisExecutionRepository, get_required, mark_running, bind_jupyter, set_request_msg_id,
  mark_step_running, mark_step_succeeded, mark_step_failed, mark_succeeded,
}
use Runner.{ExecutionRunner}

pub record ExecutionService (repository : RedisExecutionRepository) : Type 1 where
  pub runner : ExecutionRunner repository
  pub kernel_name_resolver : ExecutionEnvironment → String
  pub executor_id : String

abbrev pub is_running : ExecutionStatus → Bool
is_running ExecutionStatus.running = true
is_running _ = false

-- `__exit__` is told the exception that ends the block, if one does.
abbrev raised_by : {A : Type 0} → Outcome A → Option Error
raised_by (ok a) = none
raised_by (raised x) = some x

module _ (repository : RedisExecutionRepository) (service : ExecutionService repository) where
  open service use {runner}

  unfoldable pub resolve : {A : Type 0} → Outcome A → Action repository.World A
  resolve (ok a) = pure a
  resolve (raised x) = raise x

  -- The nested function that the runner calls when a request is about to be sent.
  unfoldable pub request_started : String → String → Action repository.World (Unit {0})
  request_started execution_id message_id = do
    set_request_msg_id repository execution_id message_id
    pure tt

  -- The end of the `async with` block, which is told how the block ended and passes that on.
  leave : runner.Session → Outcome ExecutionState → Action repository.World ExecutionState
  unfolding resolve
  leave session outcome = do runner.close session (raised_by outcome); resolve outcome

  -- `async with self.runner.open(...) as session: ...`
  within :
      String
      → String
      → (runner.Session → Action repository.World ExecutionState)
      → Action repository.World ExecutionState
  unfolding leave
  within execution_id kernel_name body = do
    session ← runner.open_session execution_id kernel_name
    outcome ← attempt (body session)
    leave session outcome

  -- The `except` and `else` clauses around `session.run(step)`; `next` is the rest of the loop.
  pub settle :
      ExecutionCommand
      → ExecutionStep
      → (Bool → Action repository.World ExecutionState)
      → Bool
      → Outcome Fields
      → Action repository.World ExecutionState
  settle command step next has_failed_step (ok result) = do
    mark_step_succeeded repository command.execution_id step.step_id (some result)
    next has_failed_step
  settle command step next has_failed_step
        (raised (code_execution_error _ error_type message trace)) =
      do
        state ←
            mark_step_failed repository command.execution_id step.step_id error_type message trace
        if command.stop_on_error then pure state else next true
  settle command step next has_failed_step (raised (infrastructure_error message)) =
      raise (infrastructure_error message)
  settle command step next has_failed_step (raised (kernel_not_found_error kernel_id)) =
      raise (kernel_not_found_error kernel_id)
  settle command step next has_failed_step (raised cancelled_error) = raise cancelled_error
  settle command step next has_failed_step (raised x) =
      raise (infrastructure_error ("Unexpected execution failure: " ++ describe x))

  -- After the loop.
  finish : String → Bool → Action repository.World ExecutionState
  finish execution_id true = get_required repository execution_id
  finish execution_id false = mark_succeeded repository execution_id none

  -- `for step in command.steps`
  pub run_steps :
      ExecutionCommand
      → runner.Session
      → List ExecutionStep
      → Bool
      → Action repository.World ExecutionState
  unfolding settle finish request_started
  run_steps command session [] has_failed_step = finish command.execution_id has_failed_step
  run_steps command session (step ∷ steps) has_failed_step = do
    mark_step_running repository command.execution_id step.step_id
    outcome ← attempt (runner.run (request_started command.execution_id) session step)
    settle command step (run_steps command session steps) has_failed_step outcome

  -- The body of the `async with` block.
  with_session : ExecutionCommand → runner.Session → Action repository.World ExecutionState
  unfolding run_steps
  with_session command session = do
    let info = runner.session_info session
    bind_jupyter repository command.execution_id info.target info.session_id info.kernel_id
    run_steps command session command.steps false

  -- What `execute` does with an execution that is neither terminal nor running.
  start : ExecutionCommand → Action repository.World ExecutionState
  unfolding within with_session
  start command = do
    mark_running repository command.execution_id service.executor_id
    within command.execution_id (service.kernel_name_resolver command.execution_environment)
        (with_session command)

  proceed : ExecutionCommand → ExecutionState → Action repository.World ExecutionState
  unfolding start
  proceed command existing =
      if is_terminal existing
      then pure existing
      else if is_running existing.status
      then raise (
          infrastructure_error (
            "Execution is already RUNNING; automatic re-execution is disabled: "
            ++ command.execution_id))
      else start command

  unfoldable pub execute : ExecutionCommand → Action repository.World ExecutionState
  unfolding proceed
  execute command = do
    existing ← get_required repository command.execution_id
    proceed command existing
