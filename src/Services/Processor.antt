-- ===== src/Services/Processor.antt =====
-- services/processor.py: ExecutionProcessor executes a command or settles one that was left
-- running, and then delivers the callback.
pub mod Cases
pub mod Concludes
pub mod Recovery
pub mod Sends
pub mod Completes
use executor_service.Common.{
  Bool, true, false, not, ◌&&◌, ◌≡◌, String, Option, none, some, str_eq, if◌then◌else◌,
}
use executor_service.Errors.{Error, infrastructure_error, kernel_not_found_error}
use executor_service.Action.{Outcome, ok, raised, Action, pure, raise, attempt, ◌>>=◌, ◌>>◌}
use executor_service.Schemas.Value.{Fields}
use executor_service.Schemas.Command.{ExecutionCommand}
use executor_service.Schemas.State.{ExecutionState, is_terminal}
use executor_service.Schemas.Callback.{text_or}
use executor_service.Repository.{RedisExecutionRepository, get_required, mark_infrastructure_failed}
use executor_service.Clients.Jupyter.{JupyterServerClient, get_kernel}
use executor_service.Services.Execution
use executor_service.Services.Execution.{ExecutionService, is_running}
use executor_service.Services.Callback.{CallbackService, deliver}

pub record ExecutionProcessor (repository : RedisExecutionRepository) : Type 1 where
  pub execution_service : ExecutionService repository
  pub callback_service : CallbackService repository
  pub jupyter_client : JupyterServerClient repository

module _ (repository : RedisExecutionRepository) (processor : ExecutionProcessor repository) where
  open processor use {execution_service, callback_service, jupyter_client}

  -- What becomes of a running execution, by what `get_kernel` did.
  reconcile : String → Outcome Fields → Action repository.World ExecutionState
  reconcile execution_id (raised (kernel_not_found_error _)) =
      mark_infrastructure_failed repository execution_id "KernelLost"
        "The Jupyter kernel disappeared before its result could be recovered"
  reconcile execution_id (raised x) = raise x
  reconcile execution_id (ok _) = raise (
      infrastructure_error
        "The previous Jupyter kernel is still alive. The command remains Pending because WebSocket messages cannot be replayed safely; user code was not re-executed.")

  -- `if not state.kernel_id` holds of no id and of an empty one.
  recover_at : String → String → Action repository.World ExecutionState
  unfolding reconcile
  recover_at execution_id kernel_id =
      if str_eq kernel_id ""
      then raise (
          infrastructure_error
            "RUNNING execution has no kernel binding; manual reconciliation is required")
      else (do
        outcome ← attempt (get_kernel repository jupyter_client kernel_id)
        reconcile execution_id outcome)

  -- `_recover_running`
  unfoldable pub recover_running : String → Action repository.World ExecutionState
  unfolding recover_at
  recover_running execution_id = do
    state ← get_required repository execution_id
    recover_at execution_id (text_or state.kernel_id "")

  unfoldable pub choose : ExecutionCommand → ExecutionState → Action repository.World ExecutionState
  choose command state =
      if not (is_terminal state) && is_running state.status
      then recover_running state.execution_id
      else if not (is_terminal state)
      then Execution.execute repository execution_service command
      else pure state

  unfoldable pub execute : ExecutionCommand → Action repository.World ExecutionState
  execute command = do
    loaded ← get_required repository command.execution_id
    state ← choose command loaded
    deliver repository callback_service state
