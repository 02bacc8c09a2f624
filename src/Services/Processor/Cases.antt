-- ===== src/Services/Processor/Cases.antt =====
-- The three ways on of the processor, by the status that was loaded.
use executor_service.Common.{◌≡◌, true}
use executor_service.Action.{pure}
use executor_service.Schemas.Command.{ExecutionCommand}
use executor_service.Schemas.State.{ExecutionStatus, ExecutionState, is_terminal}
use executor_service.Repository.{RedisExecutionRepository}
use executor_service.Services.Execution
use executor_service.Services.Processor.{ExecutionProcessor, recover_running, choose}

abbrev pub IsStarted : ExecutionState → Type 0
IsStarted s = s.status ≡ ExecutionStatus.running

module _ (repository : RedisExecutionRepository) (processor : ExecutionProcessor repository)
    (command : ExecutionCommand) where
  pub choose-queued :
      (s : ExecutionState)
      → s.status ≡ ExecutionStatus.queued
      → choose repository processor command s
        ≡ Execution.execute repository processor.execution_service command
  unfolding choose
  choose-queued s e = rw e

  pub choose-running :
      (s : ExecutionState)
      → s.status ≡ ExecutionStatus.running
      → choose repository processor command s ≡ recover_running repository processor s.execution_id
  unfolding choose
  choose-running s e = rw e

  pub choose-terminal :
      (s : ExecutionState) → is_terminal s ≡ true → choose repository processor command s ≡ pure s
  unfolding choose
  choose-terminal s e = rw e
