-- ===== src/Workers/Execution.antt =====
-- workers/execution.py: ExecutionWorker, which processes a message and acknowledges it.
pub mod Acknowledges
pub mod Redelivery
pub mod Requests
pub mod Completes
pub mod Submitted
use executor_service.Common.{String}
use executor_service.Errors.{Error, cancelled_error}
use executor_service.Action.{Action, pure, raise, ◌except◌, ◌>>=◌, ◌>>◌}
use executor_service.Schemas.Command.{ExecutionCommand}
use executor_service.Schemas.State.{ExecutionState}
use executor_service.Clients.Redis
use executor_service.Repository.{RedisExecutionRepository}

-- `execution_handler` is the protocol ExecutionHandler; both it and the Redis client work on the
-- world of one repository.
pub record ExecutionWorker (repository : RedisExecutionRepository) : Type 1 where
  pub execution_handler : ExecutionCommand → Action repository.World ExecutionState

module _ (repository : RedisExecutionRepository) (worker : ExecutionWorker repository) where
  -- `except InfrastructureError` and `except Exception` only log; a cancellation passes.
  log_failure : Error → Action repository.World (Unit {0})
  log_failure cancelled_error = raise cancelled_error
  log_failure x = pure tt

  unfoldable pub process_message : String → ExecutionCommand → Action repository.World (Unit {0})
  unfolding log_failure
  process_message message_id command =
      (do
        worker.execution_handler command
        Redis.acknowledge repository.redis_client message_id
        pure tt)
      except log_failure
