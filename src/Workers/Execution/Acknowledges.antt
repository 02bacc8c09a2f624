-- ===== src/Workers/Execution/Acknowledges.antt =====
-- When a message is acknowledged.
use executor_service.Common.{ℕ, ◌≡◌, refl, String}
use executor_service.Errors.{Error, cancelled_error}
use executor_service.Action.{Outcome, ok, raised, pure, recover, continue}
use executor_service.Action.Triple.{Post}
use executor_service.Schemas.Command.{ExecutionCommand}
use executor_service.Schemas.State.{ExecutionState}
use executor_service.Platform.{Keys}
use executor_service.Clients.Redis
use executor_service.Repository.{RedisExecutionRepository}
use executor_service.Repository.Store.{Holds, Now}
use executor_service.Services.Processor
use executor_service.Services.Processor.{ExecutionProcessor}
use executor_service.Services.Processor.Concludes.{Known, IsConcluded, IsDated, execute-concludes}
use executor_service.Workers.Execution.{ExecutionWorker, log_failure, process_message}

module _ (repository : RedisExecutionRepository) where
  -- The worker of the application: its handler is the processor.
  abbrev pub worker_of : ExecutionProcessor repository → ExecutionWorker repository
  worker_of processor = record { execution_handler = Processor.execute repository processor }

  module _ (processor : ExecutionProcessor repository) (message_id : String)
      (command : ExecutionCommand) where
    -- Nothing follows the acknowledgement but the log.
    sent : Outcome ℕ × repository.World → repository.World
    sent (r, w) =
        let m = continue r (λ _. pure {W = repository.World} tt) w in
        (recover m.0 (log_failure repository (worker_of processor)) m.1).1

    world-sent : (m : Outcome ℕ × repository.World) → sent m ≡ m.1
    unfolding sent log_failure
    world-sent (ok a, w) = refl
    world-sent (raised cancelled_error, w) = refl
    world-sent (raised _, w) = refl

    world-log_failure :
        (x : Error) (w : repository.World)
        → (log_failure repository (worker_of processor) x w).1 ≡ w
    unfolding log_failure
    world-log_failure cancelled_error w = refl
    world-log_failure _ w = refl

    module _ (base : Keys repository.Payload) (w : repository.World) where
      -- What the worker has done, by how the processor ended.
      abbrev pub Acknowledged : ExecutionState → repository.World → Type 0
      Acknowledged s w' =
          Now repository command.execution_id base IsConcluded s w'
          × ((process_message repository (worker_of processor) message_id command w).1
              ≡ (Redis.acknowledge repository.redis_client message_id w').1)

      abbrev pub LeftPending : Error → repository.World → Type 0
      LeftPending x w' =
          Holds repository command.execution_id base IsDated w'
          × ((process_message repository (worker_of processor) message_id command w).1 ≡ w')

      process_message_after :
          (m : Outcome ExecutionState × repository.World)
          → Processor.execute repository processor command w ≡ m
          → Post
              (Now repository command.execution_id base IsConcluded)
              (λ _. Holds repository command.execution_id base IsDated)
              m
          → Post Acknowledged LeftPending m
      unfolding process_message sent
      process_message_after (ok s, w') e p =
          (p, rw e (world-sent (Redis.acknowledge repository.redis_client message_id w')))
      process_message_after (raised x, w') e p = (p, rw e (world-log_failure x w'))

      -- If Redis holds a state of the execution that is submitted, running or ended, then one of
      -- two things happens. The processor returns a concluded state that Redis then holds, and
      -- the last thing that the worker does to the world is to send the acknowledgement. Or the
      -- processor raises, Redis holds a state that is dated if it is terminal, and the worker does
      -- nothing more to the world, so that it sends no acknowledgement.
      pub process_message_acknowledges :
          Holds repository command.execution_id base (Known command) w
          → Post Acknowledged LeftPending (Processor.execute repository processor command w)
      process_message_acknowledges h =
          process_message_after _ refl (execute-concludes repository processor base command w h)
