-- ===== src/Workers/Execution/Completes.antt =====
-- A message that is dealt with where nothing but the agent fails.
use executor_service.Common.{◌≡◌, String}
use executor_service.Action.{Outcome, ok, raised}
use executor_service.Action.Triple.{Post}
use executor_service.Schemas.Command.{ExecutionCommand}
use executor_service.Schemas.State.{ExecutionState}
use executor_service.Platform.{Keys}
use executor_service.Clients.Redis
use executor_service.Repository.{RedisExecutionRepository}
use executor_service.Repository.Store.{At-mono, Holds, Now}
use executor_service.Repository.Reliable.{Reliable}
use executor_service.Services.Execution.Progress.{IsSubmitted}
use executor_service.Services.Execution.Stepping.{Smooth}
use executor_service.Services.Callback.Finishes.{Responsive}
use executor_service.Services.Processor
use executor_service.Services.Processor.{ExecutionProcessor}
use executor_service.Services.Processor.Concludes.{submitted}
use executor_service.Services.Processor.Completes.{IsCompleted, execute-completes}
use executor_service.Workers.Execution.{process_message}
use executor_service.Workers.Execution.Acknowledges.{
  worker_of, Acknowledged, LeftPending, process_message_acknowledges,
}

module _ (repository : RedisExecutionRepository) (processor : ExecutionProcessor repository)
    (reliable : Reliable repository) (smooth : Smooth repository processor.execution_service.runner)
    (responsive : Responsive repository processor.callback_service) (message_id : String)
    (command : ExecutionCommand) (base : Keys repository.Payload) (w : repository.World) where
  -- The state is completed, and the acknowledgement is the last that is done to the world.
  abbrev pub Completed : ExecutionState → repository.World → Type 0
  Completed s w' =
      Now repository command.execution_id base IsCompleted s w'
      × ((process_message repository (worker_of repository processor) message_id command w).1
          ≡ (Redis.acknowledge repository.redis_client message_id w').1)

  together :
      (m : Outcome ExecutionState × repository.World)
      → Post (Now repository command.execution_id base IsCompleted) (λ _ _. ⊥) m
      → Post
          (Acknowledged repository processor message_id command base w)
          (LeftPending repository processor message_id command base w)
          m
      → Post Completed (λ _ _. ⊥) m
  together (ok s, w') p q = (p, q.1)
  together (raised x, w') p q = p

  -- If the GET and SET of Redis return, if sessions open and close, if every step that is run returns
  -- when its callback does, if pauses return and a post raises nothing but an HTTPError, and if
  -- Redis holds the state of an execution that was submitted and not started, then the processor
  -- returns a state that Redis then holds, in which every step and the execution succeeded, and
  -- whose callback is delivered or given up; and the last thing that the worker does to the world is
  -- to send the acknowledgement.
  pub process_message_completes :
      Holds repository command.execution_id base (IsSubmitted command.steps) w
      → Post Completed (λ _ _. ⊥) (Processor.execute repository processor command w)
  process_message_completes h =
      together (Processor.execute repository processor command w)
        (execute-completes repository processor reliable smooth responsive command base w h)
        (process_message_acknowledges repository processor message_id command base w
          (h.0, At-mono repository submitted h.1))
