-- ===== src/Workers/Execution/Redelivery.antt =====
-- A message that is delivered again and again, and the requests that are sent to a kernel.
use executor_service.Common.{◌≡◌, refl, sym, ◌∙◌, inl, inr, String, List, [], ◌∷◌, ◌++◌}
use mathlib.Core.List.{append-nil}
use executor_service.Errors.{Error, cancelled_error}
use executor_service.Action.{Outcome, ok, raised}
use executor_service.Action.Triple.{
  Keeps, Post, Triple-pure, Triple-raise, Triple-bind, Triple-except, Triple-weaken, Triple-both,
}
use executor_service.Schemas.Command.{ExecutionCommand}
use executor_service.Schemas.State.{ExecutionState}
use executor_service.Platform.{Keys}
use executor_service.Clients.Redis
use executor_service.Repository.{RedisExecutionRepository}
use executor_service.Repository.Store.{At, Holds, frame}
use executor_service.Repository.Aside.{acknowledge-Keeps}
use executor_service.Services.Execution.Progress.{IsSubmitted}
use executor_service.Services.Execution.Recorder.{IsTaken, InOrder}
use executor_service.Services.Processor.{ExecutionProcessor}
use executor_service.Services.Processor.Sends.{ProcessorRecorder, Sends, execute-Sends}
use executor_service.Workers.Execution.{log_failure, process_message}
use executor_service.Workers.Execution.Acknowledges.{worker_of}

module _ (repository : RedisExecutionRepository) (processor : ExecutionProcessor repository)
    (command : ExecutionCommand) where
  -- The world after the message has been processed once for each of these message ids, whatever
  -- each processing came to.
  unfoldable pub process_all : List String → repository.World → repository.World
  process_all [] w = w
  process_all (message_id ∷ ids) w =
      process_all ids
        (process_message repository (worker_of repository processor) message_id command w).1

module _ (repository : RedisExecutionRepository) (processor : ExecutionProcessor repository)
    (recorder : ProcessorRecorder repository processor) (command : ExecutionCommand)
    (base : Keys repository.Payload) where
  open recorder use {Entry, IsRequest, sent}

  abbrev id : String
  id = command.execution_id

  log_failure-Keeps :
      (l : List Entry) (x : Error)
      → Keeps
          (Sends repository processor recorder command base l)
          (log_failure repository (worker_of repository processor) x)
  unfolding log_failure
  log_failure-Keeps l cancelled_error = Triple-raise _ (λ w p. p)
  log_failure-Keeps l _ = Triple-pure tt (λ w p. p)

  acknowledge-Sends :
      (message_id : String) (l : List Entry)
      → Keeps
          (Sends repository processor recorder command base l)
          (Redis.acknowledge repository.redis_client message_id)
  acknowledge-Sends message_id l = record {
    at = λ w p. elim p [
      | inl h ↦
          (Triple-weaken
              (Triple-both
                (frame repository
                  (λ m.
                    (s : ExecutionState) × At repository id base (IsSubmitted command.steps) s m)
                  (Redis.acknowledge-keeps repository.redis_client message_id))
                (acknowledge-Keeps repository (recorder.aside l) message_id))
              (λ w p. p) (λ n w p. inl p) (λ x w p. inl p)).at
            w h
      | inr (h, (front, e, o)) ↦
          (Triple-weaken
              (Triple-both
                (frame repository (λ m. (s : ExecutionState) × At repository id base IsTaken s m)
                  (Redis.acknowledge-keeps repository.redis_client message_id))
                (acknowledge-Keeps repository (recorder.aside (l ++ front)) message_id))
              (λ w p. p) (λ n w (h, e). inr (h, (front, e, o)))
              (λ x w (h, e). inr (h, (front, e, o)))).at
            w (h, e)
    ];
  }

  process_message-Sends :
      (message_id : String) (l : List Entry)
      → Keeps
          (Sends repository processor recorder command base l)
          (process_message repository (worker_of repository processor) message_id command)
  unfolding process_message
  process_message-Sends message_id l =
      Triple-except
        (Triple-bind (execute-Sends repository processor recorder command base l)
          (λ _. Triple-bind (acknowledge-Sends message_id l) (λ _. Triple-pure tt (λ w p. p))))
        (log_failure-Keeps l)

  world-Sends :
      {A : Type 0} (l : List Entry) (r : Outcome A × repository.World)
      → Post
          (λ _. Sends repository processor recorder command base l)
          (λ _. Sends repository processor recorder command base l)
          r
      → Sends repository processor recorder command base l r.1
  world-Sends l (ok a, w) p = p
  world-Sends l (raised x, w) p = p

  process_all-Sends :
      (ids : List String) (l : List Entry) (w : repository.World)
      → Sends repository processor recorder command base l w
      → Sends repository processor recorder command base l
          (process_all repository processor command ids w)
  unfolding process_all
  process_all-Sends [] l w h = h
  process_all-Sends (message_id ∷ ids) l w h =
      process_all-Sends ids l _ (world-Sends l _ ((process_message-Sends message_id l).at w h))

  -- If Redis holds the state of an execution that was submitted and not started, then however often
  -- its message is delivered and however each processing ends, what was sent to a kernel since is
  -- requests of some of the steps of the command, in the order of the command and one of each at most.
  pub process_all-InOrder :
      (ids : List String) (w : repository.World)
      → Holds repository command.execution_id base (IsSubmitted command.steps) w
      → (front : List Entry) × (sent (process_all repository processor command ids w)
          ≡ sent w ++ front)
        × InOrder IsRequest front command.steps
  process_all-InOrder ids w h = elim (process_all-Sends ids (sent w) w (inl (h, refl))) [
    | inl (_, e) ↦ ([], e ∙ sym (append-nil (sent w)), tt)
    | inr (_, since) ↦ since
  ]
