-- ===== src/Services/Processor/Recovery.antt =====
-- A message whose execution is running or has ended, and the execution service.
use executor_service.Common.{◌≡◌, refl, ◌⊎◌, inl, inr, true, String}
use executor_service.Action.{Action, ◌>>=◌}
use executor_service.Action.Triple.{continue-cong}
use executor_service.Schemas.Command.{ExecutionCommand}
use executor_service.Schemas.State.{ExecutionState, is_terminal}
use executor_service.Platform.{Keys}
use executor_service.Repository.{RedisExecutionRepository, get_required}
use executor_service.Services.Callback.{deliver}
use executor_service.Repository.Store.{Holds, Now, get_required-At}
use executor_service.Services.Execution.{ExecutionService}
use executor_service.Services.Processor.{ExecutionProcessor, recover_running, choose, execute}
use executor_service.Services.Processor.Cases.{IsStarted, choose-running, choose-terminal}

abbrev pub IsBegun : ExecutionState → Type 0
IsBegun s = IsStarted s ⊎ (is_terminal s ≡ true)

module _ (repository : RedisExecutionRepository) (processor : ExecutionProcessor repository)
    (other : ExecutionService repository) where
  abbrev pub changed : ExecutionProcessor repository
  changed = record processor { execution_service = other }

  recover_running-changed :
      (id : String)
      → recover_running repository changed id ≡ recover_running repository processor id
  unfolding recover_running
  recover_running-changed id = refl

  choose-changed :
      (command : ExecutionCommand) (s : ExecutionState)
      → IsBegun s
      → choose repository changed command s ≡ choose repository processor command s
  choose-changed command s (inl e) =
      rw
        (
          choose-running repository changed command s e,
          choose-running repository processor command s e,
        )
        (recover_running-changed s.execution_id)
  choose-changed command s (inr e) = rw (
    choose-terminal repository changed command s e,
    choose-terminal repository processor command s e,
  )

  -- What the processor does after it has loaded the state.
  after_load :
      ExecutionProcessor repository
      → ExecutionCommand
      → ExecutionState
      → Action repository.World ExecutionState
  after_load p command s = do
    state ← choose repository p command s
    deliver repository p.callback_service state

  -- Where the stored execution is running or has ended, the processor does the same, to the last
  -- effect, whatever execution service it is given: it opens no session and runs no step.
  pub execute_again :
      (base : Keys repository.Payload) (command : ExecutionCommand) (w : repository.World)
      → Holds repository command.execution_id base IsBegun w
      → execute repository changed command w ≡ execute repository processor command w
  unfolding execute after_load
  execute_again base command w h =
      continue-cong {Q = Now repository command.execution_id base IsBegun}
        (λ x. Holds repository command.execution_id base IsBegun) (after_load changed command)
        (after_load processor command) (get_required repository command.execution_id w)
        ((get_required-At repository command.execution_id base IsBegun).at w h)
        (λ s w' a. rw (choose-changed command s a.holds))
