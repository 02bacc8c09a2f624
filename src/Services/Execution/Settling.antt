-- ===== src/Services/Execution/Settling.antt =====
-- What `execute` leaves behind when it runs one step.
use executor_service.Common.{◌≡◌, sym, subst, ◌∙◌, Bool, true, false, String, List, Option, some}
use executor_service.Errors.{Error, code_execution_error, infrastructure_error}
use executor_service.Action.{Outcome, ok, raised, Action}
use executor_service.Action.Triple.{
  Triple, Triple-pure, Triple-raise, Triple-if, Triple-bind, Triple-weaken,
}
use executor_service.Schemas.Value.{Fields}
use executor_service.Schemas.Command.{ExecutionStep, ExecutionCommand}
use executor_service.Schemas.State.{ExecutionState}
use executor_service.Platform.{Keys}
use executor_service.Repository.{RedisExecutionRepository}
use executor_service.Repository.Store.{after_Now, Holds-mono, At, Holds, Now, At-mono}
use executor_service.Repository.Methods.{
  set_request_msg_id-Triple, mark_step_succeeded-Triple, mark_step_failed-Triple,
}
use executor_service.Services.Execution.{ExecutionService, request_started, settle}
use executor_service.Services.Execution.Progress.{Settled, IsTruthful, Progress, Within}
use executor_service.Services.Execution.Progress.Moves.{
  Progress-to_step_succeeded, Progress-to_step_failed, Settled-to_step_failed,
}
use executor_service.Services.Execution.Progress.Ends.{
  Within-to_requested, Progress-IsTruthful, Within-IsTruthful,
}

module _ (repository : RedisExecutionRepository) (service : ExecutionService repository)
    (command : ExecutionCommand) (base : Keys repository.Payload) where
  open service use {runner}

  abbrev id : String
  id = command.execution_id

  abbrev stop : Bool
  stop = command.stop_on_error

  abbrev Has : (ExecutionState → Type 0) → repository.World → Type 0
  Has P = Holds repository id base P

  abbrev Gives : (ExecutionState → Type 0) → ExecutionState → repository.World → Type 0
  Gives P = Now repository id base P

  -- What every exception leaves.
  abbrev Left : Error → repository.World → Type 0
  Left x = Has IsTruthful

  module _ (flag : Bool) (step : ExecutionStep) (todo : List ExecutionStep) where
    request_started-keeps :
        (message_id : String)
        → Triple
            (Has (Within flag step todo))
            (request_started repository service id message_id)
            (λ _. Has (Within flag step todo))
            (λ _. Has (Within flag step todo))
    unfolding request_started
    request_started-keeps message_id =
        Triple-bind
          (set_request_msg_id-Triple repository id base (λ s p. p) (λ s p. p) message_id
            (λ s now p. Within-to_requested flag step todo s now message_id p))
          (λ s. Triple-pure tt (λ w a. (s, a)))

    pub run-keeps :
        (session : runner.Session)
        → Triple
            (Has (Within flag step todo))
            (runner.run (request_started repository service id) session step)
            (λ _. Has (Within flag step todo))
            (λ _. Has (Within flag step todo))
    run-keeps session =
        runner.run_law
          (λ m. (s : ExecutionState) × At repository id base (Within flag step todo) s m)
          (request_started repository service id) session step request_started-keeps

    module _ (next : Bool → Action repository.World ExecutionState)
        (continues : (b : Bool)
          → (stop ≡ true → b ≡ false)
          → Triple (Has (Progress b todo)) (next b) (Gives (Settled stop)) Left)
        (stops : stop ≡ true → flag ≡ false) where
      settle-ok :
          (result : Fields)
          → Triple
              (Has (Within flag step todo))
              (settle repository service command step next flag (ok result))
              (Gives (Settled stop))
              Left
      unfolding settle
      settle-ok result =
          Triple-bind
            (mark_step_succeeded-Triple repository id base (Within-IsTruthful flag step todo)
              (Progress-IsTruthful flag todo) step.step_id (some result)
              (λ s t now p. Progress-to_step_succeeded flag step todo s t now (some result) p))
            (after_Now repository (continues flag stops))

      -- After a failed step: the loop may go on, and may also end here if the flag is not yet set.
      abbrev Failed : ExecutionState → Type 0
      Failed s = Progress true todo s × (flag ≡ false → Settled true s)

      settle-failed :
          (failed_step error_type message : String) (trace : Option String)
          → Triple
              (Has (Within flag step todo))
              (settle repository service command step next flag
                (raised (code_execution_error failed_step error_type message trace)))
              (Gives (Settled stop))
              Left
      unfolding settle
      settle-failed failed_step error_type message trace =
          Triple-bind
            (mark_step_failed-Triple repository id base {Q = Failed}
              (Within-IsTruthful flag step todo) (λ s q. Progress-IsTruthful true todo s q.0)
              step.step_id error_type message trace
              (λ s now p. (
                Progress-to_step_failed flag step todo s now error_type message trace p,
                λ e.
                    Settled-to_step_failed step todo s now error_type message trace
                      (subst (λ b. Within b step todo s) e p),
              )))
            (λ s.
              Triple-if stop _ _
                (λ e. Triple-pure s (λ w a. At-mono repository (λ q. rw e (q.1 (stops e))) a))
                (λ e.
                  Triple-weaken (continues true (λ e'. sym e' ∙ e))
                    (λ w a. (s, At-mono repository (λ q. q.0) a)) (λ t w q. q) (λ x w q. q)))

      pub settle-settles :
          (outcome : Outcome Fields)
          → Triple
              (Has (Within flag step todo))
              (settle repository service command step next flag outcome)
              (Gives (Settled stop))
              Left
      unfolding settle
      settle-settles (ok result) = settle-ok result
      settle-settles (raised (code_execution_error i t m b)) = settle-failed i t m b
      settle-settles (raised (infrastructure_error message)) =
          Triple-raise _ (λ w h. Holds-mono repository w (Within-IsTruthful flag step todo) h)
      settle-settles (raised _) =
          Triple-raise _ (λ w h. Holds-mono repository w (Within-IsTruthful flag step todo) h)
