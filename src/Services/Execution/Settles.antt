-- ===== src/Services/Execution/Settles.antt =====
-- What `execute` leaves behind when it runs a submitted command.
use executor_service.Common.{
  ◌≡◌, refl, inl, inr, Bool, true, false, String, List, [], ◌∷◌, none, some, Bool-cases,
}
use executor_service.Errors.{Error}
use executor_service.Action.{ok, raised, Action}
use executor_service.Action.Triple.{
  Triple, Post, Triple-pure, Triple-raise, Triple-bind, Triple-weaken, Triple-attempt,
}
use executor_service.Schemas.Command.{ExecutionStep, ExecutionCommand}
use executor_service.Schemas.State.{ExecutionState}
use executor_service.Platform.{Keys}
use executor_service.Repository.{RedisExecutionRepository}
use executor_service.Repository.Store.{
  after_Now, Holds-mono, At, Holds, Now, frame, At-mono, get_required-At,
}
use executor_service.Repository.Methods.{
  mark_running-Triple, bind_jupyter-Triple, mark_step_running-Triple, mark_succeeded-Triple,
}
use executor_service.Services.Execution.{
  ExecutionService, settle, finish, run_steps, leave, within, with_session, start, proceed, execute,
}
use executor_service.Services.Execution.Progress.{Settled, IsTruthful, IsSubmitted, Progress}
use executor_service.Services.Execution.Progress.Moves.{Progress-to_running, Within-to_step_running}
use executor_service.Services.Execution.Progress.Ends.{
  Settled-to_succeeded, Settled-of_Progress, Progress-to_bound, Progress-IsTruthful,
  Within-IsTruthful, IsSubmitted-IsTruthful, Settled-IsTruthful,
}
use executor_service.Services.Execution.Settling.{run-keeps, settle-settles}

module _ (repository : RedisExecutionRepository) (service : ExecutionService repository)
    (command : ExecutionCommand) (base : Keys repository.Payload) where
  open service use {runner}

  abbrev id : String
  id = command.execution_id

  abbrev stop : Bool
  stop = command.stop_on_error

  abbrev Has : (ExecutionState → Type 0) → repository.World → Type 0
  Has P = Holds repository id base P

  abbrev Gives : (ExecutionState → Type 0) → ExecutionState → repository.World → Type 0
  Gives P = Now repository id base P

  -- What every exception leaves.
  abbrev Left : Error → repository.World → Type 0
  Left x = Has IsTruthful

  finish-settles :
      (flag : Bool)
      → (stop ≡ true → flag ≡ false)
      → Triple
          (Has (Progress flag []))
          (finish repository service id flag)
          (Gives (Settled stop))
          Left
  unfolding finish
  finish-settles true stops =
      Triple-weaken (get_required-At repository id base (Progress true [])) (λ w h. h)
        (λ s w a.
          At-mono repository
            (λ p. elim (Bool-cases stop) [
              | inl e ↦ cc (stops e)
              | inr e ↦ rw e (Settled-of_Progress s p)
            ])
            a)
        (λ x w h. Holds-mono repository w (Progress-IsTruthful true []) h)
  finish-settles false stops =
      mark_succeeded-Triple repository id base (Progress-IsTruthful false [])
        (Settled-IsTruthful stop) none (λ s now p. Settled-to_succeeded stop s now none p)

  run_steps-settles :
      (session : runner.Session) (todo : List ExecutionStep) (flag : Bool)
      → (stop ≡ true → flag ≡ false)
      → Triple
          (Has (Progress flag todo))
          (run_steps repository service command session todo flag)
          (Gives (Settled stop))
          Left
  unfolding run_steps
  run_steps-settles session [] flag stops = finish-settles flag stops
  run_steps-settles session (step ∷ todo) flag stops =
      Triple-bind
        (mark_step_running-Triple repository id base (Progress-IsTruthful flag (step ∷ todo))
          (Within-IsTruthful flag step todo) step.step_id
          (λ s started_at now p. Within-to_step_running flag step todo s started_at now p))
        (after_Now repository (
          Triple-attempt
            (settle repository service command step
              (run_steps repository service command session todo) flag)
            (run-keeps repository service command base flag step todo session)
            (λ result.
              settle-settles repository service command base flag step todo _
                (run_steps-settles session todo) stops (ok result))
            (λ x.
              settle-settles repository service command base flag step todo _
                (run_steps-settles session todo) stops (raised x))))

  with_session-settles :
      (session : runner.Session)
      → Triple
          (Has (Progress false command.steps))
          (with_session repository service command session)
          (Gives (Settled stop))
          Left
  unfolding with_session
  with_session-settles session =
      let info = runner.session_info session in
      Triple-bind
        (bind_jupyter-Triple repository id base (Progress-IsTruthful false command.steps)
          (Progress-IsTruthful false command.steps) info.target info.session_id info.kernel_id
          (λ s now p. Progress-to_bound false command.steps s now _ _ _ p))
        (after_Now repository (run_steps-settles session command.steps false (λ e. refl)))

  within-settles :
      (kernel_name : String) (P : ExecutionState → Type 0)
      (body : runner.Session → Action repository.World ExecutionState)
      → ((s : ExecutionState) → P s → IsTruthful s)
      → ((session : runner.Session) → Triple (Has P) (body session) (Gives (Settled stop)) Left)
      → Triple (Has P) (within repository service id kernel_name body) (Gives (Settled stop)) Left
  unfolding within
  within-settles kernel_name P body truthful t =
      Triple-bind
        (Triple-weaken
          (frame repository (λ m. (s : ExecutionState) × At repository id base P s m)
            (runner.open_session_law id kernel_name))
          (λ w h. h) (λ s w h. h) (λ x w h. Holds-mono repository w truthful h))
        (λ session.
          Triple-attempt (leave repository service session) (t session)
            (λ s.
              Triple-bind
                (Triple-weaken
                  (frame repository (At repository id base (Settled stop) s)
                    (runner.close_law session none))
                  (λ w a. a) (λ v w a. a)
                  (λ x w a. (s, At-mono repository (Settled-IsTruthful stop s) a)))
                (λ _. Triple-pure s (λ w a. a)))
            (λ x.
              Triple-bind
                (frame repository (λ m. (s : ExecutionState) × At repository id base IsTruthful s m)
                  (runner.close_law session (some x)))
                (λ _. Triple-raise x (λ w h. h))))

  start-settles :
      Triple
        (Has (IsSubmitted command.steps))
        (start repository service command)
        (Gives (Settled stop))
        Left
  unfolding start
  start-settles =
      Triple-bind
        (mark_running-Triple repository id base (IsSubmitted-IsTruthful command.steps)
          (Progress-IsTruthful false command.steps) service.executor_id
          (λ s now p. Progress-to_running command.steps s now service.executor_id p))
        (after_Now repository (
          within-settles _ (Progress false command.steps) _
            (Progress-IsTruthful false command.steps) with_session-settles))

  proceed-settles :
      (s : ExecutionState)
      → Triple
          (Gives (IsSubmitted command.steps) s)
          (proceed repository service command s)
          (Gives (Settled stop))
          Left
  unfolding proceed
  proceed-settles s = record { at = λ w a. rw (a.holds.status) (start-settles.at w (s, a)) }

  pub execute-Triple :
      Triple
        (Has (IsSubmitted command.steps))
        (execute repository service command)
        (Gives (Settled stop))
        Left
  unfolding execute
  execute-Triple =
      Triple-bind
        (Triple-weaken (get_required-At repository id base (IsSubmitted command.steps)) (λ w h. h)
          (λ s w a. a) (λ x w h. Holds-mono repository w (IsSubmitted-IsTruthful command.steps) h))
        proceed-settles

  -- If Redis holds the state of an execution that was submitted and not started, then `execute`
  -- either returns a settled state, which Redis holds: all steps succeeded and so did the
  -- execution, or the execution failed, and with `stop_on_error` no step after the first failed
  -- one was started, without it all steps are done and some failed. Or it raises, and the state
  -- that Redis holds is truthful: a terminal status has its reason among the steps, and its time.
  pub execute-settles :
      (w : repository.World)
      → Holds repository command.execution_id base (IsSubmitted command.steps) w
      → Post
          (Now repository command.execution_id base (Settled command.stop_on_error))
          (λ _. Holds repository command.execution_id base IsTruthful)
          (execute repository service command w)
  execute-settles w h = execute-Triple.at w h
