-- ===== src/Services/Execution/Succeeds.antt =====
-- `execute` where nothing fails.
use executor_service.Common.{
  ◌≡◌, refl, true, false, String, List, [], ◌∷◌, none, some, All, is_some,
}
use executor_service.Action.Triple.{
  Triple, Post, Triple-pure, Triple-bind, Triple-attempt, Triple-sure, Returns-weaken,
}
use executor_service.Schemas.Command.{ExecutionStep, ExecutionCommand}
use executor_service.Schemas.State.{ExecutionStatus, ExecutionState}
use executor_service.Platform.{Keys}
use executor_service.Repository.{RedisExecutionRepository}
use executor_service.Repository.Store.{after_Now, At, Holds, Now, frame}
use executor_service.Repository.Methods.{
  mark_running-Triple, bind_jupyter-Triple, mark_step_running-Triple, mark_step_succeeded-Triple,
  mark_succeeded-Triple,
}
use executor_service.Repository.Reliable.{
  Reliable, get_required-sure, mark_running-Returns, bind_jupyter-Returns,
  mark_step_running-Returns, mark_step_succeeded-Returns, mark_succeeded-Returns,
}
use executor_service.Services.Execution.{
  ExecutionService, settle, finish, run_steps, leave, resolve, within, with_session, start, proceed,
  execute,
}
use executor_service.Services.Execution.Progress.{IsSucceeded, IsSubmitted, Progress}
use executor_service.Services.Execution.Progress.Moves.{
  Progress-to_running, Within-to_step_running, Progress-to_step_succeeded,
}
use executor_service.Services.Execution.Progress.Ends.{Settled-to_succeeded, Progress-to_bound}
use executor_service.Services.Execution.Stepping.{Smooth, known_first, known_current, run-sure}

-- All steps succeeded, and so did the execution.
pub record HasSucceeded (s : ExecutionState) : Type 0 where
  pub status : s.status ≡ ExecutionStatus.succeeded
  pub each : All IsSucceeded s.steps
  pub completed : is_some s.completed_at ≡ true

module _ (repository : RedisExecutionRepository) (service : ExecutionService repository)
    (reliable : Reliable repository) (smooth : Smooth repository service.runner)
    (command : ExecutionCommand) (base : Keys repository.Payload) where
  open service use {runner}

  abbrev id : String
  id = command.execution_id

  abbrev Has : (ExecutionState → Type 0) → repository.World → Type 0
  Has P = Holds repository id base P

  abbrev Gives : (ExecutionState → Type 0) → ExecutionState → repository.World → Type 0
  Gives P = Now repository id base P

  finish-succeeds :
      Triple
        (Has (Progress false []))
        (finish repository service id false)
        (Gives HasSucceeded)
        (λ _ _. ⊥)
  unfolding finish
  finish-succeeds =
      Triple-sure
        (mark_succeeded-Triple repository id base {R = λ _. Unit {0}} (λ s p. tt) (λ s p. tt) none
          (λ s now p. record {
            status = refl;
            each = (Settled-to_succeeded false s now none p).verdict;
            completed = refl;
          }))
        (mark_succeeded-Returns repository reliable id base (Progress false []) none)

  run_steps-succeeds :
      (session : runner.Session) (todo : List ExecutionStep)
      → Triple
          (Has (Progress false todo))
          (run_steps repository service command session todo false)
          (Gives HasSucceeded)
          (λ _ _. ⊥)
  unfolding run_steps settle
  run_steps-succeeds session [] = finish-succeeds
  run_steps-succeeds session (step ∷ todo) =
      Triple-bind
        (Triple-sure
          (mark_step_running-Triple repository id base {R = λ _. Unit {0}} (λ s p. tt) (λ s p. tt)
            step.step_id
            (λ s started_at now p. Within-to_step_running false step todo s started_at now p))
          (mark_step_running-Returns repository reliable id base _ step.step_id
            (known_first repository service reliable smooth command base step todo)))
        (after_Now repository (
          Triple-attempt
            (settle repository service command step
              (run_steps repository service command session todo) false)
            (run-sure repository service reliable smooth command base step todo session)
            (λ result.
              Triple-bind
                (Triple-sure
                  (mark_step_succeeded-Triple repository id base {R = λ _. Unit {0}} (λ s p. tt)
                    (λ s p. tt) step.step_id (some result)
                    (λ s t now p.
                      Progress-to_step_succeeded false step todo s t now (some result) p))
                  (mark_step_succeeded-Returns repository reliable id base _ step.step_id
                    (known_current repository service reliable smooth command base step todo)
                    (some result)))
                (after_Now repository (run_steps-succeeds session todo)))
            (λ x. record { at = λ w p. elim p [ ] })))

  with_session-succeeds :
      (session : runner.Session)
      → Triple
          (Has (Progress false command.steps))
          (with_session repository service command session)
          (Gives HasSucceeded)
          (λ _ _. ⊥)
  unfolding with_session
  with_session-succeeds session =
      let info = runner.session_info session in
      Triple-bind
        (Triple-sure
          (bind_jupyter-Triple repository id base {R = λ _. Unit {0}} (λ s p. tt) (λ s p. tt)
            info.target info.session_id info.kernel_id
            (λ s now p. Progress-to_bound false command.steps s now _ _ _ p))
          (bind_jupyter-Returns repository reliable id base _ info.target info.session_id
            info.kernel_id))
        (after_Now repository (run_steps-succeeds session command.steps))

  within-succeeds :
      (kernel_name : String)
      → Triple
          (Has (Progress false command.steps))
          (within repository service id kernel_name (with_session repository service command))
          (Gives HasSucceeded)
          (λ _ _. ⊥)
  unfolding within leave resolve
  within-succeeds kernel_name =
      Triple-bind
        (Triple-sure
          (frame repository
            (λ m. (s : ExecutionState) × At repository id base (Progress false command.steps) s m)
            (runner.open_session_law id kernel_name))
          (Returns-weaken (λ w p. tt) (smooth.open_returns id kernel_name)))
        (λ session.
          Triple-attempt (leave repository service session) (with_session-succeeds session)
            (λ s.
              Triple-bind
                (Triple-sure
                  (frame repository (At repository id base HasSucceeded s)
                    (runner.close_law session none))
                  (Returns-weaken (λ w p. tt) (smooth.close_returns session)))
                (λ _. Triple-pure s (λ w a. a)))
            (λ x. record { at = λ w p. elim p [ ] }))

  start-succeeds :
      Triple
        (Has (IsSubmitted command.steps))
        (start repository service command)
        (Gives HasSucceeded)
        (λ _ _. ⊥)
  unfolding start
  start-succeeds =
      Triple-bind
        (Triple-sure
          (mark_running-Triple repository id base {R = λ _. Unit {0}} (λ s p. tt) (λ s p. tt)
            service.executor_id
            (λ s now p. Progress-to_running command.steps s now service.executor_id p))
          (mark_running-Returns repository reliable id base _ service.executor_id))
        (after_Now repository (within-succeeds _))

  proceed-succeeds :
      (s : ExecutionState)
      → Triple
          (Gives (IsSubmitted command.steps) s)
          (proceed repository service command s)
          (Gives HasSucceeded)
          (λ _ _. ⊥)
  unfolding proceed
  proceed-succeeds s = record { at = λ w a. rw (a.holds.status) (start-succeeds.at w (s, a)) }

  -- If the GET and SET of Redis return, if sessions open and close, if every step that is run returns
  -- when its callback does, and if Redis holds the state of an execution that was submitted and not
  -- started, then `execute` returns a state that Redis holds, in which every step succeeded and so
  -- did the execution.
  pub execute-succeeds :
      (w : repository.World)
      → Holds repository command.execution_id base (IsSubmitted command.steps) w
      → Post
          (Now repository command.execution_id base HasSucceeded)
          (λ _ _. ⊥)
          (execute repository service command w)
  unfolding execute
  execute-succeeds w h =
      let t : Triple (Has (IsSubmitted command.steps)) (execute repository service command)
          (Gives HasSucceeded) (λ _ _. ⊥) =
        Triple-bind (get_required-sure repository reliable id base _) proceed-succeeds in
      t.at w h
