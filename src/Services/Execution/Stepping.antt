-- ===== src/Services/Execution/Stepping.antt =====
-- One step of `execute` where nothing fails.
use executor_service.Common.{◌≡◌, false, String, List, [], ◌∷◌, ◌++◌, none, some, eq_refl}
use executor_service.Action.{Action}
use executor_service.Action.Triple.{
  Triple, Returns, Triple-pure, Triple-bind, Triple-weaken, Triple-sure,
}
use executor_service.Schemas.Command.{ExecutionStep, ExecutionCommand}
use executor_service.Schemas.State.{StepExecutionState, ExecutionState}
use executor_service.Platform.{Keys}
use executor_service.Repository.{RedisExecutionRepository}
use executor_service.Repository.Transitions.{step_with}
use executor_service.Repository.Store.{At, Holds}
use executor_service.Repository.Methods.{set_request_msg_id-Triple}
use executor_service.Repository.Reliable.{Reliable, set_request_msg_id-Returns}
use executor_service.Services.Execution.{ExecutionService, request_started}
use executor_service.Services.Execution.Runner.{ExecutionRunner}
use executor_service.Services.Execution.Progress.{Progress, Within, Apart, Awaits}
use executor_service.Services.Execution.Progress.Ends.{Within-to_requested}

-- A session opens and closes, and a step that is run returns if its callback does.
pub record Smooth (r : RedisExecutionRepository) (runner : ExecutionRunner r) : Type 1 where
  pub open_returns :
      (execution_id kernel_name : String)
      → Returns (λ _. Unit {0}) (runner.open_session execution_id kernel_name)
  pub close_returns :
      (session : runner.Session) → Returns (λ _. Unit {0}) (runner.close session none)
  pub run_returns :
      (P : Keys r.Payload → Type 0) (on_request_started : String → Action r.World (Unit {0}))
      (session : runner.Session) (step : ExecutionStep)
      → ((message_id : String)
          → Triple
              (λ w. P (r.stored w))
              (on_request_started message_id)
              (λ _ w. P (r.stored w))
              (λ _ _. ⊥))
      → Returns (λ w. P (r.stored w)) (runner.run on_request_started session step)

step_with-middle :
    (id : String) (front : List StepExecutionState) (x : StepExecutionState)
    (back : List StepExecutionState)
    → Apart id front
    → x.step_id ≡ id
    → step_with id (front ++ (x ∷ back)) ≡ some x
unfolding step_with
step_with-middle id [] x back a e = rw (e, eq_refl id)
step_with-middle id (y ∷ front) x back a e = rw (a.0, step_with-middle id front x back a.1 e)

module _ (repository : RedisExecutionRepository) (service : ExecutionService repository)
    (reliable : Reliable repository) (smooth : Smooth repository service.runner)
    (command : ExecutionCommand) (base : Keys repository.Payload) where
  open service use {runner}

  abbrev id : String
  id = command.execution_id

  abbrev Has : (ExecutionState → Type 0) → repository.World → Type 0
  Has P = Holds repository id base P

  module _ (step : ExecutionStep) (todo : List ExecutionStep) where
    pub known_first :
        (s : ExecutionState)
        → Progress false (step ∷ todo) s
        → (x : StepExecutionState) × (step_with step.step_id s.steps ≡ some x)
    known_first s h = go h.back h.split h.waiting
      where
        go :
            (back : List StepExecutionState)
            → s.steps ≡ h.front ++ back
            → Awaits back (step ∷ todo)
            → (x : StepExecutionState) × (step_with step.step_id s.steps ≡ some x)
        go [] e w = absurd w
        go (x ∷ back) e w = (x, rw e (step_with-middle step.step_id h.front x back h.apart.0 w.0))

    pub known_current :
        (s : ExecutionState)
        → Within false step todo s
        → (x : StepExecutionState) × (step_with step.step_id s.steps ≡ some x)
    known_current s h = (
      h.current,
      rw (h.split) (step_with-middle step.step_id h.front h.current h.back h.apart.0 h.named),
    )

    request_started-sure :
        (message_id : String)
        → Triple
            (Has (Within false step todo))
            (request_started repository service id message_id)
            (λ _. Has (Within false step todo))
            (λ _ _. ⊥)
    unfolding request_started
    request_started-sure message_id =
        Triple-bind
          (Triple-sure
            (set_request_msg_id-Triple repository id base {R = λ _. Unit {0}} (λ s p. tt)
              (λ s p. tt) message_id
              (λ s now p. Within-to_requested false step todo s now message_id p))
            (set_request_msg_id-Returns repository reliable id base _ message_id))
          (λ s. Triple-pure tt (λ w a. (s, a)))

    pub run-sure :
        (session : runner.Session)
        → Triple
            (Has (Within false step todo))
            (runner.run (request_started repository service id) session step)
            (λ _. Has (Within false step todo))
            (λ _ _. ⊥)
    run-sure session =
        Triple-sure
          (runner.run_law
            (λ m. (s : ExecutionState) × At repository id base (Within false step todo) s m)
            (request_started repository service id) session step
            (λ message_id.
              Triple-weaken (request_started-sure message_id) (λ w h. h) (λ _ w h. h)
                (λ x w h. elim h [ ])))
          (smooth.run_returns
            (λ m. (s : ExecutionState) × At repository id base (Within false step todo) s m)
            (request_started repository service id) session step request_started-sure)
