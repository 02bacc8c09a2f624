-- ===== src/Services/Execution/Progress/Initial.antt =====
-- The state that a submission stores.
use executor_service.Common.{ℕ, suc, ◌≡◌, refl, some, List, [], ◌∷◌}
use executor_service.Schemas.Command.{ExecutionStep, ExecutionCommand, validate}
use executor_service.Schemas.Command.Unique.{validate-Distinct}
use executor_service.Repository.Transitions.{initial_steps, build_initial_state}
use executor_service.Services.Execution.Progress.{Awaits, IsSubmitted}

initial_steps-Awaits : (i : ℕ) (todo : List ExecutionStep) → Awaits (initial_steps i todo) todo
unfolding initial_steps
initial_steps-Awaits i [] = tt
initial_steps-Awaits i (t ∷ todo) = (refl, refl, initial_steps-Awaits (suc i) todo)

-- What is built for a validated command waits for just its steps, whose ids are distinct.
pub build_initial_state-IsSubmitted :
    (now : ℕ) (c d : ExecutionCommand)
    → validate c ≡ some d
    → IsSubmitted d.steps (build_initial_state now d)
unfolding build_initial_state
build_initial_state-IsSubmitted now c d h = record {
  status = refl;
  waiting = initial_steps-Awaits 1 d.steps;
  distinct = (validate-Distinct c d h).2;
}
