-- ===== src/Services/Execution/Recorder.antt =====
-- The record of the requests that were sent to a kernel, and what a runner adds to it.
use executor_service.Common.{◌≡◌, ◌⊎◌, inr, Bool, true, false, String, List, [], ◌∷◌, ◌++◌, Option}
use executor_service.Errors.{Error}
use executor_service.Action.{Action}
use executor_service.Action.Triple.{Triple, Keeps}
use executor_service.Schemas.Command.{ExecutionStep}
use executor_service.Schemas.State.{ExecutionStatus, ExecutionState}
use executor_service.Repository.{RedisExecutionRepository}
use executor_service.Repository.Aside.{Aside}
use executor_service.Services.Execution.{ExecutionService}

abbrev pub is_queued : ExecutionStatus → Bool
is_queued ExecutionStatus.queued = true
is_queued _ = false

-- The execution has been taken up.
abbrev pub IsTaken : ExecutionState → Type 0
IsTaken s = is_queued s.status ≡ false

module _ {Entry : Type 0} (IsRequest : ExecutionStep → Entry → Type 0) where
  -- The entries are requests of some of the steps, in the steps' order, one of each step at most.
  abbrev pub InOrder : List Entry → List ExecutionStep → Type 0
  InOrder [] steps = Unit {0}
  InOrder (x ∷ xs) [] = ⊥
  InOrder (x ∷ xs) (t ∷ ts) = (IsRequest t x × InOrder xs ts) ⊎ InOrder (x ∷ xs) ts

  pub InOrder-later :
      (xs : List Entry) (t : ExecutionStep) (ts : List ExecutionStep)
      → InOrder xs ts
      → InOrder xs (t ∷ ts)
  InOrder-later [] t ts h = tt
  InOrder-later (x ∷ xs) t ts h = inr h

-- `sent` is the record of the requests that were sent to a kernel. Only a runner's `run` adds to it,
-- one request of its step at most, and one if it returns.
pub record Recorder (r : RedisExecutionRepository) (service : ExecutionService r) : Type 1 where
  pub Entry : Type 0
  pub IsRequest : ExecutionStep → Entry → Type 0
  pub sent : r.World → List Entry
  pub aside : (l : List Entry) → Aside r (λ w. sent w ≡ l)
  pub open_aside :
      (execution_id kernel_name : String) (l : List Entry)
      → Keeps (λ w. sent w ≡ l) (service.runner.open_session execution_id kernel_name)
  pub close_aside :
      (session : service.runner.Session) (x : Option Error) (l : List Entry)
      → Keeps (λ w. sent w ≡ l) (service.runner.close session x)
  pub run_sends :
      (on_request_started : String → Action r.World (Unit {0})) (session : service.runner.Session)
      (step : ExecutionStep) (l : List Entry)
      → ((id : String) → Keeps (λ w. sent w ≡ l) (on_request_started id))
      → Triple
          (λ w. sent w ≡ l)
          (service.runner.run on_request_started session step)
          (λ _ w. (x : Entry) × IsRequest step x × (sent w ≡ l ++ (x ∷ [])))
          (λ _ w. (sent w ≡ l) ⊎ ((x : Entry) × IsRequest step x × (sent w ≡ l ++ (x ∷ []))))
