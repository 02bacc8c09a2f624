-- ===== src/Services/Execution/Progress.antt =====
-- How far an execution has come, as its stored state shows it: steps that are done, the step that
-- runs, and steps that wait.
pub mod Initial
pub mod Moves
pub mod Ends
use executor_service.Common.{
  ℕ, ◌≡◌, refl, ◌⊎◌, inl, inr, ◌∙◌, ap, Bool, true, false, String, List, [], ◌∷◌, ◌++◌, Option,
  arith, str_eq, eq_iff, eq_refl, is_some, All, if◌then◌else◌,
}
use executor_service.Schemas.Command.{ExecutionStep}
use executor_service.Schemas.Command.Unique.{Distinct}
use executor_service.Schemas.State.{ExecutionStatus, StepStatus, StepExecutionState, ExecutionState}
use executor_service.Repository.Transitions.{update_step}

abbrev pub IsPending : StepExecutionState → Type 0
IsPending x = x.status ≡ StepStatus.pending

abbrev pub IsSucceeded : StepExecutionState → Type 0
IsSucceeded x = x.status ≡ StepStatus.succeeded

abbrev pub IsFailed : StepExecutionState → Type 0
IsFailed x = x.status ≡ StepStatus.failed

abbrev pub IsDone : StepExecutionState → Type 0
IsDone x = IsSucceeded x ⊎ IsFailed x

abbrev pub Any : (StepExecutionState → Type 0) → List StepExecutionState → Type 0
Any P [] = ⊥
Any P (x ∷ xs) = P x ⊎ Any P xs

-- The recorded steps wait for the steps of the command, one for one.
abbrev pub Awaits : List StepExecutionState → List ExecutionStep → Type 0
Awaits [] [] = Unit
Awaits [] (t ∷ ts) = ⊥
Awaits (x ∷ xs) [] = ⊥
Awaits (x ∷ xs) (t ∷ ts) = (x.step_id ≡ t.step_id) × IsPending x × Awaits xs ts

-- No recorded step has the id.
abbrev pub Apart : String → List StepExecutionState → Type 0
Apart id = All (λ x. str_eq x.step_id id ≡ false)

-- All went well, up to the first failure, after which nothing was started.
abbrev pub StoppedAt : List StepExecutionState → Type 0
StoppedAt [] = ⊥
StoppedAt (x ∷ xs) = (IsSucceeded x × StoppedAt xs) ⊎ (IsFailed x × All IsPending xs)

-- What the steps are when an execution has ended with a status; the flag is `stop_on_error`.
abbrev pub Verdict : Bool → ExecutionStatus → List StepExecutionState → Type 0
Verdict stop ExecutionStatus.succeeded xs = All IsSucceeded xs
Verdict true ExecutionStatus.failed xs = StoppedAt xs
Verdict false ExecutionStatus.failed xs = All IsDone xs × Any IsFailed xs
Verdict stop _ xs = ⊥

pub record Settled (stop : Bool) (s : ExecutionState) : Type 0 where
  pub verdict : Verdict stop s.status s.steps
  pub completed : is_some s.completed_at ≡ true

-- A status that is terminal has its reason among the steps, at every moment.
abbrev pub Reason : ExecutionStatus → List StepExecutionState → Type 0
Reason ExecutionStatus.succeeded xs = All IsSucceeded xs
Reason ExecutionStatus.failed xs = Any IsFailed xs
Reason _ xs = Unit

-- A status that is terminal has the time of its completion.
abbrev pub Dated : ExecutionStatus → Option ℕ → Type 0
Dated ExecutionStatus.succeeded completed_at = is_some completed_at ≡ true
Dated ExecutionStatus.failed completed_at = is_some completed_at ≡ true
Dated _ completed_at = Unit

abbrev pub IsTruthful : ExecutionState → Type 0
IsTruthful s = Reason s.status s.steps × Dated s.status s.completed_at

-- A command that was accepted and not yet started.
pub record IsSubmitted (todo : List ExecutionStep) (s : ExecutionState) : Type 0 where
  pub status : s.status ≡ ExecutionStatus.queued
  pub waiting : Awaits s.steps todo
  pub distinct : Distinct todo

-- The steps that are done; the flag is `has_failed_step`.
abbrev pub Front : Bool → List StepExecutionState → Type 0
Front false xs = All IsSucceeded xs
Front true xs = All IsDone xs × Any IsFailed xs

abbrev pub Status : Bool → ExecutionStatus → Option ℕ → Type 0
Status false status completed_at = status ≡ ExecutionStatus.running
Status true status completed_at = (status ≡ ExecutionStatus.failed) × (is_some completed_at ≡ true)

-- Between two steps.
pub record Progress (has_failed : Bool) (todo : List ExecutionStep) (s : ExecutionState)
    : Type 0 where
  pub front : List StepExecutionState
  pub back : List StepExecutionState
  pub split : s.steps ≡ front ++ back
  pub done : Front has_failed front
  pub waiting : Awaits back todo
  pub apart : All (λ (t : ExecutionStep). Apart t.step_id front) todo
  pub distinct : Distinct todo
  pub status : Status has_failed s.status s.completed_at

-- While a step runs.
pub record Within (has_failed : Bool) (step : ExecutionStep) (todo : List ExecutionStep)
    (s : ExecutionState) : Type 0 where
  pub front : List StepExecutionState
  pub current : StepExecutionState
  pub back : List StepExecutionState
  pub split : s.steps ≡ front ++ (current ∷ back)
  pub done : Front has_failed front
  pub named : current.step_id ≡ step.step_id
  pub waiting : Awaits back todo
  pub apart : All (λ (t : ExecutionStep). Apart t.step_id front) (step ∷ todo)
  pub distinct : Distinct (step ∷ todo)
  pub status : Status has_failed s.status s.completed_at

pub update_step-middle :
    (id : String) (change : StepExecutionState → StepExecutionState)
    (front : List StepExecutionState) (x : StepExecutionState) (back : List StepExecutionState)
    → Apart id front
    → x.step_id ≡ id
    → update_step id change (front ++ (x ∷ back)) ≡ front ++ (change x ∷ back)
unfolding update_step
update_step-middle id change [] x back a e = rw (e, eq_refl id)
update_step-middle id change (y ∷ front) x back a e =
    rw (a.0, update_step-middle id change front x back a.1 e)

module _ (P : StepExecutionState → Type 0) where
  pub All-append : (xs ys : List StepExecutionState) → All P xs → All P ys → All P (xs ++ ys)
  All-append [] ys hx hy = hy
  All-append (x ∷ xs) ys hx hy = (hx.0, All-append xs ys hx.1 hy)

  pub Any-append_left : (xs ys : List StepExecutionState) → Any P xs → Any P (xs ++ ys)
  Any-append_left [] ys h = absurd h
  Any-append_left (x ∷ xs) ys (inl h) = inl h
  Any-append_left (x ∷ xs) ys (inr h) = inr (Any-append_left xs ys h)

  pub Any-append_middle :
      (xs : List StepExecutionState) (x : StepExecutionState) (ys : List StepExecutionState)
      → P x
      → Any P (xs ++ (x ∷ ys))
  Any-append_middle [] x ys h = inl h
  Any-append_middle (y ∷ xs) x ys h = inr (Any-append_middle xs x ys h)
