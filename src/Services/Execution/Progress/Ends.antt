-- ===== src/Services/Execution/Progress/Ends.antt =====
-- How an execution ends, and what is so of it at every moment.
use executor_service.Common.{
  ℕ, ◌≡◌, refl, inl, inr, ◌∙◌, Bool, true, false, String, List, [], ◌∷◌, ◌++◌, Option, is_some, All,
}
use mathlib.Core.List.{append-nil}
use executor_service.Schemas.Value.{Fields}
use executor_service.Schemas.Command.{ExecutionStep}
use executor_service.Schemas.State.{ExecutionStatus, StepExecutionState, ExecutionState}
use executor_service.Repository.Transitions.{to_succeeded, to_requested, to_bound}
use executor_service.Services.Execution.Progress.{
  IsSucceeded, IsFailed, Any, Awaits, StoppedAt, Verdict, Settled, IsTruthful, Dated, Reason,
  IsSubmitted, Front, Status, Progress, Within, Any-append_left,
}

-- With no step left.
steps-finished : (flag : Bool) (s : ExecutionState) (h : Progress flag [] s) → s.steps ≡ h.front
steps-finished flag s h = go h.back h.split h.waiting
  where
    go :
        (back : List StepExecutionState)
        → s.steps ≡ h.front ++ back
        → Awaits back []
        → s.steps ≡ h.front
    go [] e w = e ∙ append-nil h.front
    go (x ∷ back) e w = absurd w

Verdict-succeeded :
    (stop : Bool) (xs : List StepExecutionState)
    → All IsSucceeded xs
    → Verdict stop ExecutionStatus.succeeded xs
Verdict-succeeded true xs h = h
Verdict-succeeded false xs h = h

pub Settled-to_succeeded :
    (stop : Bool) (s : ExecutionState) (now : ℕ) (result : Option Fields)
    → Progress false [] s
    → Settled stop (to_succeeded now result s)
Settled-to_succeeded stop s now result h = record {
  verdict = Verdict-succeeded stop s.steps (rw (steps-finished false s h) h.done);
  completed = refl;
}

pub Settled-of_Progress : (s : ExecutionState) → Progress true [] s → Settled false s
Settled-of_Progress s h = record {
  verdict = rw (h.status.0, steps-finished true s h) h.done;
  completed = h.status.1;
}

pub Within-to_requested :
    (flag : Bool) (step : ExecutionStep) (todo : List ExecutionStep) (s : ExecutionState) (now : ℕ)
    (message_id : String)
    → Within flag step todo s
    → Within flag step todo (to_requested now message_id s)
Within-to_requested flag step todo s now message_id h = record {
  front = h.front;
  current = h.current;
  back = h.back;
  split = h.split;
  done = h.done;
  named = h.named;
  waiting = h.waiting;
  apart = h.apart;
  distinct = h.distinct;
  status = h.status;
}

pub Progress-to_bound :
    (flag : Bool) (todo : List ExecutionStep) (s : ExecutionState) (now : ℕ)
    (target session_id kernel_id : String)
    → Progress flag todo s
    → Progress flag todo (to_bound now target session_id kernel_id s)
Progress-to_bound flag todo s now target session_id kernel_id h = record {
  front = h.front;
  back = h.back;
  split = h.split;
  done = h.done;
  waiting = h.waiting;
  apart = h.apart;
  distinct = h.distinct;
  status = h.status;
}

-- At none of these points does the status say more than the steps do.
IsTruthful-of_Status :
    (flag : Bool) (s : ExecutionState) (front rest : List StepExecutionState)
    → Status flag s.status s.completed_at
    → s.steps ≡ front ++ rest
    → Front flag front
    → IsTruthful s
IsTruthful-of_Status false s front rest h e d = rw h (tt, tt)
IsTruthful-of_Status true s front rest h e d =
    rw (h.0, e) (Any-append_left IsFailed front rest d.1, h.1)

pub Progress-IsTruthful :
    (flag : Bool) (todo : List ExecutionStep) (s : ExecutionState)
    → Progress flag todo s
    → IsTruthful s
Progress-IsTruthful flag todo s h =
    IsTruthful-of_Status flag s h.front h.back h.status h.split h.done

pub Within-IsTruthful :
    (flag : Bool) (step : ExecutionStep) (todo : List ExecutionStep) (s : ExecutionState)
    → Within flag step todo s
    → IsTruthful s
Within-IsTruthful flag step todo s h =
    IsTruthful-of_Status flag s h.front (h.current ∷ h.back) h.status h.split h.done

pub IsSubmitted-IsTruthful :
    (todo : List ExecutionStep) (s : ExecutionState) → IsSubmitted todo s → IsTruthful s
IsSubmitted-IsTruthful todo s h = rw h.status (tt, tt)

StoppedAt-Any : (xs : List StepExecutionState) → StoppedAt xs → Any IsFailed xs
StoppedAt-Any [] h = absurd h
StoppedAt-Any (x ∷ xs) (inl h) = inr (StoppedAt-Any xs h.1)
StoppedAt-Any (x ∷ xs) (inr h) = inl h.0

Verdict-Reason :
    (stop : Bool) (status : ExecutionStatus) (xs : List StepExecutionState)
    → Verdict stop status xs
    → Reason status xs
Verdict-Reason true ExecutionStatus.succeeded xs h = h
Verdict-Reason false ExecutionStatus.succeeded xs h = h
Verdict-Reason true ExecutionStatus.failed xs h = StoppedAt-Any xs h
Verdict-Reason false ExecutionStatus.failed xs h = h.1
Verdict-Reason true ExecutionStatus.queued xs h = tt
Verdict-Reason false ExecutionStatus.queued xs h = tt
Verdict-Reason true ExecutionStatus.running xs h = tt
Verdict-Reason false ExecutionStatus.running xs h = tt

Dated-of_completed :
    (status : ExecutionStatus) (completed_at : Option ℕ)
    → is_some completed_at ≡ true
    → Dated status completed_at
Dated-of_completed ExecutionStatus.queued c h = tt
Dated-of_completed ExecutionStatus.running c h = tt
Dated-of_completed _ c h = h

pub Settled-IsTruthful : (stop : Bool) (s : ExecutionState) → Settled stop s → IsTruthful s
Settled-IsTruthful stop s h = (
  Verdict-Reason stop s.status s.steps h.verdict,
  Dated-of_completed s.status s.completed_at h.completed,
)
