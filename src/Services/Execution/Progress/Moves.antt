-- ===== src/Services/Execution/Progress/Moves.antt =====
-- How the changes that the repository makes carry an execution from one point of its progress to
-- the next.
use executor_service.Common.{
  ℕ, ◌≡◌, refl, sym, inl, inr, ◌∙◌, ap, Bool, true, false, String, List, [], ◌∷◌, ◌++◌, Option,
  str_eq, All,
}
use mathlib.Core.List.{append_assoc}
use executor_service.Schemas.Value.{Fields}
use executor_service.Schemas.Command.{ExecutionStep}
use executor_service.Schemas.State.{StepExecutionState, ExecutionState}
use executor_service.Repository.Transitions.{
  update_step, to_running, step_to_running, to_step_running, step_to_succeeded, to_step_succeeded,
  step_to_failed, to_step_failed,
}
use executor_service.Services.Execution.Progress.{
  IsPending, IsSucceeded, IsFailed, IsDone, Awaits, Apart, StoppedAt, Settled, IsSubmitted, Front,
  Progress, Within, update_step-middle, All-append, Any-append_left, Any-append_middle,
}

All-Unit : (todo : List ExecutionStep) → All (λ (t : ExecutionStep). Apart t.step_id []) todo
All-Unit [] = tt
All-Unit (t ∷ todo) = (tt, All-Unit todo)

pub Progress-to_running :
    (todo : List ExecutionStep) (s : ExecutionState) (now : ℕ) (executor_id : String)
    → IsSubmitted todo s
    → Progress false todo (to_running now executor_id s)
Progress-to_running todo s now executor_id h = record {
  front = [];
  back = s.steps;
  split = refl;
  done = tt;
  waiting = h.waiting;
  apart = All-Unit todo;
  distinct = h.distinct;
  status = refl;
}

module _ (flag : Bool) (step : ExecutionStep) (todo : List ExecutionStep) where
  -- The first of the steps that wait is the one that `_find_step` finds.
  pub Within-to_step_running :
      (s : ExecutionState) (started_at now : ℕ)
      → Progress flag (step ∷ todo) s
      → Within flag step todo (
          to_step_running now step.step_id
            (update_step step.step_id (step_to_running started_at) s.steps)
            s)
  Within-to_step_running s started_at now h = go h.back h.split h.waiting
    where
      go :
          (back : List StepExecutionState)
          → s.steps ≡ h.front ++ back
          → Awaits back (step ∷ todo)
          → Within flag step todo (
              to_step_running now step.step_id
                (update_step step.step_id (step_to_running started_at) s.steps)
                s)
      go [] e w = absurd w
      go (x ∷ back) e w = record {
        front = h.front;
        current = step_to_running started_at x;
        back = back;
        split =
            ap (update_step step.step_id (step_to_running started_at)) e
            ∙ update_step-middle step.step_id _ h.front x back h.apart.0 w.0;
        done = h.done;
        named = w.0;
        waiting = w.2;
        apart = h.apart;
        distinct = h.distinct;
        status = h.status;
      }

  steps-update :
      (s : ExecutionState) (change : StepExecutionState → StepExecutionState)
      (h : Within flag step todo s)
      → update_step step.step_id change s.steps ≡ (h.front ++ (change h.current ∷ [])) ++ h.back
  steps-update s change h =
      ap (update_step step.step_id change) h.split
      ∙ update_step-middle step.step_id change h.front h.current h.back h.apart.0 h.named
      ∙ sym (append_assoc h.front (change h.current ∷ []) h.back)

  -- No step that still waits has the id of the step that just ran.
  Apart-after :
      (front : List StepExecutionState) (x : StepExecutionState) (us : List ExecutionStep)
      → x.step_id ≡ step.step_id
      → All (λ (u : ExecutionStep). Apart u.step_id front) us
      → All (λ (u : ExecutionStep). str_eq step.step_id u.step_id ≡ false) us
      → All (λ (u : ExecutionStep). Apart u.step_id (front ++ (x ∷ []))) us
  Apart-after front x [] e a d = tt
  Apart-after front x (u ∷ us) e a d = (
    All-append (λ y. str_eq y.step_id u.step_id ≡ false) front (x ∷ []) a.0 (rw e d.0, tt),
    Apart-after front x us e a.1 d.1,
  )

Front-succeeded :
    (flag : Bool) (front : List StepExecutionState) (x : StepExecutionState)
    → IsSucceeded x
    → Front flag front
    → Front flag (front ++ (x ∷ []))
Front-succeeded false front x e h = All-append IsSucceeded front (x ∷ []) h (e, tt)
Front-succeeded true front x e h =
    (All-append IsDone front (x ∷ []) h.0 (inl e, tt), Any-append_left IsFailed front (x ∷ []) h.1)

All-IsDone : (xs : List StepExecutionState) → All IsSucceeded xs → All IsDone xs
All-IsDone [] h = tt
All-IsDone (x ∷ xs) h = (inl h.0, All-IsDone xs h.1)

Front-IsDone : (flag : Bool) (front : List StepExecutionState) → Front flag front → All IsDone front
Front-IsDone false front h = All-IsDone front h
Front-IsDone true front h = h.0

Front-failed :
    (flag : Bool) (front : List StepExecutionState) (x : StepExecutionState)
    → IsFailed x
    → Front flag front
    → Front true (front ++ (x ∷ []))
Front-failed flag front x e h = (
  All-append IsDone front (x ∷ []) (Front-IsDone flag front h) (inr e, tt),
  Any-append_middle IsFailed front x [] e,
)

module _ (flag : Bool) (step : ExecutionStep) (todo : List ExecutionStep) where
  pub Progress-to_step_succeeded :
      (s : ExecutionState) (completed_at now : ℕ) (result : Option Fields)
      → Within flag step todo s
      → Progress flag todo (
          to_step_succeeded now
            (update_step step.step_id (step_to_succeeded completed_at result) s.steps)
            s)
  Progress-to_step_succeeded s completed_at now result h =
      let change = step_to_succeeded completed_at result in
      record {
        front = h.front ++ (change h.current ∷ []);
        back = h.back;
        split = steps-update flag step todo s change h;
        done = Front-succeeded flag h.front _ refl h.done;
        waiting = h.waiting;
        apart =
            Apart-after flag step todo h.front (change h.current) todo h.named h.apart.1
              h.distinct.0;
        distinct = h.distinct.1;
        status = h.status;
      }

  pub Progress-to_step_failed :
      (s : ExecutionState) (now : ℕ) (error_type error_message : String) (traceback : Option String)
      → Within flag step todo s
      → Progress true todo (
          to_step_failed now step.step_id error_type error_message
            (update_step step.step_id
              (step_to_failed now error_type error_message traceback)
              s.steps)
            s)
  Progress-to_step_failed s now error_type error_message traceback h =
      let change = step_to_failed now error_type error_message traceback in
      record {
        front = h.front ++ (change h.current ∷ []);
        back = h.back;
        split = steps-update flag step todo s change h;
        done = Front-failed flag h.front _ refl h.done;
        waiting = h.waiting;
        apart =
            Apart-after flag step todo h.front (change h.current) todo h.named h.apart.1
              h.distinct.0;
        distinct = h.distinct.1;
        status = (refl, refl);
      }

Awaits-IsPending :
    (xs : List StepExecutionState) (todo : List ExecutionStep) → Awaits xs todo → All IsPending xs
Awaits-IsPending [] [] h = tt
Awaits-IsPending [] (t ∷ todo) h = tt
Awaits-IsPending (x ∷ xs) [] h = absurd h
Awaits-IsPending (x ∷ xs) (t ∷ todo) h = (h.1, Awaits-IsPending xs todo h.2)

StoppedAt-middle :
    (front : List StepExecutionState) (x : StepExecutionState) (back : List StepExecutionState)
    → All IsSucceeded front
    → IsFailed x
    → All IsPending back
    → StoppedAt (front ++ (x ∷ back))
StoppedAt-middle [] x back h e p = inr (e, p)
StoppedAt-middle (y ∷ front) x back h e p = inl (h.0, StoppedAt-middle front x back h.1 e p)

pub Settled-to_step_failed :
    (step : ExecutionStep) (todo : List ExecutionStep) (s : ExecutionState) (now : ℕ)
    (error_type error_message : String) (traceback : Option String)
    → Within false step todo s
    → Settled true (
        to_step_failed now step.step_id error_type error_message
          (update_step step.step_id (step_to_failed now error_type error_message traceback) s.steps)
          s)
Settled-to_step_failed step todo s now error_type error_message traceback h =
    let change = step_to_failed now error_type error_message traceback in
    record {
      verdict =
          rw
            (ap (update_step step.step_id change) h.split
              ∙ update_step-middle step.step_id change h.front h.current h.back h.apart.0 h.named)
            (StoppedAt-middle h.front (change h.current) h.back h.done refl
              (Awaits-IsPending h.back todo h.waiting));
      completed = refl;
    }
