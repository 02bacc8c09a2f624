-- ===== src/Services/Processor/Completes.antt =====
-- `execute` of the processor where nothing but the agent fails.
use executor_service.Common.{◌≡◌, refl, sym, ap, subst, ◌∙◌, ◌⊎◌, inl, inr, String, All, is_some}
use executor_service.Action.Triple.{Triple, Post, Triple-bind, Triple-weaken}
use executor_service.Schemas.Command.{ExecutionCommand}
use executor_service.Schemas.State.{CallbackStatus, ExecutionState, is_terminal_status}
use executor_service.Platform.{Keys}
use executor_service.Repository.{RedisExecutionRepository}
use executor_service.Repository.Store.{At, Holds, Now, At-mono}
use executor_service.Repository.Reliable.{Reliable, get_required-sure}
use executor_service.Services.Execution.Progress.{IsSubmitted, IsSucceeded}
use executor_service.Services.Execution.Stepping.{Smooth}
use executor_service.Services.Execution.Succeeds.{HasSucceeded, execute-succeeds}
use executor_service.Services.Callback.{deliver}
use executor_service.Services.Callback.Trying.{SameExecution}
use executor_service.Services.Callback.Concludes.{Reported}
use executor_service.Services.Callback.Finishes.{Responsive, IsFinished, deliver-sure}
use executor_service.Services.Processor.Cases.{choose-queued}
use executor_service.Services.Processor.Concludes.{is_delivered-eq}
use executor_service.Services.Processor.{ExecutionProcessor, choose, execute}

-- Every step succeeded and so did the execution, and its callback is delivered or given up.
pub record IsCompleted (s : ExecutionState) : Type 0 where
  pub succeeded : HasSucceeded s
  pub callback :
      (s.callback_status ≡ CallbackStatus.delivered) ⊎ (s.callback_status ≡ CallbackStatus.failed)

SameExecution-HasSucceeded :
    (a b : ExecutionState) → HasSucceeded a → SameExecution a b → HasSucceeded b
SameExecution-HasSucceeded a b h e = record {
  status = ap (λ (x : ExecutionState). x.status) e ∙ h.status;
  each = subst (All IsSucceeded) (sym (ap (λ (x : ExecutionState). x.steps) e)) h.each;
  completed = ap (λ (x : ExecutionState). is_some x.completed_at) e ∙ h.completed;
}

HasSucceeded-IsFinished : (s : ExecutionState) → HasSucceeded s → IsFinished s
HasSucceeded-IsFinished s h = (ap is_terminal_status h.status, h.completed)

module _ (repository : RedisExecutionRepository) (processor : ExecutionProcessor repository)
    (reliable : Reliable repository) (smooth : Smooth repository processor.execution_service.runner)
    (responsive : Responsive repository processor.callback_service) (command : ExecutionCommand)
    (base : Keys repository.Payload) where
  open processor use {execution_service, callback_service}

  abbrev id : String
  id = command.execution_id

  Reported-IsCompleted :
      (a s : ExecutionState)
      → HasSucceeded a
      → Reported repository callback_service a base s
      → IsCompleted s
  Reported-IsCompleted a s h (inl (e, d)) =
      rw e (record { succeeded = h; callback = inl (is_delivered-eq a.callback_status d) })
  Reported-IsCompleted a s h (inr (t, c)) = record {
    succeeded = SameExecution-HasSucceeded a s h c.same;
    callback = elim c.conclusion [ inl d ↦ inl d.0 | inr g ↦ inr g.0 ];
  }

  choose-succeeds :
      (s : ExecutionState)
      → Triple
          (Now repository id base (IsSubmitted command.steps) s)
          (choose repository processor command s)
          (Now repository id base HasSucceeded)
          (λ _ _. ⊥)
  choose-succeeds s = record {
    at = λ w a.
        rw (choose-queued repository processor command s a.holds.status)
          (execute-succeeds repository execution_service reliable smooth command base w (s, a));
  }

  -- The callback is delivered under the execution's own key.
  deliver-completes :
      (s : ExecutionState)
      → Triple
          (Now repository id base HasSucceeded s)
          (deliver repository callback_service s)
          (Now repository id base IsCompleted)
          (λ _ _. ⊥)
  deliver-completes s = record {
    at = λ w a.
        subst
          (λ i.
            Post (Now repository i base IsCompleted) (λ _ _. ⊥)
              (deliver repository callback_service s w))
          a.own
          ((Triple-weaken
              (deliver-sure repository callback_service reliable responsive base s
                (HasSucceeded-IsFinished s a.holds))
              (λ w h. h) (λ t w b. At-mono repository (Reported-IsCompleted s t a.holds) b)
              (λ x w e. e)).at
            w
            (subst (λ i. At repository i base (λ t. t ≡ s) s (repository.stored w)) (sym a.own)
              (At-mono repository (λ _. refl) a)));
  }

  -- If the GET and SET of Redis return, if sessions open and close, if every step that is run returns
  -- when its callback does, if pauses return and a post raises nothing but an HTTPError, and if
  -- Redis holds the state of an execution that was submitted and not started, then the processor
  -- returns a state that Redis holds, in which every step and the execution succeeded, and whose
  -- callback is delivered or given up.
  pub execute-completes :
      (w : repository.World)
      → Holds repository command.execution_id base (IsSubmitted command.steps) w
      → Post
          (Now repository command.execution_id base IsCompleted)
          (λ _ _. ⊥)
          (execute repository processor command w)
  unfolding execute
  execute-completes w h =
      let t : Triple (Holds repository id base (IsSubmitted command.steps))
          (execute repository processor command) (Now repository id base IsCompleted) (λ _ _. ⊥) =
        Triple-bind (get_required-sure repository reliable id base _)
          (λ s. Triple-bind (choose-succeeds s) deliver-completes) in
      t.at w h
