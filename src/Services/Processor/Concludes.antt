-- ===== src/Services/Processor/Concludes.antt =====
-- What a message that the processor has dealt with leaves behind.
use executor_service.Common.{
  ℕ, ◌≡◌, refl, sym, ap, subst, ◌∙◌, ◌⊎◌, inl, inr, Bool, true, false, String, Option, is_some,
  str_eq,
}
use executor_service.Errors.{kernel_not_found_error}
use executor_service.Action.{Outcome, ok, raised}
use executor_service.Action.Triple.{
  Triple, Post, Triple-raise, Triple-if, Triple-bind, Triple-weaken, Triple-attempt,
}
use executor_service.Schemas.Value.{Fields}
use executor_service.Schemas.Command.{ExecutionCommand}
use executor_service.Schemas.State.{
  ExecutionStatus, CallbackStatus, ExecutionState, is_terminal, is_terminal_status,
}
use executor_service.Schemas.Callback.{text_or}
use executor_service.Platform.{Keys}
use executor_service.Repository.{RedisExecutionRepository}
use executor_service.Repository.Store.{At, Holds, Now, At-mono, frame, get_required-At}
use executor_service.Repository.Methods.{mark_infrastructure_failed-Triple}
use executor_service.Clients.Jupyter.Keeps.{get_kernel-keeps}
use executor_service.Services.Execution.Progress.{Dated, Verdict, Settled, IsSubmitted}
use executor_service.Services.Execution.Settles.{execute-Triple as run-Triple}
use executor_service.Services.Callback
use executor_service.Services.Callback.{deliver}
use executor_service.Services.Callback.Trying.{SameExecution}
use executor_service.Services.Callback.Concludes.{Reported, deliver-Triple}
use executor_service.Services.Processor.Cases.{
  IsStarted, choose-queued, choose-running, choose-terminal,
}
use executor_service.Services.Processor.{
  ExecutionProcessor, reconcile, recover_at, recover_running, choose, execute,
}

abbrev pub IsEnded : ExecutionState → Type 0
IsEnded s = (is_terminal s ≡ true) × (is_some s.completed_at ≡ true)

abbrev pub IsDated : ExecutionState → Type 0
IsDated s = Dated s.status s.completed_at

-- The states in which the message of a command can find its execution.
pub data Known (command : ExecutionCommand) (s : ExecutionState) : Type 0 where
  submitted : IsSubmitted command.steps s → Known command s
  started : IsStarted s → Known command s
  ended : IsEnded s → Known command s

-- The end of a message: the execution is terminal, and its callback delivered or given up.
pub record IsConcluded (s : ExecutionState) : Type 0 where
  pub ended : IsEnded s
  pub callback :
      (s.callback_status ≡ CallbackStatus.delivered) ⊎ (s.callback_status ≡ CallbackStatus.failed)

IsEnded-IsDated : (status : ExecutionStatus) (c : Option ℕ) → is_some c ≡ true → Dated status c
IsEnded-IsDated ExecutionStatus.queued c h = tt
IsEnded-IsDated ExecutionStatus.running c h = tt
IsEnded-IsDated _ c h = h

pub Verdict-terminal :
    (stop : Bool) (status : ExecutionStatus) (s : ExecutionState)
    → Verdict stop status s.steps
    → is_terminal_status status ≡ true
Verdict-terminal stop ExecutionStatus.succeeded s v = refl
Verdict-terminal stop ExecutionStatus.failed s v = refl
Verdict-terminal true ExecutionStatus.queued s v = absurd v
Verdict-terminal false ExecutionStatus.queued s v = absurd v
Verdict-terminal true ExecutionStatus.running s v = absurd v
Verdict-terminal false ExecutionStatus.running s v = absurd v

Known-IsDated : (command : ExecutionCommand) (s : ExecutionState) → Known command s → IsDated s
Known-IsDated command s (submitted h) = rw h.status tt
Known-IsDated command s (started h) = rw h tt
Known-IsDated command s (ended h) = IsEnded-IsDated s.status s.completed_at h.1

SameExecution-IsDated : (a b : ExecutionState) → IsEnded a → SameExecution a b → IsDated b
SameExecution-IsDated a b h e =
    IsEnded-IsDated b.status b.completed_at
      (ap (λ (x : ExecutionState). is_some x.completed_at) e ∙ h.1)

SameExecution-IsEnded : (a b : ExecutionState) → IsEnded a → SameExecution a b → IsEnded b
SameExecution-IsEnded a b h e = (
  ap (λ (x : ExecutionState). is_terminal x) e ∙ h.0,
  ap (λ (x : ExecutionState). is_some x.completed_at) e ∙ h.1,
)

pub is_delivered-eq :
    (c : CallbackStatus) → Callback.is_delivered c ≡ true → c ≡ CallbackStatus.delivered
is_delivered-eq CallbackStatus.delivered h = refl
is_delivered-eq _ h = cc

module _ (repository : RedisExecutionRepository) (processor : ExecutionProcessor repository)
    (base : Keys repository.Payload) where
  open processor use {execution_service, callback_service, jupyter_client}

  Reported-IsConcluded :
      (a s : ExecutionState)
      → IsEnded a
      → Reported repository callback_service a base s
      → IsConcluded s
  Reported-IsConcluded a s h (inl (e, d)) =
      rw e (record { ended = h; callback = inl (is_delivered-eq a.callback_status d) })
  Reported-IsConcluded a s h (inr (t, c)) = record {
    ended = SameExecution-IsEnded a s h c.same;
    callback = elim c.conclusion [ inl d ↦ inl d.0 | inr g ↦ inr g.0 ];
  }

  module _ (id : String) where
    reconcile-ends :
        (outcome : Outcome Fields)
        → Triple
            (Holds repository id base IsStarted)
            (reconcile repository processor id outcome)
            (Now repository id base IsEnded)
            (λ _. Holds repository id base IsDated)
    unfolding reconcile
    reconcile-ends (raised (kernel_not_found_error k)) =
        mark_infrastructure_failed-Triple repository id base (λ s p. rw p tt)
          (λ s p. IsEnded-IsDated s.status s.completed_at p.1) _ _ (λ s now p. (refl, refl))
    reconcile-ends (raised _) =
        Triple-raise _ (λ w (s, a). (s, At-mono repository (λ p. rw p tt) a))
    reconcile-ends (ok v) = Triple-raise _ (λ w (s, a). (s, At-mono repository (λ p. rw p tt) a))

    recover_at-ends :
        (kernel_id : String)
        → Triple
            (Holds repository id base IsStarted)
            (recover_at repository processor id kernel_id)
            (Now repository id base IsEnded)
            (λ _. Holds repository id base IsDated)
    unfolding recover_at
    recover_at-ends kernel_id =
        Triple-if (str_eq kernel_id "") _ _
          (λ e. Triple-raise _ (λ w (s, a). (s, At-mono repository (λ p. rw p tt) a)))
          (λ e.
            Triple-attempt (reconcile repository processor id)
              (frame repository (λ m. (s : ExecutionState) × At repository id base IsStarted s m)
                (get_kernel-keeps repository jupyter_client kernel_id))
              (λ v. reconcile-ends (ok v)) (λ x. reconcile-ends (raised x)))

    recover_running-ends :
        Triple
          (Holds repository id base IsStarted)
          (recover_running repository processor id)
          (Now repository id base IsEnded)
          (λ _. Holds repository id base IsDated)
    unfolding recover_running
    recover_running-ends =
        Triple-bind
          (Triple-weaken (get_required-At repository id base IsStarted) (λ w h. h) (λ s w a. a)
            (λ x w (s, a). (s, At-mono repository (λ p. rw p tt) a)))
          (λ s.
            Triple-weaken (recover_at-ends (text_or s.kernel_id "")) (λ w a. (s, a)) (λ s w a. a)
              (λ x w h. h))

  module _ (command : ExecutionCommand) where
    abbrev id₁ : String
    id₁ = command.execution_id

    Settled-IsEnded : (stop : Bool) (s : ExecutionState) → Settled stop s → IsEnded s
    Settled-IsEnded stop s h = (Verdict-terminal stop s.status s h.verdict, h.completed)

    -- The three ways on, by the state that was loaded.
    choose-ends :
        (s : ExecutionState)
        → Triple
            (Now repository id₁ base (Known command) s)
            (choose repository processor command s)
            (Now repository id₁ base IsEnded)
            (λ _. Holds repository id₁ base IsDated)
    choose-ends s = record { at = λ w a. go w a a.holds }
      where
        go :
            (w : repository.World)
            → Now repository id₁ base (Known command) s w
            → Known command s
            → Post
                (Now repository id₁ base IsEnded)
                (λ _. Holds repository id₁ base IsDated)
                (choose repository processor command s w)
        go w a (submitted h) = rw (choose-queued repository processor command s h.status) (
            (Triple-weaken (run-Triple repository execution_service command base) (λ w h. h)
                (λ t w b. At-mono repository (Settled-IsEnded command.stop_on_error t) b)
                (λ x w (t, b). (t, At-mono repository (λ p. p.1) b))).at
              w (s, At-mono repository (λ _. h) a))
        go w a (started h) =
            rw (choose-running repository processor command s h, a.own)
              ((recover_running-ends id₁).at w (s, At-mono repository (λ _. h) a))
        go w a (ended h) =
            rw (choose-terminal repository processor command s h.0) (At-mono repository (λ _. h) a)

    -- The callback of a state that has ended, under the execution's own key.
    deliver-reports :
        (s : ExecutionState)
        → Triple
            (Now repository id₁ base IsEnded s)
            (deliver repository callback_service s)
            (Now repository id₁ base IsConcluded)
            (λ _. Holds repository id₁ base IsDated)
    deliver-reports s = record {
      at = λ w a.
          subst
            (λ i.
              Post (Now repository i base IsConcluded) (λ _. Holds repository i base IsDated)
                (deliver repository callback_service s w))
            a.own
            ((Triple-weaken (deliver-Triple repository callback_service s base) (λ w h. h)
                (λ t w b. At-mono repository (Reported-IsConcluded s t a.holds) b)
                (λ x w (t, b). (t, At-mono repository (SameExecution-IsDated s t a.holds) b))).at
              w
              (subst (λ i. At repository i base (λ t. t ≡ s) s (repository.stored w)) (sym a.own)
                (At-mono repository (λ _. refl) a)));
    }

    pub execute-Triple :
        Triple
          (Holds repository id₁ base (Known command))
          (execute repository processor command)
          (Now repository id₁ base IsConcluded)
          (λ _. Holds repository id₁ base IsDated)
    unfolding execute
    execute-Triple =
        Triple-bind
          (Triple-weaken (get_required-At repository id₁ base (Known command)) (λ w h. h)
            (λ s w a. a) (λ x w (s, a). (s, At-mono repository (Known-IsDated command s) a)))
          (λ s. Triple-bind (choose-ends s) deliver-reports)

    -- If Redis holds a state of the execution that is submitted, running or ended, then the
    -- processor either returns a terminal state with its time, whose callback is delivered or
    -- given up, and which Redis holds; or it raises, and the state that Redis holds has a time of
    -- completion if it is terminal.
    pub execute-concludes :
        (w : repository.World)
        → Holds repository command.execution_id base (Known command) w
        → Post
            (Now repository command.execution_id base IsConcluded)
            (λ _. Holds repository command.execution_id base IsDated)
            (execute repository processor command w)
    execute-concludes w h = execute-Triple.at w h
