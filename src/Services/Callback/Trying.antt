-- ===== src/Services/Callback/Trying.antt =====
-- What the attempts of `deliver` leave behind.
use executor_service.Common.{
  ℕ, zero, suc, ◌+◌, ◌≤◌, ◌≡◌, refl, ◌⊎◌, inl, inr, true, String, Option, none, some, arith,
  is_some, ltb,
}
use executor_service.Errors.{Error, callback_delivery_error}
use executor_service.Action.{Outcome, ok, raised, Action}
use executor_service.Action.Triple.{
  Triple, Triple-pure, Triple-raise, Triple-if, Triple-bind, Triple-weaken, Triple-attempt,
}
use executor_service.Schemas.State.{CallbackStatus, ExecutionState}
use executor_service.Schemas.Callback.{ExecutionCallback}
use executor_service.Platform.{Keys}
use executor_service.Repository.{RedisExecutionRepository, mark_callback_delivered}
use executor_service.Repository.Transitions.{to_attempted}
use executor_service.Repository.Store.{At, Holds, Now, At-mono, frame}
use executor_service.Repository.Methods.{
  record_callback_attempt-Triple, mark_callback_delivered-Triple, mark_callback_failed-Triple,
}
use executor_service.Clients.Agent.{send-keeps}
use executor_service.Services.Callback.{CallbackService, event_id_of, pause, after_send, attempts}

-- The state without what is recorded of the callback.
abbrev pub execution_part : ExecutionState → ExecutionState
execution_part s = record s {
  callback_status = CallbackStatus.not_requested;
  callback_event_id = none;
  callback_attempts = 0;
  callback_error = none;
  callback_delivered_at = none;
}

abbrev pub SameExecution : ExecutionState → ExecutionState → Type 0
SameExecution a b = execution_part b ≡ execution_part a

module _ (repository : RedisExecutionRepository) (service : CallbackService repository)
    (start : ExecutionState) where
  open service use {client, max_attempts}

  -- After `n` sends that failed.
  pub record Attempting (n : ℕ) (s : ExecutionState) : Type 0 where
    pub same : SameExecution start s
    pub pending : s.callback_status ≡ CallbackStatus.pending
    pub event : s.callback_event_id ≡ some (event_id_of repository service start)
    pub counted : s.callback_attempts ≡ start.callback_attempts + n

  -- After the send that the agent accepted, the `n`th.
  record Accepted (n : ℕ) (s : ExecutionState) : Type 0 where
    pub same : SameExecution start s
    pub event : s.callback_event_id ≡ some (event_id_of repository service start)
    pub counted : s.callback_attempts ≡ start.callback_attempts + n

  abbrev pub IsDelivered : ExecutionState → Type 0
  IsDelivered s =
      (s.callback_status ≡ CallbackStatus.delivered)
      × (s.callback_error ≡ none)
      × (is_some s.callback_delivered_at ≡ true)
      × ((n : ℕ) × (1 ≤ n)
          × (n ≤ max_attempts)
          × (s.callback_attempts ≡ start.callback_attempts + n))

  abbrev pub IsGivenUp : ExecutionState → Type 0
  IsGivenUp s =
      (s.callback_status ≡ CallbackStatus.failed)
      × (is_some s.callback_error ≡ true)
      × (s.callback_attempts ≡ start.callback_attempts + max_attempts)

  -- Delivered within the attempts allowed, or given up after all of them.
  pub record Concluded (s : ExecutionState) : Type 0 where
    pub same : SameExecution start s
    pub event : s.callback_event_id ≡ some (event_id_of repository service start)
    pub conclusion : IsDelivered s ⊎ IsGivenUp s

  module _ (base : Keys repository.Payload) where
    abbrev pub Left : String → Error → repository.World → Type 0
    Left id x = Holds repository id base (SameExecution start)

    pause-keeps :
        (n : ℕ) (F : Keys repository.Payload → Type 0)
        → Triple
            (λ w. F (repository.stored w))
            (pause repository service n)
            (λ _ w. F (repository.stored w))
            (λ _ w. F (repository.stored w))
    unfolding pause
    pause-keeps n F =
        Triple-if (ltb n max_attempts) _ _ (λ e. frame repository F (service.sleep_law _))
          (λ e. Triple-pure tt (λ w f. f))

    module _ (state : ExecutionState) (callback : ExecutionCallback) where
      abbrev id : String
      id = state.execution_id

      attempted :
          (n : ℕ) (error : Option String) (s : ExecutionState)
          → Attempting n s
          → Attempting (suc n) (to_attempted error s)
      attempted n error s p = record {
        same = p.same;
        pending = p.pending;
        event = p.event;
        counted = omega (arith, p.counted);
      }

      accepted :
          (n : ℕ)
          → 1 ≤ n
          → n ≤ max_attempts
          → Triple
              (Holds repository id base (Accepted n))
              (mark_callback_delivered repository id)
              (Now repository id base Concluded)
              (Left id)
      accepted n lo hi =
          mark_callback_delivered-Triple repository id base (λ s p. p.same) (λ s p. p.same)
            (λ s now p. record {
              same = p.same;
              event = p.event;
              conclusion = inl (refl, refl, refl, (n, lo, hi, p.counted));
            })

      after_send-concludes :
          (left n number : ℕ)
          → n + suc left ≡ max_attempts
          → (next : String → Action repository.World ExecutionState)
          → ((last_error : String)
              → Triple
                  (Holds repository id base (Attempting (suc n)))
                  (next last_error)
                  (Now repository id base Concluded)
                  (Left id))
          → (outcome : Outcome (Unit {0}))
          → Triple
              (Holds repository id base (Attempting n))
              (after_send repository service id number next outcome)
              (Now repository id base Concluded)
              (Left id)
      unfolding after_send
      after_send-concludes left n number e next t (raised (callback_delivery_error text)) =
          Triple-bind
            (record_callback_attempt-Triple repository id base (λ s p. p.same) (λ s p. p.same)
              (some text) (λ s p. attempted n (some text) s p))
            (λ s.
              Triple-bind
                (Triple-weaken (pause-keeps number (At repository id base (Attempting (suc n)) s))
                  (λ w a. a) (λ v w a. a) (λ x w a. (s, At-mono repository (λ p. p.same) a)))
                (λ _. Triple-weaken (t text) (λ w a. (s, a)) (λ s w a. a) (λ x w h. h)))
      after_send-concludes left n number e next t (ok _) =
          Triple-bind
            (record_callback_attempt-Triple repository id base (λ s p. p.same) (λ s p. p.same) none
              (λ s p. record {
                same = p.same;
                event = p.event;
                counted = omega (arith, p.counted);
              }))
            (λ s.
              Triple-weaken (accepted (suc n) (omega arith) (omega arith)) (λ w a. (s, a))
                (λ s w a. a) (λ x w h. h))
      after_send-concludes left n number e next t (raised _) =
          Triple-raise _ (λ w (s, a). (s, At-mono repository (λ p. p.same) a))

      pub attempts-concludes :
          (left n number : ℕ) (last_error : String)
          → n + left ≡ max_attempts
          → Triple
              (Holds repository id base (Attempting n))
              (attempts repository service state callback left number last_error)
              (Now repository id base Concluded)
              (Left id)
      unfolding attempts
      attempts-concludes zero n number last_error e =
          mark_callback_failed-Triple repository id base (λ s p. p.same) (λ s p. p.same) last_error
            (λ s p. record {
              same = p.same;
              event = p.event;
              conclusion = inr (refl, refl, omega (arith, p.counted));
            })
      attempts-concludes (suc left) n number last_error e =
          Triple-attempt
            (after_send repository service id number
              (attempts repository service state callback left (number + 1)))
            (frame repository (λ m. (s : ExecutionState) × At repository id base (Attempting n) s m)
              (send-keeps repository client state.callback_url callback))
            (λ v.
              after_send-concludes left n number e _
                (λ text. attempts-concludes left (suc n) (number + 1) text (omega arith)) (ok v))
            (λ x.
              after_send-concludes left n number e _
                (λ text. attempts-concludes left (suc n) (number + 1) text (omega arith))
                (raised x))
