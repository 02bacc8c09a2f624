-- ===== src/Services/Callback/Concludes.antt =====
-- What `deliver` leaves behind.
use executor_service.Common.{◌≡◌, refl, sym, ap, subst, ◌⊎◌, inl, inr, true, not, String, arith}
use executor_service.Action.{Outcome, ok, raised}
use executor_service.Action.Triple.{
  Triple, Post, Triple-pure, Triple-raise, Triple-if, Triple-bind, Triple-weaken,
}
use executor_service.Schemas.State.{ExecutionState, is_terminal}
use executor_service.Schemas.Callback.{ExecutionCallback, from_state}
use executor_service.Platform.{Keys}
use executor_service.Repository.{RedisExecutionRepository}
use executor_service.Repository.Store.{At, Now, At-mono}
use executor_service.Repository.Methods.{mark_callback_pending-Triple}
use executor_service.Services.Callback.{
  CallbackService, event_id_of, lift_outcome, attempts, report, deliver, is_delivered,
}
use executor_service.Services.Callback.Trying.{
  execution_part, SameExecution, Attempting, Concluded, Left, attempts-concludes,
}

module _ (repository : RedisExecutionRepository) (service : CallbackService repository)
    (start : ExecutionState) where
  open service use {client, max_attempts}

  module _ (base : Keys repository.Payload) where
    lift-keeps :
        {A : Type 0} (outcome : Outcome A) (F : Keys repository.Payload → Type 0)
        → Triple
            (λ w. F (repository.stored w))
            (lift_outcome repository service outcome)
            (λ _ w. F (repository.stored w))
            (λ _ w. F (repository.stored w))
    unfolding lift_outcome
    lift-keeps (ok a) F = Triple-pure a (λ w f. f)
    lift-keeps (raised x) F = Triple-raise x (λ w f. f)

    -- The pending state carries the execution's own id, so the loop works on the same key.
    attempts-conclude_at :
        (id : String) (pending : ExecutionState) (callback : ExecutionCallback)
        → Triple
            (Now repository id base (Attempting repository service start 0) pending)
            (attempts repository service pending callback max_attempts 1 "Callback delivery failed")
            (Now repository id base (Concluded repository service start))
            (Left repository service start base id)
    attempts-conclude_at id pending callback = record {
      at = λ w a.
          subst
            (λ i.
              Post (Now repository i base (Concluded repository service start))
                (Left repository service start base i)
                (attempts repository service pending callback max_attempts 1
                  "Callback delivery failed" w))
            a.own
            ((attempts-concludes repository service start base pending callback max_attempts 0 1 _
                (omega arith)).at
              w
              (
                pending,
                subst
                    (λ i.
                      At repository i base (Attempting repository service start 0) pending
                        (repository.stored w))
                    (sym a.own) a,
              ));
    }

    abbrev id₀ : String
    id₀ = start.execution_id

    report-concludes :
        Triple
          (Now repository id₀ base (λ s. s ≡ start) start)
          (report repository service start (event_id_of repository service start))
          (Now repository id₀ base (Concluded repository service start))
          (Left repository service start base id₀)
    unfolding report
    report-concludes =
        Triple-weaken
          (Triple-bind
            (mark_callback_pending-Triple repository id₀ base {P = λ s. s ≡ start}
              {Q = Attempting repository service start 0} {R = SameExecution start} (λ s e. rw e)
              (λ s p. p.same) (event_id_of repository service start)
              (λ s e. record {
                same = ap execution_part e;
                pending = refl;
                event = refl;
                counted = rw e (omega arith);
              }))
            (λ pending.
              Triple-bind
                (Triple-weaken
                  (lift-keeps (from_state pending (event_id_of repository service start))
                    (At repository id₀ base (Attempting repository service start 0) pending))
                  (λ w a. a) (λ v w a. a) (λ x w a. (pending, At-mono repository (λ p. p.same) a)))
                (λ callback. attempts-conclude_at id₀ pending callback)))
          (λ w a. (start, a)) (λ s w a. a) (λ x w h. h)

    -- A state that was delivered before comes back as it is; any other return is a conclusion.
    abbrev pub Reported : ExecutionState → Type 0
    Reported s =
        ((s ≡ start) × (is_delivered start.callback_status ≡ true))
        ⊎ ((is_terminal start ≡ true) × Concluded repository service start s)

    pub deliver-Triple :
        Triple
          (Now repository id₀ base (λ s. s ≡ start) start)
          (deliver repository service start)
          (Now repository id₀ base Reported)
          (Left repository service start base id₀)
    unfolding deliver
    deliver-Triple =
        Triple-if (is_delivered start.callback_status) _ _
          (λ e. Triple-pure start (λ w a. At-mono repository (λ p. inl (p, e)) a))
          (λ e.
            Triple-if (not (is_terminal start)) _ _
              (λ n.
                Triple-raise _ (λ w a. (start, At-mono repository (λ p. ap execution_part p) a)))
              (λ n.
                Triple-weaken report-concludes (λ w a. a)
                  (λ s w a. At-mono repository (λ p. inr (ground arith, p)) a) (λ x w h. h)))

    -- If Redis holds the state that is handed in, then `deliver` returns a state that Redis then
    -- holds and that was delivered before, or was terminal and is concluded now; or it raises,
    -- and all that Redis holds of the execution, its callback apart, is what it was.
    pub deliver-concludes :
        (w : repository.World)
        → Now repository start.execution_id base (λ s. s ≡ start) start w
        → Post
            (Now repository start.execution_id base Reported)
            (Left repository service start base start.execution_id)
            (deliver repository service start w)
    deliver-concludes w a = deliver-Triple.at w a
