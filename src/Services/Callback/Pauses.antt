-- ===== src/Services/Callback/Pauses.antt =====
-- How long `deliver` pauses.
use native.Mathlib.Nat.{mul-sub}
use executor_service.Common.{
  subst, ℕ, zero, suc, ◌+◌, ◌-◌, ◌*◌, ◌^◌, ◌≤◌, ◌<◌, ◌≡◌, refl, true, false, not, String, none,
  some, ltb, arith,
}
use executor_service.Errors.{callback_delivery_error}
use executor_service.Action.{Outcome, ok, raised, Action}
use executor_service.Action.Triple.{
  Triple, Keeps, Triple-pure, Triple-raise, Triple-if, Triple-bind, Triple-weaken, Triple-attempt,
  Triple-except,
}
use executor_service.Schemas.Callback.{ExecutionCallback, from_state}
use executor_service.Schemas.State.{ExecutionState, is_terminal}
use executor_service.Clients.Agent.{send, wrap-raises}
use executor_service.Repository.{RedisExecutionRepository}
use executor_service.Repository.Aside.{
  mark_callback_pending-Keeps, record_callback_attempt-Keeps, mark_callback_delivered-Keeps,
  mark_callback_failed-Keeps,
}
use executor_service.Services.Callback.{
  CallbackService, is_delivered, event_id_of, lift_outcome, pause, after_send, attempts, report,
  deliver,
}
use executor_service.Services.Callback.Sleeping.{
  Pausing, After, After-grow, bounded, aside, sleep-After,
}

module _ (r : RedisExecutionRepository) (service : CallbackService r) (pausing : Pausing r service)
    (l : ℕ) where
  open service use {client, max_attempts, backoff}
  open pausing use {paused}

  module _ (last : ℕ) (most : suc last ≡ max_attempts) where
    -- At the end: all the pauses that there can be.
    abbrev End : r.World → Type 0
    End = After r service pausing l last

    ends : (j : ℕ) → j ≤ last → (w : r.World) → After r service pausing l j w → End w
    ends j h w g =
        let e : j + (last - j) ≡ last = omega (arith, h) in
        subst (λ n. After r service pausing l n w) e
          (After-grow r service pausing l j (last - j) w g)

    -- Before the next attempt, with that many left.
    abbrev Before : ℕ → ℕ → r.World → Type 0
    Before zero j = End
    Before (suc left) j = After r service pausing l j

    pause-Before :
        (left j number : ℕ)
        → suc j + left ≡ max_attempts
        → number ≡ suc j
        → Triple
            (After r service pausing l j)
            (pause r service number)
            (λ _. Before left (suc j))
            (λ _. End)
    unfolding pause
    pause-Before zero j number e n =
        Triple-if (ltb number max_attempts) _ _ (λ h. absurd (at_most h))
          (λ h. Triple-pure tt (λ w g. ends j (omega arith) w g))
      where
        at_most : ltb number max_attempts ≡ true → ⊥
        at_most h = ground arith
    pause-Before (suc left) j number e n =
        Triple-if (ltb number max_attempts) _ _
          (λ h.
            Triple-weaken (sleep-After r service pausing l j (number - 1) (omega arith)) (λ w g. g)
              (λ _ w g. g) (λ x w g. ends (suc j) (omega arith) w g))
          (λ h. absurd (at_most h))
      where
        at_most : ltb number max_attempts ≡ false → ⊥
        at_most h = ground arith

    -- What only keeps the bound may also end.
    goes_on :
        {A : Type 0} {m : Action r.World A} (j : ℕ)
        → j ≤ last
        → Keeps (After r service pausing l j) m
        → Triple (After r service pausing l j) m (λ _. After r service pausing l j) (λ _. End)
    goes_on j h t = Triple-weaken t (λ w g. g) (λ a w g. g) (λ x w g. ends j h w g)

    send-Keeps :
        (j : ℕ) (url : String) (body : ExecutionCallback)
        → Keeps (After r service pausing l j) (send r client url body)
    unfolding send
    send-Keeps j url body =
        Triple-except
          (bounded r service pausing l j (λ n. pausing.post_aside url body body.event_id n))
          (λ x. wrap-raises r client x)

    after_send-End :
        (id : String) (left j number : ℕ)
        → suc j + left ≡ max_attempts
        → number ≡ suc j
        → (next : String → Action r.World ExecutionState)
        → ((text : String) → Triple (Before left (suc j)) (next text) (λ _. End) (λ _. End))
        → (o : Outcome (Unit {0}))
        → Triple
            (After r service pausing l j)
            (after_send r service id number next o)
            (λ _. End)
            (λ _. End)
    unfolding after_send
    after_send-End id left j number e n next h (raised (callback_delivery_error text)) =
        Triple-bind
          (goes_on j (omega arith)
            (record_callback_attempt-Keeps r (aside r service pausing l j) id (some text)))
          (λ _. Triple-bind (pause-Before left j number e n) (λ _. h text))
    after_send-End id left j number e n next h (ok _) =
        Triple-weaken
          (Triple-bind (record_callback_attempt-Keeps r (aside r service pausing l j) id none)
            (λ _. mark_callback_delivered-Keeps r (aside r service pausing l j) id))
          (λ w g. g) (λ s w g. ends j (omega arith) w g) (λ x w g. ends j (omega arith) w g)
    after_send-End id left j number e n next h (raised x) =
        Triple-raise x (λ w g. ends j (omega arith) w g)

    attempts-End :
        (state : ExecutionState) (body : ExecutionCallback) (left j number : ℕ) (text : String)
        → j + left ≡ max_attempts
        → number ≡ suc j
        → Triple
            (Before left j)
            (attempts r service state body left number text)
            (λ _. End)
            (λ _. End)
    unfolding attempts
    attempts-End state body zero j number text e n =
        mark_callback_failed-Keeps r (aside r service pausing l last) state.execution_id text
    attempts-End state body (suc left) j number text e n =
        let rest =
          after_send-End state.execution_id left j number (omega arith) n
            (attempts r service state body left (number + 1))
            (λ t.
              attempts-End state body left (suc j) (number + 1) t (omega arith) (omega arith)) in
        Triple-attempt
          (after_send r service state.execution_id number
            (attempts r service state body left (number + 1)))
          (send-Keeps j state.callback_url body) (λ v. rest (ok v)) (λ x. rest (raised x))

    lift_outcome-Keeps :
        {A : Type 0} (o : Outcome A)
        → Keeps (After r service pausing l 0) (lift_outcome r service o)
    unfolding lift_outcome
    lift_outcome-Keeps (ok a) = Triple-pure a (λ w g. g)
    lift_outcome-Keeps (raised x) = Triple-raise x (λ w g. g)

    first : (w : r.World) → After r service pausing l 0 w → Before max_attempts 0 w
    first w g = subst (λ n. Before n 0 w) most g

    report-End :
        (state : ExecutionState) (event_id : String)
        → Triple
            (After r service pausing l 0)
            (report r service state event_id)
            (λ _. End)
            (λ _. End)
    unfolding report
    report-End state event_id =
        Triple-bind
          (goes_on 0 (omega arith) (
            mark_callback_pending-Keeps r (aside r service pausing l 0) state.execution_id
              event_id))
          (λ pending.
            Triple-bind (goes_on 0 (omega arith) (lift_outcome-Keeps (from_state pending event_id)))
              (λ body.
                Triple-weaken (attempts-End pending body max_attempts 0 1 _ (omega arith) refl)
                  first (λ s w g. g) (λ x w g. g)))

    deliver-End :
        (state : ExecutionState)
        → Triple (After r service pausing l 0) (deliver r service state) (λ _. End) (λ _. End)
    unfolding deliver
    deliver-End state =
        Triple-if (is_delivered state.callback_status) _ _
          (λ _. Triple-pure state (λ w g. ends 0 (omega arith) w g))
          (λ _.
            Triple-if (not (is_terminal state)) _ _
              (λ _. Triple-raise _ (λ w g. ends 0 (omega arith) w g))
              (λ _. report-End state (event_id_of r service state)))

module _ (r : RedisExecutionRepository) (service : CallbackService r)
    (pausing : Pausing r service) where
  open service use {max_attempts, backoff}
  open pausing use {paused}

  -- If at least one attempt is allowed, then however `deliver` ends, it has paused for no more than
  -- `backoff * (2 ^ (max_attempts - 1) - 1)`: the sum of the pauses between all the attempts, each
  -- twice the one before.
  pub deliver-bounded :
      (state : ExecutionState) (l : ℕ)
      → 0 < max_attempts
      → Triple
          (λ w. paused w ≡ l)
          (deliver r service state)
          (λ _ w. paused w ≤ l + backoff * (2 ^ (max_attempts - 1) - 1))
          (λ _ w. paused w ≤ l + backoff * (2 ^ (max_attempts - 1) - 1))
  deliver-bounded state l h =
      Triple-weaken (deliver-End r service pausing l (max_attempts - 1) (omega arith) state)
        (λ w e. omega (arith, e)) (λ s w g. total w g) (λ x w g. total w g)
    where
      total :
          (w : r.World)
          → paused w + backoff ≤ l + backoff * 2 ^ (max_attempts - 1)
          → paused w ≤ l + backoff * (2 ^ (max_attempts - 1) - 1)
      total w g = let e = mul-sub backoff (2 ^ (max_attempts - 1)) 1 in omega (arith, e, g)
