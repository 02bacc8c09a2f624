-- ===== src/Action/Timeouts.antt =====
-- asyncio.timeout, as the parts of the program use it.
use executor_service.Common.{ℕ, ◌≡◌, ◌⊎◌}
use executor_service.Errors.{Error, timeout_error, cancelled_error}
use executor_service.Action.{Action}
use executor_service.Action.Triple.{Triple}

-- `async with asyncio.timeout(seconds)` cancels its body when the time is over, and turns the
-- CancelledError that then leaves the body into a TimeoutError.
pub record Timeouts (W : Type 0) : Type 1 where
  pub timeout : {A : Type 0} → ℕ → Action W A → Action W A
  pub timeout_law :
      {A : Type 0} {P : W → Type 0} {Q : A → W → Type 0} {E : Error → W → Type 0}
      {body : Action W A} (seconds : ℕ)
      → Triple P body Q E
      → Triple P
          (timeout seconds body)
          Q
          (λ x w. E x w ⊎ ((x ≡ timeout_error) × E cancelled_error w))
