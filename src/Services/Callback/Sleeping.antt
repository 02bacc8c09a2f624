-- ===== src/Services/Callback/Sleeping.antt =====
-- A record of the pauses of the callback service, and bounds on it.
use native.Mathlib.Nat.{two-pow-succ, mul-add, add-suc}
use native.Mathlib.Numerals.{unary_clauses}
use executor_service.Common.{ap, ◌∙◌, ℕ, zero, suc, ◌+◌, ◌*◌, ◌^◌, ◌≤◌, ◌≡◌, refl, String, arith}
use executor_service.Action.{Action}
use executor_service.Action.Triple.{Triple, Keeps, Triple-weaken}
use executor_service.Schemas.Callback.{ExecutionCallback}
use executor_service.Repository.{RedisExecutionRepository}
use executor_service.Repository.Aside.{Aside}
use executor_service.Services.Callback.{CallbackService}

-- A record of how long the service has paused: a pause adds at most its duration, and nothing else
-- adds to it.
pub record Pausing (r : RedisExecutionRepository) (service : CallbackService r) : Type 1 where
  pub paused : r.World → ℕ
  pub sleep_adds :
      (duration n : ℕ)
      → Triple
          (λ w. paused w ≡ n)
          (service.sleep duration)
          (λ _ w. paused w ≤ n + duration)
          (λ _ w. paused w ≤ n + duration)
  pub redis_aside : (n : ℕ) → Aside r (λ w. paused w ≡ n)
  pub post_aside :
      (url : String) (body : ExecutionCallback) (key : String) (n : ℕ)
      → Keeps (λ w. paused w ≡ n) (service.client.http_post url body key)

double : (b j : ℕ) → b * 2 ^ (suc j) ≡ b * 2 ^ j + b * 2 ^ j
double b j = ap (λ n. b * n) (two-pow-succ j) ∙ mul-add b (2 ^ j) (2 ^ j)

grow : (b i k : ℕ) → b * 2 ^ i ≤ b * 2 ^ (i + k)
grow b i zero = simp unary_clauses (same (b * 2 ^ i))
  where
    same : (n : ℕ) → n ≤ n
    same n = omega arith
grow b i (suc k) = let ih = grow b i k in rw (add-suc i k) (omega (arith, ih, double b (i + k)))

module _ (r : RedisExecutionRepository) (service : CallbackService r) (pausing : Pausing r service)
    (l : ℕ) where
  open service use {client, max_attempts, backoff}
  open pausing use {paused}

  -- Before the pause after attempt `j + 1`: `j` pauses, of which each was twice the one before.
  abbrev pub After : ℕ → r.World → Type 0
  After j w = paused w + backoff ≤ l + backoff * 2 ^ j

  -- After `j` pauses, or after all of them.
  pub After-grow : (j k : ℕ) (w : r.World) → After j w → After (j + k) w
  After-grow j k w h = let g = grow backoff j k in omega (arith, h, g)

  -- What keeps the record keeps a bound on it.
  pub bounded :
      {A : Type 0} {m : Action r.World A} (j : ℕ)
      → ((n : ℕ) → Keeps (λ w. paused w ≡ n) m)
      → Keeps (After j) m
  bounded j h = record {
    at = λ w g.
        (Triple-weaken (h (paused w)) (λ v e. e) (λ a v e. rw e g) (λ x v e. rw e g)).at w refl;
  }

  pub aside : (j : ℕ) → Aside r (After j)
  aside j = record {
    get_aside = λ k. bounded j (λ n. (pausing.redis_aside n).get_aside k);
    set_aside = λ k v nx. bounded j (λ n. (pausing.redis_aside n).set_aside k v nx);
    xack_aside = λ s g i. bounded j (λ n. (pausing.redis_aside n).xack_aside s g i);
    clock_aside = λ w g. rw ((pausing.redis_aside (paused w)).clock_aside w refl) g;
  }

  pub sleep-After :
      (j exponent : ℕ)
      → exponent ≡ j
      → Triple
          (After j)
          (service.sleep (backoff * 2 ^ exponent))
          (λ _. After (suc j))
          (λ _. After (suc j))
  sleep-After j exponent same = record {
    at = λ w g.
        let d = double backoff j in
        rw same (
          (Triple-weaken (pausing.sleep_adds (backoff * 2 ^ j) (paused w)) (λ v e. e)
              (λ a v e. omega (arith, d, e, g)) (λ x v e. omega (arith, d, e, g))).at
            w refl);
  }
