-- ===== src/Tests/Lifespans.antt =====
-- The start and the end of the application, with a Redis in memory that has the group already.
use executor_service.Common.{
  ℕ, ◌≡◌, refl, sym, ap, ◌⊎◌, inl, inr, true, false, String, [], ◌∷◌, ◌++◌, Option, some, is_some,
  or_else,
}
use executor_service.Errors.{
  Error, redis_error, response_error, cancelled_error, timeout_error, value_error,
}
use executor_service.Action.{Outcome, ok, raised, Action, pure, raise}
use executor_service.Action.Triple.{Triple, Post, Triple-pure, Triple-raise}
use executor_service.Action.Timeouts.{Timeouts}
use executor_service.Clients.Lifecycle.{
  Server, is_foreign, is_busy, beginning, initialize, initialize-Joined, create_consumer_group,
  ping,
}
use executor_service.Clients.Lifecycle
use executor_service.Clients.Agent
use executor_service.Clients.Jupyter
use executor_service.Api.Health.{readiness, Ready, Unready, readiness-Ready}
use executor_service.Main.{
  Process, lifespan, await_worker, startup, serve, shutdown, timed_out, leave, again,
}
use executor_service.Main.Closes.{
  redis_client, jupyter_client, callback_client, Closing, Ends, lifespan-Closed,
}
use executor_service.Main.Leaks.{lifespan-Leaks}
use executor_service.Tests.Memory.{Memory, redis, repository, jupyter, agent, closing}
use executor_service.Tests.Runners.{sending}

abbrev busy : Error
busy = response_error "BUSYGROUP Consumer Group name already exists"

abbrev there : Option String
there = some "5-0"

abbrev server : Server redis
server = record {
  redis_ping = pure true;
  redis_xgroup_create = λ _ _ _. raise busy;
  redis_aclose = closing redis_client;
  connect_timeout_seconds = 5;
  position = λ _. there;
  ping_law = λ p. Triple-pure true (λ w h. h);
  xgroup_create_law = λ p. Triple-raise busy (λ w h. inl (refl, ap is_some (sym h), h));
}

-- The time is over exactly if the body was cancelled.
abbrev cut : {A : Type 0} → Outcome A → Outcome A
cut (raised cancelled_error) = raised timeout_error
cut o = o

after :
    {A : Type 0} (Q : A → Memory → Type 0) (E : Error → Memory → Type 0) (r : Outcome A × Memory)
    → Post Q E r
    → Post Q (λ x w. E x w ⊎ ((x ≡ timeout_error) × E cancelled_error w)) (cut r.0, r.1)
after Q E (ok a, w) h = h
after Q E (raised cancelled_error, w) h = inr (refl, h)
after Q E (raised x, w) h = inl h

cut_law :
    {A : Type 0} {P : Memory → Type 0} {Q : A → Memory → Type 0} {E : Error → Memory → Type 0}
    {body : Action Memory A} (seconds : ℕ)
    → Triple P body Q E
    → Triple P
        (λ w. let (o, w') = body w in (cut o, w'))
        Q
        (λ x w. E x w ⊎ ((x ≡ timeout_error) × E cancelled_error w))
cut_law {Q} {E} {body} seconds t = record { at = λ w h. after Q E (body w) (t.at w h) }

abbrev asyncio : Timeouts Memory
asyncio = record {
  timeout = λ seconds body w. let (o, w') = body w in (cut o, w');
  timeout_law = cut_law;
}

-- A worker whose task ends as is given.
abbrev process : Action Memory (Unit {0}) → Process repository
process worker = record {
  create_worker_task = pure tt;
  serve_requests = pure tt;
  stop_worker = pure tt;
  wait_for_worker = worker;
  cancel_worker = pure tt;
  gather_worker = pure tt;
  shutdown_timeout_seconds = 30;
}

abbrev closes :
    (worker : Action Memory (Unit {0}))
    → Closing repository server jupyter agent asyncio (process worker)
closes worker = record {
  closed = λ w. w.closed;
  redis_closes = λ l. record { at = λ w h. ap (λ k. k ++ (redis_client ∷ [])) h };
  jupyter_closes = λ l. record { at = λ w h. ap (λ k. k ++ (jupyter_client ∷ [])) h };
  callback_closes = λ l. record { at = λ w h. ap (λ k. k ++ (callback_client ∷ [])) h };
  serve_aside = λ l. Triple-pure tt (λ w h. h);
  create_returns = λ l. Triple-pure tt (λ w h. h);
  stop_returns = λ l. Triple-pure tt (λ w h. h);
  cancel_returns = λ l. Triple-pure tt (λ w h. h);
  gather_returns = λ l. Triple-pure tt (λ w h. h);
}

initialize-Joined_example :
    Triple
      (λ (w : Memory). there ≡ there)
      (initialize redis server asyncio)
      (λ _ w. there ≡ some (or_else there beginning))
      (λ x w. (is_foreign x ≡ false) × ((there ≡ there) ⊎ (there ≡ some (or_else there beginning))))
initialize-Joined_example = initialize-Joined redis server there asyncio

-- A Redis that is down.
abbrev down : Server redis
down = record server {
  redis_ping = raise (redis_error "Connection refused");
  ping_law = λ p. Triple-raise _ (λ w h. h);
}

readiness-Ready_example :
    Post
      (Ready redis down (raised (redis_error "Connection refused"), sending []))
      (Unready redis down (raised (redis_error "Connection refused"), sending []))
      (readiness redis down (sending []))
readiness-Ready_example = readiness-Ready redis down (sending [])

-- A worker that is cut off.
abbrev late : Action Memory (Unit {0})
late = raise cancelled_error

initialized :
    (E : Error → Memory → Type 0)
    → Triple
        (λ (w : Memory). w.closed ≡ [])
        (initialize redis server asyncio)
        (λ _ w. w.closed ≡ [])
        E
unfolding initialize create_consumer_group
initialized E = record { at = λ w h. h }

lifespan-Closed_example :
    Ends repository server jupyter agent asyncio
      (process late)
      (closes late)
      (initialize redis server asyncio (sending []))
      (lifespan repository server jupyter agent asyncio (process late) (sending []))
unfolding await_worker
lifespan-Closed_example =
    lifespan-Closed repository server jupyter agent asyncio (process late) (closes late)
      (Triple-raise timeout_error (λ w h. (refl, h))) (initialized (λ _ w. w.closed ≡ []))
      (sending []) refl

-- A worker that was ended by a payload that is no command.
abbrev broken : Action Memory (Unit {0})
broken = raise (value_error "validation error for ExecutionCommand")

lifespan-Leaks_example :
    Triple
      (λ (w : Memory). w.closed ≡ [])
      (lifespan repository server jupyter agent asyncio (process broken))
      (λ _ _. ⊥)
      (λ _ w. w.closed ≡ [])
unfolding await_worker
lifespan-Leaks_example =
    lifespan-Leaks repository server jupyter agent asyncio (process broken) (closes broken)
      (initialized (λ _ _. ⊥))
      (Triple-raise (value_error "validation error for ExecutionCommand") (λ w h. (refl, h)))

ended : (lifespan repository server jupyter agent asyncio (process late) (sending [])).0 ≡ ok tt
unfolding lifespan startup initialize create_consumer_group serve leave again shutdown await_worker
    timed_out Lifecycle.close Agent.close Jupyter.close
ended = refl
