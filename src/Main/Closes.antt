-- ===== src/Main/Closes.antt =====
-- Which clients the lifespan closes.
use executor_service.Common.{◌≡◌, refl, if◌then◌else◌, List, [], ◌∷◌, ◌++◌}
use executor_service.Errors.{Error, timeout_error, is_exception}
use executor_service.Action.{Outcome, ok, raised, Action, recover, continue, ◌>>◌}
use executor_service.Action.Triple.{
  Triple, Post, Keeps, Triple-pure, Triple-if, Triple-raise, Triple-bind, Triple-weaken,
  Triple-except, Triple-attempt,
}
use executor_service.Action.Timeouts.{Timeouts}
use executor_service.Clients.Lifecycle
use executor_service.Clients.Lifecycle.{Server, initialize}
use executor_service.Clients.Agent.{AgentCallbackClient}
use executor_service.Clients.Agent
use executor_service.Clients.Jupyter.{JupyterServerClient}
use executor_service.Clients.Jupyter
use executor_service.Repository.{RedisExecutionRepository}
use executor_service.Main.{
  Process, startup_failed, startup, await_worker, timed_out, shutdown, again, leave, serve,
  lifespan,
}

pub data Client : Type 0 where
  redis_client : Client
  jupyter_client : Client
  callback_client : Client

module _ (r : RedisExecutionRepository) (server : Server r.redis_client)
    (jupyter : JupyterServerClient r) (agent : AgentCallbackClient r) (asyncio : Timeouts r.World)
    (process : Process r) where
  -- A record of the clients that were closed: closing one returns and adds it, and nothing else does.
  pub record Closing : Type 1 where
    pub closed : r.World → List Client
    pub redis_closes :
        (l : List Client)
        → Triple
            (λ w. closed w ≡ l)
            server.redis_aclose
            (λ _ w. closed w ≡ l ++ (redis_client ∷ []))
            (λ _ _. ⊥)
    pub jupyter_closes :
        (l : List Client)
        → Triple
            (λ w. closed w ≡ l)
            jupyter.aclose
            (λ _ w. closed w ≡ l ++ (jupyter_client ∷ []))
            (λ _ _. ⊥)
    pub callback_closes :
        (l : List Client)
        → Triple
            (λ w. closed w ≡ l)
            agent.aclose
            (λ _ w. closed w ≡ l ++ (callback_client ∷ []))
            (λ _ _. ⊥)
    pub serve_aside : (l : List Client) → Keeps (λ w. closed w ≡ l) process.serve_requests
    pub create_returns :
        (l : List Client)
        → Triple (λ w. closed w ≡ l) process.create_worker_task (λ _ w. closed w ≡ l) (λ _ _. ⊥)
    pub stop_returns :
        (l : List Client)
        → Triple (λ w. closed w ≡ l) process.stop_worker (λ _ w. closed w ≡ l) (λ _ _. ⊥)
    pub cancel_returns :
        (l : List Client)
        → Triple (λ w. closed w ≡ l) process.cancel_worker (λ _ w. closed w ≡ l) (λ _ _. ⊥)
    pub gather_returns :
        (l : List Client)
        → Triple (λ w. closed w ≡ l) process.gather_worker (λ _ w. closed w ≡ l) (λ _ _. ⊥)

  module _ (closing : Closing) where
    open closing use {closed}

    -- The clients that were closed, the first first.
    abbrev pub Closed : List Client → r.World → Type 0
    Closed l w = closed w ≡ l

    abbrev after_serving : List Client
    after_serving = callback_client ∷ jupyter_client ∷ redis_client ∷ []

    -- What ends in a value does so whatever is asked of its exceptions.
    pub quiet :
        {A : Type 0} {P : r.World → Type 0} {Q : A → r.World → Type 0}
        {E : Error → r.World → Type 0} {m : Action r.World A}
        → Triple P m Q (λ _ _. ⊥)
        → Triple P m Q E
    quiet t = Triple-weaken t (λ w p. p) (λ a w p. p) (λ x w p. elim p [ ])

    -- What `startup_failed` closes before it raises the exception again.
    abbrev pub Abandoned : Error → Error → r.World → Type 0
    Abandoned x y w =
        (y ≡ x)
        × Closed
            (if is_exception x then redis_client ∷ jupyter_client ∷ callback_client ∷ [] else []) w

    startup_failed-Closed :
        (x : Error)
        → Triple
            (Closed [])
            (startup_failed r server jupyter agent asyncio process x)
            (λ _ _. ⊥)
            (Abandoned x)
    unfolding startup_failed Lifecycle.close Agent.close Jupyter.close
    startup_failed-Closed x =
        Triple-if (is_exception x) _ _
          (λ e. Triple-bind (quiet (closing.redis_closes [])) (λ _.
            Triple-bind (quiet (closing.jupyter_closes _)) (λ _.
              Triple-bind (quiet (closing.callback_closes _))
                (λ _. Triple-raise x (λ w p. (refl, rw e p))))))
          (λ e. Triple-raise x (λ w p. (refl, rw e p)))

    timed_out-Closed :
        {E : Error → r.World → Type 0} (x : Error)
        → Triple
            (λ w. (x ≡ timeout_error) × Closed [] w)
            (timed_out r server jupyter agent asyncio process x)
            (λ _. Closed [])
            E
    unfolding timed_out
    timed_out-Closed {E} x = record { at = λ w (e, p). rw e (waits.at w p) }
      where
        waits :
            Triple (Closed []) (do process.cancel_worker; process.gather_worker) (λ _. Closed []) E
        waits =
            Triple-bind (quiet (closing.cancel_returns [])) (λ _. quiet (closing.gather_returns []))

    -- How the lifespan ends after this outcome of `initialize`.
    abbrev pub Ends : Outcome (Unit {0}) × r.World → Outcome (Unit {0}) × r.World → Type 0
    Ends (ok _, _) end =
        Post (λ _. Closed (callback_client ∷ jupyter_client ∷ redis_client ∷ []))
          (λ _. Closed (callback_client ∷ jupyter_client ∷ redis_client ∷ [])) end
    Ends (raised x, _) end = Post (λ _ _. ⊥) (Abandoned x) end

    module _
        (waited : Triple
          (Closed [])
          (await_worker r server jupyter agent asyncio process)
          (λ _. Closed [])
          (λ x w. (x ≡ timeout_error) × Closed [] w)) where
      shutdown-Closed :
          {E : Error → r.World → Type 0}
          → Triple
              (Closed [])
              (shutdown r server jupyter agent asyncio process)
              (λ _. Closed after_serving)
              E
      unfolding shutdown Lifecycle.close Agent.close Jupyter.close
      shutdown-Closed = Triple-bind (quiet (closing.stop_returns [])) (λ _.
          Triple-bind (Triple-except waited timed_out-Closed) (λ _.
            Triple-bind (quiet (closing.callback_closes [])) (λ _.
              Triple-bind (quiet (closing.jupyter_closes _))
                (λ _. quiet (closing.redis_closes _)))))

      again-Closed :
          (l : List Client) (o : Outcome (Unit {0}))
          → Triple
              (Closed l)
              (again r server jupyter agent asyncio process o)
              (λ _. Closed l)
              (λ _. Closed l)
      unfolding again
      again-Closed l (ok _) = Triple-pure tt (λ w p. p)
      again-Closed l (raised x) = Triple-raise x (λ w p. p)

      serve-Closed :
          Triple
            (Closed [])
            (serve r server jupyter agent asyncio process)
            (λ _. Closed after_serving)
            (λ _. Closed after_serving)
      unfolding serve leave
      serve-Closed =
          Triple-attempt (leave r server jupyter agent asyncio process) (closing.serve_aside [])
            (λ _. ends (ok tt)) (λ x. ends (raised x))
        where
          ends :
              (o : Outcome (Unit {0}))
              → Triple
                  (Closed [])
                  (leave r server jupyter agent asyncio process o)
                  (λ _. Closed after_serving)
                  (λ _. Closed after_serving)
          ends o = Triple-bind shutdown-Closed (λ _. again-Closed after_serving o)

      ends :
          (o : Outcome (Unit {0}) × r.World)
          → Post (λ _. Closed []) (λ _. Closed []) o
          → Ends o (
              let s = recover o.0 (startup_failed r server jupyter agent asyncio process) o.1 in
              continue s.0
                (λ _. do process.create_worker_task; serve r server jupyter agent asyncio process)
                s.1)
      ends (ok _, w) p =
          (Triple-bind (quiet (closing.create_returns [])) (λ _. serve-Closed)).at w p
      ends (raised x, w) p =
          (Triple-bind (startup_failed-Closed x) (λ _. record { at = λ w no. elim no [ ] })).at w p

      -- If closing a client returns, if `initialize` closes none, and if the wait for the worker
      -- raises nothing but a TimeoutError, then the lifespan closes each client once if `initialize`
      -- returned, however the serving ended: the callback client, the Jupyter client and Redis. If
      -- `initialize` raised, then the lifespan raises the same; before that it closes Redis, the
      -- Jupyter client and the callback client, or none of them after a cancellation.
      pub lifespan-Closed :
          Keeps (Closed []) (initialize r.redis_client server asyncio)
          → (w : r.World) → Closed [] w
          → Ends
              (initialize r.redis_client server asyncio w)
              (lifespan r server jupyter agent asyncio process w)
      unfolding lifespan startup
      lifespan-Closed started w p =
          ends (initialize r.redis_client server asyncio w) (started.at w p)
