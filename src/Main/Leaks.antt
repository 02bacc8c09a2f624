-- ===== src/Main/Leaks.antt =====
-- A lifespan whose worker has ended with an exception.
use executor_service.Common.{◌≡◌, Bool, true, false, []}
use executor_service.Errors.{Error, timeout_error}
use executor_service.Action.{Outcome, ok, raised}
use executor_service.Action.Triple.{
  Triple, Triple-raise, Triple-bind, Triple-except, Triple-attempt,
}
use executor_service.Action.Timeouts.{Timeouts}
use executor_service.Clients.Lifecycle.{Server, initialize}
use executor_service.Clients.Agent.{AgentCallbackClient}
use executor_service.Clients.Jupyter.{JupyterServerClient}
use executor_service.Repository.{RedisExecutionRepository}
use executor_service.Main.{
  Process, startup, await_worker, timed_out, shutdown, leave, serve, lifespan,
}
use executor_service.Main.Closes.{Closing, Closed, quiet}

abbrev pub is_timeout : Error → Bool
is_timeout timeout_error = true
is_timeout _ = false

module _ (r : RedisExecutionRepository) (server : Server r.redis_client)
    (jupyter : JupyterServerClient r) (agent : AgentCallbackClient r) (asyncio : Timeouts r.World)
    (process : Process r) where
  module _ (closing : Closing r server jupyter agent asyncio process) where
    open closing use {closed}

    -- If `initialize` returns and the wait for the worker raises an exception that is no TimeoutError,
    -- then the lifespan raises, and has closed no client.
    pub lifespan-Leaks :
        Triple
          (Closed r server jupyter agent asyncio process closing [])
          (initialize r.redis_client server asyncio)
          (λ _. Closed r server jupyter agent asyncio process closing [])
          (λ _ _. ⊥)
        → Triple
            (Closed r server jupyter agent asyncio process closing [])
            (await_worker r server jupyter agent asyncio process)
            (λ _ _. ⊥)
            (λ x w.
              (is_timeout x ≡ false) × Closed r server jupyter agent asyncio process closing [] w)
        → Triple
            (Closed r server jupyter agent asyncio process closing [])
            (lifespan r server jupyter agent asyncio process)
            (λ _ _. ⊥)
            (λ _. Closed r server jupyter agent asyncio process closing [])
    unfolding lifespan startup serve leave shutdown timed_out
    lifespan-Leaks started failed =
        Triple-bind
          (Triple-except {E' = λ _. Closed r server jupyter agent asyncio process closing []}
            started (λ x. record { at = λ w p. elim p [ ] }))
          (λ _.
            Triple-bind
              (quiet r server jupyter agent asyncio process closing (closing.create_returns []))
              (λ _.
                Triple-attempt (leave r server jupyter agent asyncio process)
                  (closing.serve_aside []) (λ _. ends (ok tt)) (λ x. ends (raised x))))
      where
        raises :
            (x : Error)
            → Triple
                (λ w.
                  (is_timeout x ≡ false)
                  × Closed r server jupyter agent asyncio process closing [] w)
                (timed_out r server jupyter agent asyncio process x)
                (λ _ _. ⊥)
                (λ _. Closed r server jupyter agent asyncio process closing [])
        raises timeout_error = record { at = λ w (h, p). cc h }
        raises x = Triple-raise x (λ w p. p.1)

        ends :
            (o : Outcome (Unit {0}))
            → Triple
                (Closed r server jupyter agent asyncio process closing [])
                (leave r server jupyter agent asyncio process o)
                (λ _ _. ⊥)
                (λ _. Closed r server jupyter agent asyncio process closing [])
        ends o =
            Triple-bind {Q = λ _ _. ⊥}
              (Triple-bind
                (quiet r server jupyter agent asyncio process closing (closing.stop_returns []))
                (λ _.
                  Triple-bind {Q = λ _ _. ⊥} (Triple-except failed raises)
                    (λ _. record { at = λ w p. elim p [ ] })))
              (λ _. record { at = λ w p. elim p [ ] })
