-- ===== src/Main.antt =====
-- main.py: the consumer's name, and the lifespan of the application.
pub mod Closes
pub mod Leaks
pub mod Wiring
use Prim.Native.String.{◌++◌, slice}
use executor_service.Common.{ℕ, String, if◌then◌else◌}
use executor_service.Errors.{Error, timeout_error, is_exception}
use executor_service.Action.{
  Outcome, ok, raised, Action, pure, raise, ◌except◌, attempt, ◌>>=◌, ◌>>◌,
}
use executor_service.Action.Timeouts.{Timeouts}
use executor_service.Clients.Lifecycle
use executor_service.Clients.Lifecycle.{Server, initialize}
use executor_service.Clients.Agent.{AgentCallbackClient}
use executor_service.Clients.Agent
use executor_service.Clients.Jupyter.{JupyterServerClient}
use executor_service.Clients.Jupyter
use executor_service.Repository.{RedisExecutionRepository}

-- `_consumer_name`, given `socket.gethostname()`, `f"{os.getpid()}"` and `uuid4().hex`.
unfoldable pub consumer_name : String → String → String → String → String
consumer_name prefix host pid hex =
    prefix ++ ("-" ++ (host ++ ("-" ++ (pid ++ ("-" ++ slice hex 0 8)))))

-- What the lifespan does with the worker's task, and the serving of requests while it is suspended,
-- which FastAPI ends. `wait_for_worker` is `await worker_task`; `cancel_worker` is its `cancel()` and
-- `gather_worker` waits for it and gives its exceptions back.
pub record Process (r : RedisExecutionRepository) : Type 0 where
  pub create_worker_task : Action r.World (Unit {0})
  pub serve_requests : Action r.World (Unit {0})
  pub stop_worker : Action r.World (Unit {0})
  pub wait_for_worker : Action r.World (Unit {0})
  pub cancel_worker : Action r.World (Unit {0})
  pub gather_worker : Action r.World (Unit {0})
  pub shutdown_timeout_seconds : ℕ

module _ (r : RedisExecutionRepository) (server : Server r.redis_client)
    (jupyter : JupyterServerClient r) (agent : AgentCallbackClient r) (asyncio : Timeouts r.World)
    (process : Process r) where
  -- The `except` clause around `redis_client.initialize()`.
  unfoldable pub startup_failed : Error → Action r.World (Unit {0})
  startup_failed x =
      if is_exception x
      then (do
        Lifecycle.close r.redis_client server
        Jupyter.close r jupyter
        Agent.close r agent
        raise x)
      else raise x

  unfoldable pub startup : Action r.World (Unit {0})
  unfolding startup_failed
  startup = initialize r.redis_client server asyncio except startup_failed

  -- `async with asyncio.timeout(settings.shutdown_timeout_seconds): await worker_task`
  unfoldable pub await_worker : Action r.World (Unit {0})
  await_worker = asyncio.timeout process.shutdown_timeout_seconds process.wait_for_worker

  -- `except TimeoutError`
  unfoldable pub timed_out : Error → Action r.World (Unit {0})
  timed_out timeout_error = do process.cancel_worker; process.gather_worker
  timed_out x = raise x

  -- The body of the `finally` clause.
  unfoldable pub shutdown : Action r.World (Unit {0})
  unfolding await_worker timed_out
  shutdown = do
    process.stop_worker
    await_worker except timed_out
    Agent.close r agent
    Jupyter.close r jupyter
    Lifecycle.close r.redis_client server

  unfoldable pub again : Outcome (Unit {0}) → Action r.World (Unit {0})
  again (ok _) = pure tt
  again (raised x) = raise x

  -- The `finally` clause, after which what `yield` raised goes on.
  unfoldable pub leave : Outcome (Unit {0}) → Action r.World (Unit {0})
  unfolding again shutdown
  leave outcome = do shutdown; again outcome

  -- `try: yield finally: …`
  unfoldable pub serve : Action r.World (Unit {0})
  unfolding leave
  serve = attempt process.serve_requests >>= leave

  -- `lifespan`
  unfoldable pub lifespan : Action r.World (Unit {0})
  unfolding startup serve
  lifespan = do startup; process.create_worker_task; serve
