-- ===== src/Main/Wiring.antt =====
-- main.py, lifespan: how the parts are made of the settings.
use executor_service.Common.{◌+◌, ◌<◌, ◌≤◌, ◌≡◌, ◌⊎◌, inl, inr, String, true, arith}
use executor_service.Action.{ok}
use executor_service.Schemas.State.{ExecutionState}
use executor_service.Platform.{Platform, Keys}
use executor_service.Clients.Redis.{RedisStreamClient}
use executor_service.Clients.Jupyter.{JupyterServerClient}
use executor_service.Repository.{RedisExecutionRepository}
use executor_service.Runtime.Runner.{Channels}
use executor_service.Runtime.Runner.Implements.{jupyter_runner}
use executor_service.Services.Execution.{ExecutionService}
use executor_service.Services.Callback.{CallbackService, deliver, is_delivered}
use executor_service.Services.Callback.Concludes.{Reported, deliver-Triple}
use executor_service.Repository.Store.{Now}
use executor_service.Action.Triple.{Triple, Post, Triple-weaken}
use executor_service.Services.Processor.{ExecutionProcessor, execute}
use executor_service.Services.Recovery.{PendingRecoveryService}
use executor_service.Workers.Execution.{ExecutionWorker}
use executor_service.Config.{Environment, Settings, get_settings, get_kernel_name}
use executor_service.Config.Checked.{get_settings-Checked}

module _ (settings : Settings) (platform : Platform) where
  -- `redis_client`
  abbrev pub redis_client_of : RedisStreamClient
  redis_client_of = record {
    platform = platform;
    stream_name = settings.redis_stream_name;
    group_name = settings.redis_group_name;
  }

  -- `repository`
  abbrev pub repository_of : RedisExecutionRepository
  repository_of = record {
    redis_client = redis_client_of;
    key_prefix = settings.redis_execution_key_prefix;
  }

  -- What the constructors are given by the packages: httpx's clients, websockets, uuid, the pause and
  -- the clock of asyncio, and XAUTOCLAIM. What `services` says of the number of attempts and of the
  -- backoff, and `recovery` of its times, is replaced by the settings.
  pub record Packages : Type 1 where
    pub jupyter_client : JupyterServerClient repository_of
    pub channels : Channels repository_of
    pub services : CallbackService repository_of
    pub recovery : PendingRecoveryService redis_client_of

  module _ (packages : Packages) (name : String) where
    open packages use {jupyter_client, channels}

    -- `callback_service`
    abbrev pub callback_service_of : CallbackService repository_of
    callback_service_of = record (packages.services) {
      max_attempts = settings.callback_max_attempts;
      backoff = settings.callback_backoff_seconds;
    }

    -- `execution_service`
    abbrev pub execution_service_of : ExecutionService repository_of
    execution_service_of = record {
      runner = jupyter_runner repository_of jupyter_client channels;
      kernel_name_resolver = get_kernel_name settings;
      executor_id = name;
    }

    -- `processor`
    abbrev pub processor_of : ExecutionProcessor repository_of
    processor_of = record {
      execution_service = execution_service_of;
      callback_service = callback_service_of;
      jupyter_client = jupyter_client;
    }

    -- `recovery_service`
    abbrev pub recovery_service_of : PendingRecoveryService redis_client_of
    recovery_service_of = record (packages.recovery) {
      min_idle_ms = settings.redis_pending_idle_ms;
      interval = settings.redis_claim_interval_seconds;
    }

    -- `worker`
    abbrev pub execution_worker_of : ExecutionWorker repository_of
    execution_worker_of = record { execution_handler = execute repository_of processor_of }

    -- Delivered before, or tried at least once since and no more often than the settings allow.
    abbrev pub Tried : ExecutionState → ExecutionState → Type 0
    Tried start s =
        ((s ≡ start) × (is_delivered start.callback_status ≡ true))
        ⊎ ((start.callback_attempts < s.callback_attempts)
            × (s.callback_attempts ≤ start.callback_attempts + settings.callback_max_attempts))

    Reported-Tried :
        (base : Keys platform.Payload) (start s : ExecutionState)
        → 0 < settings.callback_max_attempts
        → Reported repository_of callback_service_of start base s
        → Tried start s
    Reported-Tried base start s most (inl before) = inl before
    Reported-Tried base start s most (inr (_, concluded)) = elim concluded.conclusion [
      | inl (_, _, _, (n, lo, hi, e)) ↦ inr (omega (arith, lo, e), omega (arith, hi, e))
      | inr (_, _, e) ↦ inr (omega (arith, most, e), omega (arith, e))
    ]

    -- If the settings can be read and Redis holds the state that is handed in, then `deliver` of the
    -- service that is made of them either raises, or returns a state that was delivered before, or
    -- one with at least one attempt more and at most `callback_max_attempts` more.
    pub deliver-Tried :
        (environment : Environment) (base : Keys platform.Payload) (start : ExecutionState)
        (w : platform.World)
        → get_settings environment ≡ ok settings
        → Now repository_of start.execution_id base (λ s. s ≡ start) start w
        → Post
            (λ s _. Tried start s)
            (λ _ _. Unit {0})
            (deliver repository_of callback_service_of start w)
    deliver-Tried environment base start w e h =
        let t : Triple (Now repository_of start.execution_id base (λ s. s ≡ start) start)
            (deliver repository_of callback_service_of start) (λ s _. Tried start s)
            (λ _ _. Unit {0}) =
          Triple-weaken (deliver-Triple repository_of callback_service_of start base) (λ w a. a)
            (λ s w a.
              Reported-Tried base start s
                (get_settings-Checked environment settings e).callback_attempts a.holds)
            (λ x w a. tt) in
        t.at w h
