-- ===== src/Config/Checked.antt =====
-- The bounds that Settings puts on its numbers, and what the worker makes of them.
use executor_service.Common.{ℕ, zero, suc, ◌<◌, ◌≡◌, String, Option, none, some, arith}
use executor_service.Action.{ok}
use executor_service.Action.Outcomes.{Gives, Gives->>=, Gives-ok}
use executor_service.Schemas.Value.{ℤ, pos, negsuc}
use executor_service.Config.{
  Environment, Settings, seconds, positive, number, int, duration, get_settings,
}
use executor_service.Workers.Loop.{Loop, started, Reaches}
use executor_service.Workers.Loop.Bounds.{Sound, started-Sound}

positive-Gives : (n : Option ℤ) → Gives (λ k. 0 < k) (positive n)
unfolding positive
positive-Gives none = record { at = λ k e. cc }
positive-Gives (some (pos zero)) = record { at = λ k e. cc }
positive-Gives (some (pos (suc n))) = Gives-ok (suc n) (omega arith)
positive-Gives (some (negsuc n)) = record { at = λ k e. cc }

number-Gives :
    (parse : String → Option ℤ) (text : Option String) (default : ℕ)
    → 0 < default
    → Gives (λ k. 0 < k) (number parse text default)
unfolding number
number-Gives parse none default h = Gives-ok default h
number-Gives parse (some text) default h = positive-Gives (parse text)

-- Every number that is declared with `gt=0` is.
pub record Checked (settings : Settings) : Type 0 where
  pub redis_block : 0 < settings.redis_block_ms
  pub redis_batch : 0 < settings.redis_batch_size
  pub redis_connect : 0 < settings.redis_connect_timeout_seconds
  pub redis_pending : 0 < settings.redis_pending_idle_ms
  pub redis_claim : 0 < settings.redis_claim_interval_seconds
  pub concurrency : 0 < settings.max_concurrency
  pub shutdown_timeout : 0 < settings.shutdown_timeout_seconds
  pub jupyter_request : 0 < settings.jupyter_request_timeout_seconds
  pub jupyter_open : 0 < settings.jupyter_websocket_open_timeout_seconds
  pub jupyter_interval : 0 < settings.jupyter_websocket_ping_interval_seconds
  pub jupyter_pong : 0 < settings.jupyter_websocket_ping_timeout_seconds
  pub callback_timeout : 0 < settings.callback_timeout_seconds
  pub callback_attempts : 0 < settings.callback_max_attempts
  pub callback_backoff : 0 < settings.callback_backoff_seconds

module _ (environment : Environment) where
  whole : (name : String) (n : ℕ) → Gives (λ k. 0 < k) (int environment name (suc n))
  unfolding int
  whole name n =
      number-Gives environment.parse_int (environment.variable name) (suc n) (omega arith)

  timed : (name : String) (n : ℕ) → Gives (λ k. 0 < k) (duration environment name (seconds (suc n)))
  unfolding duration
  timed name n =
      number-Gives environment.parse_seconds (environment.variable name) (seconds (suc n))
        (omega arith)

  Gives-Checked : Gives Checked (get_settings environment)
  unfolding get_settings
  Gives-Checked = Gives->>= (whole "redis_block_ms" 4999) (λ _ block.
      Gives->>= (whole "redis_batch_size" 0) (λ _ batch.
        Gives->>= (timed "redis_connect_timeout_seconds" 4) (λ _ connect.
          Gives->>= (whole "redis_pending_idle_ms" 59999) (λ _ pending.
            Gives->>= (timed "redis_claim_interval_seconds" 29) (λ _ interval.
              Gives->>= (whole "max_concurrency" 0) (λ _ many.
                Gives->>= (timed "shutdown_timeout_seconds" 29) (λ _ shutdown.
                  Gives->>= (timed "jupyter_request_timeout_seconds" 29) (λ _ request.
                    Gives->>= (timed "jupyter_websocket_open_timeout_seconds" 29) (λ _ open_timeout.
                      Gives->>= (timed "jupyter_websocket_ping_interval_seconds" 19)
                        (λ _ ping_interval.
                          Gives->>= (timed "jupyter_websocket_ping_timeout_seconds" 19)
                            (λ _ ping_timeout.
                              Gives->>= (timed "callback_timeout_seconds" 4) (λ _ callback.
                                Gives->>= (whole "callback_max_attempts" 2) (λ _ attempts.
                                  Gives->>= (timed "callback_backoff_seconds" 0) (λ _ backoff.
                                    Gives-ok _ (record {
                                      redis_block = block;
                                      redis_batch = batch;
                                      redis_connect = connect;
                                      redis_pending = pending;
                                      redis_claim = interval;
                                      concurrency = many;
                                      shutdown_timeout = shutdown;
                                      jupyter_request = request;
                                      jupyter_open = open_timeout;
                                      jupyter_interval = ping_interval;
                                      jupyter_pong = ping_timeout;
                                      callback_timeout = callback;
                                      callback_attempts = attempts;
                                      callback_backoff = backoff;
                                    })))))))))))))))

  -- If the settings can be read, then each number that is declared to be greater than 0 is, whether it
  -- was set or is the default.
  pub get_settings-Checked :
      (settings : Settings) → get_settings environment ≡ ok settings → Checked settings
  get_settings-Checked settings e = Gives-Checked.at settings e

  -- If the settings can be read, then the loop of a worker that is made of them is sound in every state
  -- it reaches: at most `max_concurrency` tasks, and only fetches of at least one message and no
  -- more than a batch.
  pub settings-Sound :
      {Message : Type 0} (settings : Settings) (n : Loop Message)
      → get_settings environment ≡ ok settings
      → Reaches settings.max_concurrency settings.redis_batch_size (started Message) n
      → Sound settings.max_concurrency settings.redis_batch_size n
  settings-Sound settings n e h =
      let checked = get_settings-Checked settings e in
      started-Sound settings.max_concurrency settings.redis_batch_size checked.concurrency
        checked.redis_batch n h
