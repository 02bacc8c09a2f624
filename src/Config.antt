-- ===== src/Config.antt =====
-- config/settings.py: Settings, which pydantic reads from the environment, and get_kernel_name.
pub mod Checked
use executor_service.Common.{ℕ, zero, suc, ◌*◌, String, Option, none, some, or_else}
use executor_service.Errors.{value_error}
use executor_service.Action.{Outcome, ok, raised}
use executor_service.Action.Outcomes.{◌>>=◌}
use executor_service.Schemas.Value.{ℤ, pos}
use executor_service.Schemas.Command.{ExecutionEnvironment}

-- A duration, a `float` of seconds in the source, is a number of microseconds, rounded away from 0.
abbrev pub seconds : ℕ → ℕ
seconds n = n * 1000000

-- The values of the variables EXECUTOR_<NAME>, by the field's name, and how pydantic reads a number
-- from a text: nothing if the text is none. A duration that is infinite is left out.
pub record Environment : Type 0 where
  pub variable : String → Option String
  pub parse_int : String → Option ℤ
  pub parse_seconds : String → Option ℤ

pub record Settings : Type 0 where
  pub service_name : String
  pub log_level : String
  pub redis_url : String
  pub redis_stream_name : String
  pub redis_group_name : String
  pub redis_execution_key_prefix : String
  pub redis_block_ms : ℕ
  pub redis_batch_size : ℕ
  pub redis_connect_timeout_seconds : ℕ
  pub redis_pending_idle_ms : ℕ
  pub redis_claim_interval_seconds : ℕ
  pub consumer_name_prefix : String
  pub max_concurrency : ℕ
  pub shutdown_timeout_seconds : ℕ
  pub jupyter_base_url : String
  pub jupyter_token : Option String
  pub jupyter_request_timeout_seconds : ℕ
  pub jupyter_websocket_open_timeout_seconds : ℕ
  pub jupyter_websocket_ping_interval_seconds : ℕ
  pub jupyter_websocket_ping_timeout_seconds : ℕ
  pub jupyter_websocket_protocol : Option String
  pub analysis_kernel_name : String
  pub modeling_kernel_name : String
  pub callback_timeout_seconds : ℕ
  pub callback_max_attempts : ℕ
  pub callback_backoff_seconds : ℕ

-- `gt=0`
unfoldable pub positive : Option ℤ → Outcome ℕ
positive (some (pos (suc n))) = ok (suc n)
positive _ = raised (value_error "validation error for Settings")

-- A field with `gt=0`: its default is not checked.
unfoldable pub number : (String → Option ℤ) → Option String → ℕ → Outcome ℕ
unfolding positive
number parse none default = ok default
number parse (some text) default = positive (parse text)

module _ (environment : Environment) where
  open environment use {variable, parse_int, parse_seconds}

  unfoldable pub text : String → String → String
  text name default = or_else (variable name) default

  unfoldable pub int : String → ℕ → Outcome ℕ
  unfolding number
  int name default = number parse_int (variable name) default

  unfoldable pub duration : String → ℕ → Outcome ℕ
  unfolding number
  duration name default = number parse_seconds (variable name) default

  -- `Settings()`, which raises a ValidationError, a ValueError, if a number is refused.
  unfoldable pub get_settings : Outcome Settings
  unfolding text int duration
  get_settings = do
    redis_block_ms ← int "redis_block_ms" 5000
    redis_batch_size ← int "redis_batch_size" 1
    redis_connect_timeout_seconds ← duration "redis_connect_timeout_seconds" (seconds 5)
    redis_pending_idle_ms ← int "redis_pending_idle_ms" 60000
    redis_claim_interval_seconds ← duration "redis_claim_interval_seconds" (seconds 30)
    max_concurrency ← int "max_concurrency" 1
    shutdown_timeout_seconds ← duration "shutdown_timeout_seconds" (seconds 30)
    jupyter_request_timeout_seconds ← duration "jupyter_request_timeout_seconds" (seconds 30)
    jupyter_websocket_open_timeout_seconds ←
        duration "jupyter_websocket_open_timeout_seconds" (seconds 30)
    jupyter_websocket_ping_interval_seconds ←
        duration "jupyter_websocket_ping_interval_seconds" (seconds 20)
    jupyter_websocket_ping_timeout_seconds ←
        duration "jupyter_websocket_ping_timeout_seconds" (seconds 20)
    callback_timeout_seconds ← duration "callback_timeout_seconds" (seconds 5)
    callback_max_attempts ← int "callback_max_attempts" 3
    callback_backoff_seconds ← duration "callback_backoff_seconds" (seconds 1)
    ok (record {
      service_name = text "service_name" "executor-service";
      log_level = text "log_level" "INFO";
      redis_url = text "redis_url" "redis://localhost:6379/0";
      redis_stream_name = text "redis_stream_name" "execution:commands";
      redis_group_name = text "redis_group_name" "execution-workers";
      redis_execution_key_prefix = text "redis_execution_key_prefix" "execution";
      redis_block_ms = redis_block_ms;
      redis_batch_size = redis_batch_size;
      redis_connect_timeout_seconds = redis_connect_timeout_seconds;
      redis_pending_idle_ms = redis_pending_idle_ms;
      redis_claim_interval_seconds = redis_claim_interval_seconds;
      consumer_name_prefix = text "consumer_name_prefix" "executor";
      max_concurrency = max_concurrency;
      shutdown_timeout_seconds = shutdown_timeout_seconds;
      jupyter_base_url = text "jupyter_base_url" "http://localhost:8888";
      jupyter_token = variable "jupyter_token";
      jupyter_request_timeout_seconds = jupyter_request_timeout_seconds;
      jupyter_websocket_open_timeout_seconds = jupyter_websocket_open_timeout_seconds;
      jupyter_websocket_ping_interval_seconds = jupyter_websocket_ping_interval_seconds;
      jupyter_websocket_ping_timeout_seconds = jupyter_websocket_ping_timeout_seconds;
      jupyter_websocket_protocol = variable "jupyter_websocket_protocol";
      analysis_kernel_name = text "analysis_kernel_name" "analysis-env";
      modeling_kernel_name = text "modeling_kernel_name" "modeling-env";
      callback_timeout_seconds = callback_timeout_seconds;
      callback_max_attempts = callback_max_attempts;
      callback_backoff_seconds = callback_backoff_seconds;
    })

-- `get_kernel_name`: each of the two environments has its entry.
unfoldable pub get_kernel_name : Settings → ExecutionEnvironment → String
get_kernel_name settings ExecutionEnvironment.analysis = settings.analysis_kernel_name
get_kernel_name settings ExecutionEnvironment.modeling = settings.modeling_kernel_name
