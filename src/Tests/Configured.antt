-- ===== src/Tests/Configured.antt =====
-- Settings that are read from an environment with one variable.
use executor_service.Common.{◌≡◌, refl, String, some, none, str_eq, if◌then◌else◌}
use executor_service.Errors.{value_error}
use executor_service.Action.{ok, raised}
use executor_service.Schemas.Value.{pos}
use executor_service.Config.{
  Environment, Settings, seconds, get_settings, number, int, duration, text, positive,
}
use executor_service.Config.Checked.{Checked, get_settings-Checked, settings-Sound}
use executor_service.Workers.Loop.{started, here}
use executor_service.Workers.Loop.Bounds.{Sound}

-- EXECUTOR_MAX_CONCURRENCY is set.
abbrev pub with_concurrency : String → Environment
with_concurrency given = record {
  variable = λ name. if str_eq name "max_concurrency" then some given else none;
  parse_int =
      λ t. if str_eq t "4" then some (pos 4) else if str_eq t "0" then some (pos 0) else none;
  parse_seconds = λ t. none;
}

abbrev pub settings : Settings
settings = record {
  service_name = "executor-service";
  log_level = "INFO";
  redis_url = "redis://localhost:6379/0";
  redis_stream_name = "execution:commands";
  redis_group_name = "execution-workers";
  redis_execution_key_prefix = "execution";
  redis_block_ms = 5000;
  redis_batch_size = 1;
  redis_connect_timeout_seconds = seconds 5;
  redis_pending_idle_ms = 60000;
  redis_claim_interval_seconds = seconds 30;
  consumer_name_prefix = "executor";
  max_concurrency = 4;
  shutdown_timeout_seconds = seconds 30;
  jupyter_base_url = "http://localhost:8888";
  jupyter_token = none;
  jupyter_request_timeout_seconds = seconds 30;
  jupyter_websocket_open_timeout_seconds = seconds 30;
  jupyter_websocket_ping_interval_seconds = seconds 20;
  jupyter_websocket_ping_timeout_seconds = seconds 20;
  jupyter_websocket_protocol = none;
  analysis_kernel_name = "analysis-env";
  modeling_kernel_name = "modeling-env";
  callback_timeout_seconds = seconds 5;
  callback_max_attempts = 3;
  callback_backoff_seconds = seconds 1;
}

pub accepted : get_settings (with_concurrency "4") ≡ ok settings
unfolding get_settings int duration number text positive
accepted = refl

refused : get_settings (with_concurrency "0") ≡ raised (value_error "validation error for Settings")
unfolding get_settings int duration number text positive
refused = refl

get_settings-Checked_example : Checked settings
get_settings-Checked_example = get_settings-Checked (with_concurrency "4") settings accepted

settings-Sound_example : Sound 4 1 (started String)
settings-Sound_example =
    settings-Sound (with_concurrency "4") settings (started String) accepted (here (started String))
