-- ===== src/Schemas/Callback.antt =====
-- schemas/callback.py: the body that is posted to the agent.
use executor_service.Common.{ℕ, not, String, Option, none, some, str_eq, if◌then◌else◌}
use executor_service.Errors.{value_error}
use executor_service.Action.{Outcome, ok, raised}
use executor_service.Schemas.Value.{Fields}
use executor_service.Schemas.State.{ExecutionStatus, ExecutionState, is_terminal}

pub record CallbackError : Type 0 where
  pub step_id : Option String
  pub error_type : String
  pub message : String

pub data EventType : Type 0 where
  execution_succeeded execution_failed : EventType

pub record ExecutionCallback : Type 0 where
  pub event_id : String
  pub event_type : EventType
  pub execution_id : String
  pub thread_id : String
  pub status : ExecutionStatus
  pub completed_at : ℕ
  pub result : Option Fields
  pub error : Option CallbackError

-- `text or default`: an absent or empty text gives way to the default.
abbrev pub text_or : Option String → String → String
text_or none d = d
text_or (some s) d = if str_eq s "" then d else s

abbrev error_of : ExecutionStatus → ExecutionState → Option CallbackError
error_of ExecutionStatus.failed s = some (record {
  step_id = s.error_step_id;
  error_type = text_or s.error_type "ExecutionFailed";
  message = text_or s.error_message "Execution failed";
})
error_of _ s = none

abbrev event_type_of : ExecutionStatus → EventType
event_type_of ExecutionStatus.succeeded = execution_succeeded
event_type_of _ = execution_failed

-- A body for a state that is terminal; the caller has taken `completed_at` from it.
unfoldable pub callback_at : ExecutionState → String → Option ℕ → Outcome ExecutionCallback
callback_at s event_id none = raised (value_error "Callback requires a terminal execution state")
callback_at s event_id (some completed_at) = ok (record {
  event_id = event_id;
  event_type = event_type_of s.status;
  execution_id = s.execution_id;
  thread_id = s.thread_id;
  status = s.status;
  completed_at = completed_at;
  result = s.result;
  error = error_of s.status s;
})

-- `ExecutionCallback.from_state`
unfoldable pub from_state : ExecutionState → String → Outcome ExecutionCallback
unfolding callback_at
from_state s event_id =
    if not (is_terminal s)
    then raised (value_error "Callback requires a terminal execution state")
    else callback_at s event_id s.completed_at
