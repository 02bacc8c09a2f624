-- ===== src/Schemas/State.antt =====
-- schemas/state.py: the state of an execution that Redis keeps. Times are readings of the clock.
use executor_service.Common.{ℕ, Bool, true, false, String, List, Option}
use executor_service.Schemas.Value.{Fields}
use executor_service.Schemas.Command.{ExecutionEnvironment}

pub data ExecutionStatus : Type 0 where
  queued running succeeded failed : ExecutionStatus

pub data StepStatus : Type 0 where
  pending running succeeded failed : StepStatus

pub data CallbackStatus : Type 0 where
  not_requested pending delivered failed : CallbackStatus

pub record StepExecutionState : Type 0 where
  pub step_id : String
  pub name : String
  pub order : ℕ
  pub status : StepStatus
  pub started_at : Option ℕ
  pub completed_at : Option ℕ
  pub result : Option Fields
  pub error_type : Option String
  pub error_message : Option String
  pub traceback : Option String

pub record ExecutionState : Type 0 where
  pub execution_id : String
  pub thread_id : String
  pub execution_environment : ExecutionEnvironment
  pub callback_url : String
  pub status : ExecutionStatus
  pub current_step_id : Option String
  pub steps : List StepExecutionState
  pub created_at : ℕ
  pub started_at : Option ℕ
  pub completed_at : Option ℕ
  pub result : Option Fields
  pub error_step_id : Option String
  pub error_type : Option String
  pub error_message : Option String
  pub jupyter_target : Option String
  pub session_id : Option String
  pub kernel_id : Option String
  pub request_msg_id : Option String
  pub executor_id : Option String
  pub heartbeat_at : Option ℕ
  pub callback_status : CallbackStatus
  pub callback_event_id : Option String
  pub callback_attempts : ℕ
  pub callback_error : Option String
  pub callback_delivered_at : Option ℕ

-- The `is_terminal` property.
abbrev pub is_terminal_status : ExecutionStatus → Bool
is_terminal_status ExecutionStatus.succeeded = true
is_terminal_status ExecutionStatus.failed = true
is_terminal_status _ = false

abbrev pub is_terminal : ExecutionState → Bool
is_terminal s = is_terminal_status s.status
