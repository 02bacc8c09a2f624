-- ===== src/Repository/Transitions.antt =====
-- The changes that the methods of RedisExecutionRepository make to a loaded state. Each takes
-- the readings of the clock that its method makes.
use executor_service.Common.{
  ℕ, suc, ◌+◌, String, List, [], ◌∷◌, Option, none, some, str_eq, or_else, if◌then◌else◌,
}
use executor_service.Schemas.Value.{Fields}
use executor_service.Schemas.Command.{ExecutionStep, ExecutionCommand}
use executor_service.Schemas.State.{
  ExecutionStatus, StepStatus, CallbackStatus, StepExecutionState, ExecutionState,
}

initial_step : ℕ → ExecutionStep → StepExecutionState
initial_step order step = record {
  step_id = step.step_id;
  name = step.name;
  order = order;
  status = StepStatus.pending;
  started_at = none;
  completed_at = none;
  result = none;
  error_type = none;
  error_message = none;
  traceback = none;
}

-- `enumerate(command.steps, start=index)`
unfoldable pub initial_steps : ℕ → List ExecutionStep → List StepExecutionState
unfolding initial_step
initial_steps index [] = []
initial_steps index (step ∷ steps) = initial_step index step ∷ initial_steps (suc index) steps

-- `build_initial_state`; `created_at` is read from the clock by the field's default.
unfoldable pub build_initial_state : ℕ → ExecutionCommand → ExecutionState
build_initial_state now c = record {
  execution_id = c.execution_id;
  thread_id = c.thread_id;
  execution_environment = c.execution_environment;
  callback_url = c.callback_url;
  status = ExecutionStatus.queued;
  current_step_id = none;
  steps = initial_steps 1 c.steps;
  created_at = now;
  started_at = none;
  completed_at = none;
  result = none;
  error_step_id = none;
  error_type = none;
  error_message = none;
  jupyter_target = none;
  session_id = none;
  kernel_id = none;
  request_msg_id = none;
  executor_id = none;
  heartbeat_at = none;
  callback_status = CallbackStatus.not_requested;
  callback_event_id = none;
  callback_attempts = 0;
  callback_error = none;
  callback_delivered_at = none;
}

-- `_find_step`: the first step with the id.
unfoldable pub step_with : String → List StepExecutionState → Option StepExecutionState
step_with step_id [] = none
step_with step_id (step ∷ steps) =
    if str_eq step.step_id step_id then some step else step_with step_id steps

-- A change to the step that `_find_step` returned, which is a reference into the list.
unfoldable pub update_step :
    String
    → (StepExecutionState → StepExecutionState)
    → List StepExecutionState
    → List StepExecutionState
update_step step_id change [] = []
update_step step_id change (step ∷ steps) =
    if str_eq step.step_id step_id
    then change step ∷ steps
    else step ∷ update_step step_id change steps

abbrev pub to_running : ℕ → String → ExecutionState → ExecutionState
to_running now executor_id s = record s {
  status = ExecutionStatus.running;
  started_at = some (or_else s.started_at now);
  executor_id = some executor_id;
  heartbeat_at = some now;
}

abbrev pub to_bound : ℕ → String → String → String → ExecutionState → ExecutionState
to_bound now target session_id kernel_id s = record s {
  jupyter_target = some target;
  session_id = some session_id;
  kernel_id = some kernel_id;
  heartbeat_at = some now;
}

abbrev pub to_requested : ℕ → String → ExecutionState → ExecutionState
to_requested now request_msg_id s = record s {
  request_msg_id = some request_msg_id;
  heartbeat_at = some now;
}

abbrev pub step_to_running : ℕ → StepExecutionState → StepExecutionState
step_to_running started_at x = record x {
  status = StepStatus.running;
  started_at = some started_at;
}

abbrev pub to_step_running : ℕ → String → List StepExecutionState → ExecutionState → ExecutionState
to_step_running now step_id steps s = record s {
  steps = steps;
  current_step_id = some step_id;
  heartbeat_at = some now;
}

abbrev pub step_to_succeeded : ℕ → Option Fields → StepExecutionState → StepExecutionState
step_to_succeeded now result x = record x {
  status = StepStatus.succeeded;
  completed_at = some now;
  result = result;
}

abbrev pub to_step_succeeded : ℕ → List StepExecutionState → ExecutionState → ExecutionState
to_step_succeeded now steps s = record s { steps = steps; heartbeat_at = some now }

abbrev pub step_to_failed :
    ℕ → String → String → Option String → StepExecutionState → StepExecutionState
step_to_failed now error_type error_message traceback x = record x {
  status = StepStatus.failed;
  completed_at = some now;
  error_type = some error_type;
  error_message = some error_message;
  traceback = traceback;
}

abbrev pub to_step_failed :
    ℕ → String → String → String → List StepExecutionState → ExecutionState → ExecutionState
to_step_failed now step_id error_type error_message steps s = record s {
  steps = steps;
  status = ExecutionStatus.failed;
  error_step_id = some step_id;
  error_type = some error_type;
  error_message = some error_message;
  completed_at = some now;
  heartbeat_at = some now;
}

abbrev pub to_infrastructure_failed : ℕ → String → String → ExecutionState → ExecutionState
to_infrastructure_failed now error_type error_message s = record s {
  status = ExecutionStatus.failed;
  error_type = some error_type;
  error_message = some error_message;
  completed_at = some now;
  heartbeat_at = some now;
}

abbrev pub to_succeeded : ℕ → Option Fields → ExecutionState → ExecutionState
to_succeeded now result s = record s {
  status = ExecutionStatus.succeeded;
  current_step_id = none;
  result = result;
  completed_at = some now;
  heartbeat_at = some now;
}

abbrev pub to_callback_pending : String → ExecutionState → ExecutionState
to_callback_pending event_id s = record s {
  callback_status = CallbackStatus.pending;
  callback_event_id = some event_id;
  callback_error = none;
}

abbrev pub to_attempted : Option String → ExecutionState → ExecutionState
to_attempted error s = record s {
  callback_attempts = s.callback_attempts + 1;
  callback_error = error;
}

abbrev pub to_callback_delivered : ℕ → ExecutionState → ExecutionState
to_callback_delivered now s = record s {
  callback_status = CallbackStatus.delivered;
  callback_error = none;
  callback_delivered_at = some now;
}

abbrev pub to_callback_failed : String → ExecutionState → ExecutionState
to_callback_failed error s = record s {
  callback_status = CallbackStatus.failed;
  callback_error = some error;
}
