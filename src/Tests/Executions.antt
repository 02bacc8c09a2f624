-- ===== src/Tests/Executions.antt =====
-- Executions of a command of two steps, from its submission to its callback.
use executor_service.Common.{
  ℕ, ◌≡◌, refl, ◌<◌, ◌↔◌, inl, true, String, List, [], ◌∷◌, Option, none, some, arith, eq_iff,
  eq_refl,
}
use executor_service.Errors.{code_execution_error, http_error}
use executor_service.Action.{Outcome, ok, raised}
use executor_service.Action.Triple.{Post}
use executor_service.Schemas.Value.{Fields, empty}
use executor_service.Schemas.Command.{
  ExecutionStep, ExecutionCommand, analysis, validate, has_unique_step_ids,
}
use executor_service.Schemas.Command.Unique.{Distinct, has_unique_step_ids_iff, validate-Distinct}
use executor_service.Schemas.State.{ExecutionStatus, CallbackStatus, ExecutionState}
use executor_service.Platform.{Keys, put}
use executor_service.Repository.{
  utc_now, key, get, get_required, save, commit, mark_running, bind_jupyter, set_request_msg_id,
  mark_step_running, mark_step_succeeded, mark_step_failed, mark_succeeded, mark_callback_pending,
  record_callback_attempt, mark_callback_delivered,
}
use executor_service.Clients.Redis
use executor_service.Clients.Agent.{send}
use executor_service.Schemas.Callback.{from_state}
use executor_service.Repository.Transitions.{
  build_initial_state, initial_steps, step_with, update_step,
}
use executor_service.Repository.Store.{At, Holds, Now}
use executor_service.Services.Execution
use executor_service.Services.Execution.{ExecutionService}
use executor_service.Services.Execution.Progress.{IsSubmitted, Settled, IsTruthful}
use executor_service.Services.Execution.Progress.Initial.{build_initial_state-IsSubmitted}
use executor_service.Services.Execution.Settles.{execute-settles}
use executor_service.Services.Callback.{event_id_of, deliver}
use executor_service.Services.Callback.Trying.{SameExecution}
use executor_service.Services.Callback.Concludes.{Reported, deliver-concludes}
use executor_service.Services.Processor
use executor_service.Services.Processor.Concludes.{
  Known, submitted, IsConcluded, IsDated, execute-concludes,
}
use executor_service.Services.Processor.Recovery.{changed, execute_again}
use executor_service.Workers.Execution.Acknowledges.{
  Acknowledged, LeftPending, process_message_acknowledges,
}
use executor_service.Tests.Memory.{
  Json, state_json, Memory, repository, service, callback_service, processor,
}

abbrev pub step : String → ExecutionStep
step id = record { step_id = id; name = id; code = "pass"; timeout_seconds = 30 }

abbrev pub command : ExecutionCommand
command = record {
  execution_id = "exec-001";
  thread_id = "thread-001";
  execution_environment = analysis;
  steps = step "step-1" ∷ step "step-2" ∷ [];
  callback_url = "http://agent.test/callback";
  stop_on_error = true;
  created_at = 0;
}

abbrev pub nothing : Keys Json
nothing _ = none

abbrev pub initial : ExecutionState
initial = build_initial_state 0 command

abbrev pub id : String
id = "exec-001"

pub validated : validate command ≡ some command
unfolding validate has_unique_step_ids
validated = refl

has_unique_step_ids_iff_example : (has_unique_step_ids command ≡ true) ↔ Distinct command.steps
has_unique_step_ids_iff_example = has_unique_step_ids_iff command

validate-Distinct_example : (command ≡ command) × (0 < 2) × Distinct command.steps
validate-Distinct_example = validate-Distinct command command validated

build_initial_state-IsSubmitted_example : IsSubmitted command.steps initial
build_initial_state-IsSubmitted_example =
    build_initial_state-IsSubmitted 0 command command validated

-- A memory that holds one state, and how the next runs and posts end.
abbrev pub world : ExecutionState → List (Outcome Fields) → List (Outcome (Unit {0})) → Memory
world s runs posts = record {
  keys = put (key repository id) (state_json s) nothing;
  entries = [];
  frames = [];
  transmitted = [];
  sent = [];
  closed = [];
  slept = 0;
  time = 10;
  runs = runs;
  posts = posts;
}

-- What is so of a state is so of a store that holds it.
pub stored-At :
    {P : ExecutionState → Type 0} (s : ExecutionState) (runs : List (Outcome Fields))
    (posts : List (Outcome (Unit {0})))
    → s.execution_id ≡ id
    → P s
    → At repository id nothing P s (repository.stored (world s runs posts))
stored-At s runs posts own h = record {
  payload = state_json s;
  found = rw (eq_refl (key repository id));
  decoded = refl;
  own = own;
  holds = h;
  others = λ j ne. ground (arith, eq_iff (key repository id) j);
}

abbrev failing : List (Outcome Fields)
failing = ok empty ∷ raised (code_execution_error "step-2" "NameError" "x" none) ∷ []

-- The second step fails, and the agent answers the second time.
abbrev fresh : Memory
fresh = world initial failing (raised (http_error "503") ∷ ok tt ∷ [])

pub initial-id : initial.execution_id ≡ id
unfolding build_initial_state
initial-id = refl

fresh-Holds : (P : ExecutionState → Type 0) → P initial → Holds repository id nothing P fresh
fresh-Holds P h =
    (initial, stored-At initial failing (raised (http_error "503") ∷ ok tt ∷ []) initial-id h)

pub initial-IsSubmitted : IsSubmitted command.steps initial
initial-IsSubmitted = build_initial_state-IsSubmitted 0 command command validated

execute-settles_example :
    Post
      (Now repository id nothing (Settled true))
      (λ _. Holds repository id nothing IsTruthful)
      (Execution.execute repository service command fresh)
execute-settles_example =
    execute-settles repository service command nothing fresh
      (fresh-Holds (IsSubmitted command.steps) initial-IsSubmitted)

abbrev pub ended : ExecutionState
ended = record initial {
  status = ExecutionStatus.failed;
  completed_at = some 9;
  error_step_id = some "step-2";
}

deliver-concludes_example :
    Post
      (Now repository id nothing (Reported repository callback_service ended nothing))
      (λ _. Holds repository id nothing (SameExecution ended))
      (deliver repository callback_service ended (world ended [] (raised (http_error "503") ∷ [])))
unfolding build_initial_state
deliver-concludes_example =
    deliver-concludes repository callback_service ended nothing
      (world ended [] (raised (http_error "503") ∷ []))
      (stored-At ended [] (raised (http_error "503") ∷ []) initial-id refl)

execute-concludes_example :
    Post
      (Now repository id nothing IsConcluded)
      (λ _. Holds repository id nothing IsDated)
      (Processor.execute repository processor command fresh)
execute-concludes_example =
    execute-concludes repository processor nothing command fresh
      (fresh-Holds (Known command) (submitted initial-IsSubmitted))

process_message_acknowledges_example :
    Post
      (Acknowledged repository processor "1-0" command nothing fresh)
      (LeftPending repository processor "1-0" command nothing fresh)
      (Processor.execute repository processor command fresh)
process_message_acknowledges_example =
    process_message_acknowledges repository processor "1-0" command nothing fresh
      (fresh-Holds (Known command) (submitted initial-IsSubmitted))

abbrev bound : ExecutionState
bound = record initial { status = ExecutionStatus.running; kernel_id = some "kernel-1" }

-- Another execution service, under another name.
abbrev other_service : ExecutionService repository
other_service = record service { executor_id = "worker-2" }

execute_again_example :
    Processor.execute repository
      (changed repository processor other_service)
      command
      (world bound [] [])
    ≡ Processor.execute repository processor command (world bound [] [])
execute_again_example =
    execute_again repository processor other_service nothing command (world bound [] [])
      (bound, stored-At bound [] [] initial-id (inl refl))

-- What a run has left in the store.
abbrev result_of : Outcome ExecutionState × Memory → Option (ExecutionStatus × CallbackStatus × ℕ)
result_of (ok s, w) = some (s.status, s.callback_status, s.callback_attempts)
result_of (raised x, w) = none

failed_and_delivered :
    result_of (Processor.execute repository processor command fresh)
    ≡ some (ExecutionStatus.failed, CallbackStatus.delivered, 2)
unfolding Processor.execute Processor.choose utc_now Redis.get Redis.set key Execution.resolve
    Execution.execute deliver get_required get mark_running bind_jupyter set_request_msg_id
    mark_step_running mark_step_succeeded mark_step_failed mark_succeeded mark_callback_pending
    record_callback_attempt mark_callback_delivered commit save build_initial_state initial_steps
    step_with update_step Execution.request_started send from_state event_id_of
failed_and_delivered = refl
