-- ===== src/Repository.antt =====
-- repositories/redis_execution.py, RedisExecutionRepository: every method loads the whole state,
-- changes it and writes it back. What each change does to the state is in `Transitions`.
pub mod Transitions
pub mod Store
pub mod Methods
pub mod Aside
pub mod Reliable
use Prim.Native.String.{◌++◌}
use executor_service.Common.{ℕ, Bool, true, false, String, List, Option, none, some}
use executor_service.Errors.{
  Error, value_error, duplicate_execution_error, execution_not_found_error,
  execution_step_not_found_error,
}
use executor_service.Action.{Outcome, ok, raised, Action, pure, raise, ◌>>=◌, ◌>>◌}
use executor_service.Schemas.Value.{Fields}
use executor_service.Schemas.Command.{ExecutionCommand}
use executor_service.Schemas.State.{ExecutionState, StepExecutionState}
use executor_service.Clients.Redis
use executor_service.Clients.Redis.{RedisStreamClient}
use Transitions.{
  build_initial_state, step_with, update_step, to_running, to_bound, to_requested, step_to_running,
  to_step_running, step_to_succeeded, to_step_succeeded, step_to_failed, to_step_failed,
  to_infrastructure_failed, to_succeeded, to_callback_pending, to_attempted, to_callback_delivered,
  to_callback_failed,
}

pub record RedisExecutionRepository : Type 1 where
  pub redis_client : RedisStreamClient
  pub open redis_client use *
  pub key_prefix : String

module _ (r : RedisExecutionRepository) where
  -- `datetime.now(UTC)`
  unfoldable pub utc_now : Action r.World ℕ
  utc_now w = let (now, w') = r.clock w in (ok now, w')

  unfoldable pub key : String → String
  key execution_id = r.key_prefix ++ (":" ++ execution_id)

  parse : Option r.Payload → Action r.World (Option ExecutionState)
  parse none = pure none
  parse (some payload) = elim (r.validate_state payload) [
    | none ↦ raise (value_error "validation error for ExecutionState")
    | some state ↦ pure (some state)
  ]

  unfoldable pub get : String → Action r.World (Option ExecutionState)
  unfolding key parse
  get execution_id = do payload ← Redis.get r.redis_client (key execution_id); parse payload

  or_raise : {A : Type 0} → Error → Option A → Action r.World A
  or_raise x none = raise x
  or_raise x (some a) = pure a

  unfoldable pub get_required : String → Action r.World ExecutionState
  unfolding or_raise
  get_required execution_id = do
    state ← get execution_id
    or_raise (execution_not_found_error execution_id) state

  -- `create`: the key is set only if it is not there.
  unfoldable pub create : ExecutionCommand → Action r.World ExecutionState
  unfolding key utc_now
  create command = do
    now ← utc_now
    let state = build_initial_state now command
    created ← Redis.set r.redis_client (key command.execution_id) (r.dump_state state) true
    elim created [
      | none ↦ raise (duplicate_execution_error command.execution_id)
      | some false ↦ raise (duplicate_execution_error command.execution_id)
      | some true ↦ pure state
    ]

  unfoldable pub save : ExecutionState → Action r.World (Option Bool)
  unfolding key
  save state = Redis.set r.redis_client (key state.execution_id) (r.dump_state state) false

  -- The end of every method: `await self.save(state); return state`.
  unfoldable pub commit : ExecutionState → Action r.World ExecutionState
  commit state = do save state; pure state

  find_step : ExecutionState → String → Action r.World StepExecutionState
  unfolding or_raise
  find_step state step_id =
      or_raise (execution_step_not_found_error state.execution_id step_id)
        (step_with step_id state.steps)

  -- `value or datetime.now(UTC)`: the clock is read only if there is no value.
  or_now : Option ℕ → Action r.World ℕ
  or_now none = utc_now
  or_now (some t) = pure t

  unfoldable pub mark_running : String → String → Action r.World ExecutionState
  mark_running execution_id executor_id = do
    state ← get_required execution_id
    now ← utc_now
    commit (to_running now executor_id state)

  unfoldable pub bind_jupyter : String → String → String → String → Action r.World ExecutionState
  bind_jupyter execution_id target session_id kernel_id = do
    state ← get_required execution_id
    now ← utc_now
    commit (to_bound now target session_id kernel_id state)

  unfoldable pub set_request_msg_id : String → String → Action r.World ExecutionState
  set_request_msg_id execution_id request_msg_id = do
    state ← get_required execution_id
    now ← utc_now
    commit (to_requested now request_msg_id state)

  unfoldable pub mark_step_running : String → String → Action r.World ExecutionState
  unfolding find_step or_now
  mark_step_running execution_id step_id = do
    state ← get_required execution_id
    step ← find_step state step_id
    started_at ← or_now step.started_at
    now ← utc_now
    commit (
        to_step_running now step_id (update_step step_id (step_to_running started_at) state.steps)
          state)

  unfoldable pub mark_step_succeeded :
      String → String → Option Fields → Action r.World ExecutionState
  unfolding find_step
  mark_step_succeeded execution_id step_id result = do
    state ← get_required execution_id
    find_step state step_id
    completed_at ← utc_now
    now ← utc_now
    commit (
        to_step_succeeded now
          (update_step step_id (step_to_succeeded completed_at result) state.steps) state)

  unfoldable pub mark_step_failed :
      String → String → String → String → Option String → Action r.World ExecutionState
  unfolding find_step
  mark_step_failed execution_id step_id error_type error_message traceback = do
    state ← get_required execution_id
    find_step state step_id
    now ← utc_now
    commit (
        to_step_failed now step_id error_type error_message
          (update_step step_id (step_to_failed now error_type error_message traceback) state.steps)
          state)

  unfoldable pub mark_infrastructure_failed :
      String → String → String → Action r.World ExecutionState
  mark_infrastructure_failed execution_id error_type error_message = do
    state ← get_required execution_id
    now ← utc_now
    commit (to_infrastructure_failed now error_type error_message state)

  unfoldable pub mark_succeeded : String → Option Fields → Action r.World ExecutionState
  mark_succeeded execution_id result = do
    state ← get_required execution_id
    now ← utc_now
    commit (to_succeeded now result state)

  unfoldable pub mark_callback_pending : String → String → Action r.World ExecutionState
  mark_callback_pending execution_id event_id = do
    state ← get_required execution_id
    commit (to_callback_pending event_id state)

  unfoldable pub record_callback_attempt : String → Option String → Action r.World ExecutionState
  record_callback_attempt execution_id error = do
    state ← get_required execution_id
    commit (to_attempted error state)

  unfoldable pub mark_callback_delivered : String → Action r.World ExecutionState
  mark_callback_delivered execution_id = do
    state ← get_required execution_id
    now ← utc_now
    commit (to_callback_delivered now state)

  unfoldable pub mark_callback_failed : String → String → Action r.World ExecutionState
  mark_callback_failed execution_id error = do
    state ← get_required execution_id
    commit (to_callback_failed error state)
