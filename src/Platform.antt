-- ===== src/Platform.antt =====
-- What the service stands on and does not implement: the clock, the Redis server behind redis-py,
-- and pydantic's JSON. A `World` is the state of all that is outside the process. The laws are
-- what the code relies on: a command that answers has done what Redis documents, one that raises
-- may or may not have been carried out, no other process writes the keys of an execution that
-- this one works on, and a dumped model validates to itself.
use executor_service.Common.{ℕ, ◌≡◌, ◌⊎◌, Bool, false, String, Option, some, str_eq, if◌then◌else◌}
use executor_service.Action.{Action}
use executor_service.Action.Triple.{Triple}
use executor_service.Schemas.Command.{ExecutionCommand}
use executor_service.Schemas.State.{ExecutionState}

-- The string keys of the server.
abbrev pub Keys : Type 0 → Type 0
Keys V = String → Option V

abbrev pub put : {V : Type 0} → String → V → Keys V → Keys V
put k v m j = if str_eq k j then some v else m j

pub record Platform : Type 1 where
  pub World : Type 0
  -- a JSON text
  pub Payload : Type 0
  pub dump_state : ExecutionState → Payload
  pub validate_state : Payload → Option ExecutionState
  pub dump_command : ExecutionCommand → Payload
  pub validate_command : Payload → Option ExecutionCommand
  pub validate-dump_state : (s : ExecutionState) → validate_state (dump_state s) ≡ some s
  -- `datetime.now(UTC)`
  pub clock : World → ℕ × World
  -- GET, SET and XACK, as redis-py has them
  pub redis_get : String → Action World (Option Payload)
  pub redis_set : String → Payload → Bool → Action World (Option Bool)
  pub redis_xack : String → String → String → Action World ℕ
  -- what the server holds
  pub stored : World → Keys Payload
  pub stored-clock : (w : World) → stored (clock w).1 ≡ stored w
  pub get_law :
      (k : String) (m : Keys Payload)
      → Triple
          (λ w. stored w ≡ m)
          (redis_get k)
          (λ v w. (v ≡ m k) × (stored w ≡ m))
          (λ _ w. stored w ≡ m)
  pub set_law :
      (k : String) (v : Payload) (m : Keys Payload)
      → Triple
          (λ w. stored w ≡ m)
          (redis_set k v false)
          (λ _ w. stored w ≡ put k v m)
          (λ _ w. (stored w ≡ m) ⊎ (stored w ≡ put k v m))
  pub xack_law :
      (stream group message_id : String) (m : Keys Payload)
      → Triple
          (λ w. stored w ≡ m)
          (redis_xack stream group message_id)
          (λ _ w. stored w ≡ m)
          (λ _ w. stored w ≡ m)
