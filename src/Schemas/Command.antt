-- ===== src/Schemas/Command.antt =====
-- schemas/command.py: what a client submits, and its validation.
pub mod Unique
use executor_service.Common.{
  ℕ, Bool, true, false, not, ◌&&◌, ◌||◌, String, List, [], ◌∷◌, map, Option, none, some, ltb, ◌==◌,
  str_eq, length, if◌then◌else◌,
}

pub data ExecutionEnvironment : Type 0 where
  analysis modeling : ExecutionEnvironment

pub record ExecutionStep : Type 0 where
  pub step_id : String
  pub name : String
  pub code : String
  pub timeout_seconds : ℕ

-- `created_at` is a reading of the clock.
pub record ExecutionCommand : Type 0 where
  pub execution_id : String
  pub thread_id : String
  pub execution_environment : ExecutionEnvironment
  pub steps : List ExecutionStep
  pub callback_url : String
  pub stop_on_error : Bool
  pub created_at : ℕ

-- `x in list`
unfoldable pub contains : String → List String → Bool
contains x [] = false
contains x (y ∷ ys) = str_eq x y || contains x ys

-- `set(list)`, as the list of its distinct members.
unfoldable pub distinct : List String → List String
unfolding contains
distinct [] = []
distinct (x ∷ xs) = let rest = distinct xs in if contains x rest then rest else x ∷ rest

-- `min_length=1` of a text field.
abbrev is_filled : String → Bool
is_filled s = not (str_eq s "")

-- The constraints of the fields of a step: `min_length=1`, `gt=0`.
unfoldable pub is_valid_step : ExecutionStep → Bool
is_valid_step s =
    is_filled s.step_id && is_filled s.name && is_filled s.code && ltb 0 s.timeout_seconds

all_valid : List ExecutionStep → Bool
unfolding is_valid_step
all_valid [] = true
all_valid (s ∷ ss) = is_valid_step s && all_valid ss

unfoldable pub step_ids : List ExecutionStep → List String
step_ids = map (λ s. s.step_id)

-- `validate_unique_step_ids`: no id is lost when the ids are put into a set.
unfoldable pub has_unique_step_ids : ExecutionCommand → Bool
unfolding distinct step_ids
has_unique_step_ids c = length (step_ids c.steps) == length (distinct (step_ids c.steps))

-- The field constraints of a command, then the validator that runs after them.
unfoldable pub validate : ExecutionCommand → Option ExecutionCommand
unfolding has_unique_step_ids all_valid
validate c =
    if is_filled c.execution_id
      && is_filled c.thread_id
      && ltb 0 (length c.steps)
      && all_valid c.steps
      && has_unique_step_ids c
    then some c
    else none
