-- ===== src/Errors.antt =====
-- exceptions/execution.py, clients/agent.py (CallbackDeliveryError), and the exceptions of the
-- runtime and of the third-party packages that the code raises or catches by name.
use executor_service.Common.{ℕ, Bool, true, false, String, Option}
use Prim.Native.String.{◌++◌}

-- An exception that is in flight. A third-party exception carries its text, `str(exc)`.
pub data Error : Type 0 where
  code_execution_error : String → String → String → Option String → Error
  infrastructure_error : String → Error
  kernel_not_found_error : String → Error
  duplicate_execution_error : String → Error
  execution_not_found_error : String → Error
  execution_step_not_found_error : String → String → Error
  callback_delivery_error : String → Error
  http_exception : ℕ → String → Error
  value_error : String → Error
  type_error : String → Error
  key_error : String → Error
  struct_error : Error
  redis_error : String → Error
  -- redis-py's ResponseError, a subclass of RedisError
  response_error : String → Error
  http_error : String → Error
  timeout_error : Error
  connection_closed : Error
  cancelled_error : Error
  other_error : String → Error

-- `isinstance(exc, InfrastructureError)`: KernelNotFoundError is a subclass.
abbrev pub is_infrastructure : Error → Bool
is_infrastructure (infrastructure_error _) = true
is_infrastructure (kernel_not_found_error _) = true
is_infrastructure _ = false

-- `except Exception` lets asyncio.CancelledError, a BaseException, pass.
abbrev pub is_exception : Error → Bool
is_exception cancelled_error = false
is_exception _ = true

-- `except (InfrastructureError, ValueError, struct.error)`
abbrev pub is_bad_frame : Error → Bool
is_bad_frame (value_error _) = true
is_bad_frame struct_error = true
is_bad_frame x = is_infrastructure x

-- `str(exc)`: the message that the constructor hands to `super().__init__`.
unfoldable pub describe : Error → String
describe (code_execution_error _ _ message _) = message
describe (infrastructure_error message) = message
describe (kernel_not_found_error kernel_id) = "Jupyter kernel not found: " ++ kernel_id
describe (duplicate_execution_error execution_id) = "Execution already exists: " ++ execution_id
describe (execution_not_found_error execution_id) = "Execution state not found: " ++ execution_id
describe (execution_step_not_found_error execution_id step_id) =
    "Execution step not found: execution_id=" ++ (execution_id ++ (", step_id=" ++ step_id))
describe (callback_delivery_error message) = message
describe (http_exception _ detail) = detail
describe (value_error message) = message
describe (type_error message) = message
describe (key_error message) = message
describe struct_error = ""
describe (redis_error message) = message
describe (response_error message) = message
describe (http_error message) = message
describe timeout_error = ""
describe connection_closed = ""
describe cancelled_error = ""
describe (other_error message) = message
