-- ===== src/Services/Execution/Runner.antt =====
-- The protocols ExecutionRunner and SessionStepRunner of services/execution.py: what
-- ExecutionService asks of a runner.
use executor_service.Common.{◌≡◌, String, Option}
use executor_service.Errors.{Error}
use executor_service.Action.{Action}
use executor_service.Action.Triple.{Triple}
use executor_service.Schemas.Value.{Fields}
use executor_service.Schemas.Command.{ExecutionStep}
use executor_service.Platform.{Keys}
use executor_service.Clients.Jupyter.{JupyterSessionInfo}
use executor_service.Repository.{RedisExecutionRepository}

-- `open` is entered by `open_session` and left by `close`; `run` is given the callback that `open`
-- was given. The laws: a runner writes to Redis only through that callback.
pub record ExecutionRunner (r : RedisExecutionRepository) : Type 1 where
  pub Session : Type 0
  pub session_info : Session → JupyterSessionInfo
  pub open_session : String → String → Action r.World Session
  pub run : (String → Action r.World (Unit {0})) → Session → ExecutionStep → Action r.World Fields
  pub close : Session → Option Error → Action r.World (Unit {0})
  pub open_session_law :
      (execution_id kernel_name : String) (m : Keys r.Payload)
      → Triple
          (λ w. r.stored w ≡ m)
          (open_session execution_id kernel_name)
          (λ _ w. r.stored w ≡ m)
          (λ _ w. r.stored w ≡ m)
  pub run_law :
      (P : Keys r.Payload → Type 0) (on_request_started : String → Action r.World (Unit {0}))
      (session : Session) (step : ExecutionStep)
      → ((message_id : String)
          → Triple
              (λ w. P (r.stored w))
              (on_request_started message_id)
              (λ _ w. P (r.stored w))
              (λ _ w. P (r.stored w)))
      → Triple
          (λ w. P (r.stored w))
          (run on_request_started session step)
          (λ _ w. P (r.stored w))
          (λ _ w. P (r.stored w))
  pub close_law :
      (session : Session) (x : Option Error) (m : Keys r.Payload)
      → Triple
          (λ w. r.stored w ≡ m)
          (close session x)
          (λ _ w. r.stored w ≡ m)
          (λ _ w. r.stored w ≡ m)
