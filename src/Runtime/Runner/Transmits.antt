-- ===== src/Runtime/Runner/Transmits.antt =====
-- How many frames `run` puts on the wire.
use executor_service.Common.{◌≡◌, ◌⊎◌, inl, inr, String, List, [], ◌∷◌, ◌++◌}
use executor_service.Action.{Action}
use executor_service.Action.Triple.{Triple, Keeps, Triple-weaken}
use executor_service.Schemas.Command.{ExecutionStep}
use executor_service.Clients.Jupyter.{JupyterServerClient}
use executor_service.Repository.{RedisExecutionRepository}
use executor_service.Runtime.Frames.{Frame}
use executor_service.Runtime.Runner.{Channels, JupyterSession, run}
use executor_service.Runtime.Runner.Wire.{Wire}
use executor_service.Runtime.Runner.Requests.{run-Added}

module _ (r : RedisExecutionRepository) (client : JupyterServerClient r) (channels : Channels r)
    (wire : Wire r client channels) where
  open wire use {transmitted}

  -- One frame more.
  abbrev pub More : List Frame → r.World → Type 0
  More l w = (frame : Frame) × (transmitted w ≡ l ++ (frame ∷ []))

  -- If the callback transmits nothing, then `run` transmits one frame if it returns, and at most one
  -- if it raises.
  pub run-More :
      (on_request_started : String → Action r.World (Unit {0}))
      (session : JupyterSession r client channels) (step : ExecutionStep) (l : List Frame)
      → ((id : String) → Keeps (λ w. transmitted w ≡ l) (on_request_started id))
      → Triple
          (λ w. transmitted w ≡ l)
          (run r client channels on_request_started session step)
          (λ _. More l)
          (λ _ w. (transmitted w ≡ l) ⊎ More l w)
  run-More on_request_started session step l h =
      Triple-weaken (run-Added r client channels wire on_request_started session step l h)
        (λ w p. p) (λ v w (frame, _, e). (frame, e))
        (λ x w p. elim p [ inl e ↦ inl e | inr (frame, _, e) ↦ inr (frame, e) ])
