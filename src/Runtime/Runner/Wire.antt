-- ===== src/Runtime/Runner/Wire.antt =====
-- The record of the frames that `run` puts on the wire, and what does not add to it.
use executor_service.Common.{ℕ, zero, suc, ◌≡◌, ◌⊎◌, String, List, [], ◌∷◌, ◌++◌}
use executor_service.Errors.{Error, timeout_error, is_infrastructure}
use executor_service.Action.{Outcome, ok}
use executor_service.Action.Triple.{
  Triple, Keeps, Triple-pure, Triple-raise, Triple-if, Triple-bind, Triple-except,
}
use executor_service.Schemas.Value.{dict_value, Fields}
use executor_service.Schemas.Command.{ExecutionStep}
use executor_service.Clients.Jupyter.{JupyterServerClient, from_outcome}
use executor_service.Clients.Jupyter.Keeps.{
  from_outcome-keeps, item-keeps, interrupt_kernel-keeps_of,
}
use executor_service.Repository.{RedisExecutionRepository}
use executor_service.Runtime.Frames.{Frame, decode_message_frame}
use executor_service.Runtime.Collector.{JupyterMessageCollector, is_complete, collect, build_result}
use executor_service.Runtime.Runner.{
  Channels, JupyterSession, listen, ignore_infrastructure, interrupt_best_effort, conclude,
  msg_id_of,
}

-- A record of the frames that were transmitted; only `transmit` adds to it, and that frame.
pub record Wire (r : RedisExecutionRepository) (client : JupyterServerClient r)
    (channels : Channels r) : Type 1 where
  pub transmitted : r.World → List Frame
  pub transmit_adds :
      (socket : channels.Connection) (frame : Frame) (l : List Frame)
      → Triple
          (λ w. transmitted w ≡ l)
          (channels.transmit socket frame)
          (λ _ w. transmitted w ≡ l ++ (frame ∷ []))
          (λ _ w. (transmitted w ≡ l) ⊎ (transmitted w ≡ l ++ (frame ∷ [])))
  pub recv_aside :
      (socket : channels.Connection) (l : List Frame)
      → Keeps (λ w. transmitted w ≡ l) (channels.recv socket)
  pub frames_in_time_aside :
      (seconds : ℕ) (l : List Frame)
      → Keeps (λ w. transmitted w ≡ l) (channels.frames_in_time seconds)
  pub msg_aside :
      (msg_type : String) (content : Fields) (l : List Frame)
      → Keeps (λ w. transmitted w ≡ l) (channels.msg msg_type content)
  pub interrupt_aside :
      (path : String) (l : List Frame) → Keeps (λ w. transmitted w ≡ l) (client.http_post path)

module _ (r : RedisExecutionRepository) (client : JupyterServerClient r) (channels : Channels r)
    (wire : Wire r client channels) where
  open wire use {transmitted}

  module _ (l : List Frame) where
    abbrev Same : r.World → Type 0
    Same w = transmitted w ≡ l

    pub read-Keeps : {A : Type 0} (o : Outcome A) → Keeps Same (from_outcome r client o)
    read-Keeps o = from_outcome-keeps r client Same o

    pub listen-Keeps :
        (socket : channels.Connection) (left : ℕ) (c : JupyterMessageCollector)
        → Keeps Same (listen r client channels socket left c)
    unfolding listen
    listen-Keeps socket zero c =
        Triple-if (is_complete c) _ _ (λ _. Triple-pure c (λ w p. p))
          (λ _. Triple-raise timeout_error (λ w p. p))
    listen-Keeps socket (suc left) c =
        Triple-if (is_complete c) _ _ (λ _. Triple-pure c (λ w p. p))
          (λ _. Triple-bind (wire.recv_aside socket l) (λ given.
            Triple-bind (read-Keeps (decode_message_frame channels.codec given)) (λ message.
              Triple-bind (read-Keeps (collect channels.codec.str message c))
                (λ d. listen-Keeps socket left d))))

    ignore-Keeps : (x : Error) → Keeps Same (ignore_infrastructure r client channels x)
    unfolding ignore_infrastructure
    ignore-Keeps x =
        Triple-if (is_infrastructure x) _ _ (λ _. Triple-pure tt (λ w p. p))
          (λ _. Triple-raise x (λ w p. p))

    pub conclude_ok-Keeps :
        (session : JupyterSession r client channels) (step : ExecutionStep)
        (c : JupyterMessageCollector)
        → Keeps Same (conclude r client channels session step (ok c))
    unfolding conclude
    conclude_ok-Keeps session step c =
        Triple-bind (read-Keeps (build_result c)) (λ result. Triple-pure _ (λ w p. p))

    pub interrupt-Keeps :
        (kernel_id : String) → Keeps Same (interrupt_best_effort r client channels kernel_id)
    unfolding interrupt_best_effort
    interrupt-Keeps kernel_id =
        Triple-except
          (interrupt_kernel-keeps_of r client Same kernel_id (λ path. wire.interrupt_aside path l))
          ignore-Keeps

    pub msg_id_of-Keeps : (message : Fields) → Keeps Same (msg_id_of r client channels message)
    unfolding msg_id_of
    msg_id_of-Keeps message =
        Triple-bind (item-keeps r client Same "header" (dict_value message)) (λ header.
          Triple-bind (item-keeps r client Same "msg_id" header) (λ id. Triple-pure _ (λ w p. p)))
