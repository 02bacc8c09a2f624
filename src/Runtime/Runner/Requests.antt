-- ===== src/Runtime/Runner/Requests.antt =====
-- The requests that `run` puts on the wire.
use executor_service.Common.{refl, ℕ, ◌≡◌, ◌⊎◌, inl, inr, String, List, [], ◌∷◌, ◌++◌}
use executor_service.Errors.{Error, timeout_error}
use executor_service.Action.{Outcome, ok, raised, Action, attempt, ◌>>=◌, ◌>>◌}
use executor_service.Action.Triple.{
  Triple, Keeps, Triple-raise, Triple-if, Triple-bind, Triple-weaken, Triple-attempt, Triple-gives,
}
use executor_service.Schemas.Value.{str_value, Fields}
use executor_service.Schemas.Command.{ExecutionStep}
use executor_service.Clients.Jupyter.{JupyterServerClient, from_outcome}
use executor_service.Repository.{RedisExecutionRepository}
use executor_service.Runtime.Frames.{Frame, text, binary, set_value, encode_v1_message}
use executor_service.Runtime.Collector.{new_collector}
use executor_service.Runtime.Runner.{
  Channels, JupyterSession, send, interrupt_best_effort, conclude, msg_id_of, request_content,
  exchange, run,
}
use executor_service.Runtime.Runner.Wire.{
  Wire, listen-Keeps, conclude_ok-Keeps, interrupt-Keeps, msg_id_of-Keeps,
}

module _ (r : RedisExecutionRepository) (client : JupyterServerClient r)
    (channels : Channels r) where
  -- The frame is that of the message, in the text form or in the v1 form.
  abbrev pub Carries : Fields → Frame → Type 0
  Carries message frame =
      ((json : String) × (frame ≡ text json) × (channels.dumps_text message ≡ ok json))
      ⊎ ((bytes : List ℕ) × (frame ≡ binary bytes)
          × (encode_v1_message channels.codec message ≡ ok bytes))

  -- The frame carries a message that was made to run the code of the step, on the shell channel.
  abbrev pub IsRequest : ExecutionStep → Frame → Type 0
  IsRequest step frame =
      (created : Fields) × (v : r.World) × (w : r.World) × (channels.msg "execute_request"
          (request_content r client channels step.code) v
        ≡ (ok created, w))
      × Carries (set_value "channel" (str_value "shell") created) frame

module _ (r : RedisExecutionRepository) (client : JupyterServerClient r) (channels : Channels r)
    (wire : Wire r client channels) where
  open wire use {transmitted}

  module _ (l : List Frame) where
    abbrev Same : r.World → Type 0
    Same w = transmitted w ≡ l

    -- One frame more, of which `R` holds.
    abbrev pub Added : (Frame → Type 0) → r.World → Type 0
    Added R w = (frame : Frame) × R frame × (transmitted w ≡ l ++ (frame ∷ []))

    sent-Added :
        (R : Frame → Type 0) (socket : channels.Connection) (frame : Frame)
        → R frame
        → Triple Same (channels.transmit socket frame) (λ _. Added R) (λ _ w. Same w ⊎ Added R w)
    sent-Added R socket frame h =
        Triple-weaken (wire.transmit_adds socket frame l) (λ w p. p) (λ _ w e. (frame, h, e))
          (λ x w p. elim p [ inl e ↦ inl e | inr e ↦ inr (frame, h, e) ])

    -- What was read, and sent if it could be.
    read_sent :
        {A : Type 0} (R : Frame → Type 0) (o : Outcome A) (socket : channels.Connection)
        (frame_of : A → Frame)
        → ((a : A) → o ≡ ok a → R (frame_of a))
        → Triple Same
            (do a ← from_outcome r client o; channels.transmit socket (frame_of a))
            (λ _. Added R)
            (λ _ w. Same w ⊎ Added R w)
    unfolding from_outcome
    read_sent R (ok a) socket frame_of h = record {
      at = λ w p. (sent-Added R socket (frame_of a) (h a refl)).at w p;
    }
    read_sent R (raised x) socket frame_of h = record { at = λ w p. inl p }

    send-Added :
        (socket : channels.Connection) (message : Fields)
        → Triple Same
            (send r client channels socket message)
            (λ _. Added (Carries r client channels message))
            (λ _ w. Same w ⊎ Added (Carries r client channels message) w)
    unfolding send
    send-Added socket message =
        Triple-if (channels.uses_v1 socket) _ _
          (λ _.
            read_sent (Carries r client channels message) (encode_v1_message channels.codec message)
              socket binary (λ frame e. inr (frame, refl, e)))
          (λ _.
            read_sent (Carries r client channels message) (channels.dumps_text message) socket text
              (λ json e. inl (json, refl, e)))

  -- What goes on after one frame more is at a record of its own.
  pub at_Added :
      {A : Type 0} {m : Action r.World A} {R : Frame → Type 0} (l : List Frame)
      → ((k : List Frame) → Keeps (λ w. transmitted w ≡ k) m)
      → Keeps (Added l R) m
  at_Added l h = record {
    at = λ w (frame, c, e).
        (Triple-weaken (h (l ++ (frame ∷ []))) (λ w p. p) (λ a w p. (frame, c, p))
            (λ x w p. (frame, c, p))).at
          w e;
  }

  either_Keeps :
      {A : Type 0} {m : Action r.World A} {R : Frame → Type 0} (l : List Frame)
      → ((k : List Frame) → Keeps (λ w. transmitted w ≡ k) m)
      → Keeps (λ w. Same l w ⊎ Added l R w) m
  either_Keeps l h = record {
    at = λ w p. elim p [
      | inl e ↦ (Triple-weaken (h l) (λ w p. p) (λ a w p. inl p) (λ x w p. inl p)).at w e
      | inr e ↦ (Triple-weaken (at_Added l h) (λ w p. p) (λ a w p. inr p) (λ x w p. inr p)).at w e
    ];
  }

  -- After an exception `conclude` raises one.
  conclude_raised-Keeps :
      (F : r.World → Type 0) (Q : Fields → r.World → Type 0)
      (session : JupyterSession r client channels) (step : ExecutionStep) (x : Error)
      → ((kernel_id : String) → Keeps F (interrupt_best_effort r client channels kernel_id))
      → Triple F (conclude r client channels session step (raised x)) Q (λ _. F)
  unfolding conclude
  conclude_raised-Keeps F Q session step timeout_error h =
      Triple-bind (h session.session_info.kernel_id) (λ _. Triple-raise _ (λ w p. p))
  conclude_raised-Keeps F Q session step _ h = Triple-raise _ (λ w p. p)

  exchange-Added :
      (session : JupyterSession r client channels) (step : ExecutionStep) (message : Fields)
      (id : String) (l : List Frame)
      → Triple
          (Same l)
          (exchange r client channels session step message id)
          (λ _. Added l (Carries r client channels message))
          (λ _ w. Same l w ⊎ Added l (Carries r client channels message) w)
  unfolding exchange
  exchange-Added session step message id l =
      Triple-bind (send-Added l session.websocket message) (λ _.
        Triple-weaken
          (Triple-bind (at_Added l (wire.frames_in_time_aside step.timeout_seconds)) (λ frames.
            at_Added l (λ k.
              listen-Keeps r client channels wire k session.websocket frames
                (new_collector id step.step_id))))
          (λ w p. p) (λ c w p. p) (λ x w p. inr p))

  raising :
      {A : Type 0} {m : Action r.World A} (l : List Frame) (R : Frame → Type 0)
      → Keeps (Same l) m
      → Triple (Same l) m (λ _. Same l) (λ _ w. Same l w ⊎ Added l R w)
  raising l R t = Triple-weaken t (λ w p. p) (λ a w p. p) (λ x w p. inl p)

  -- What follows the making of the message.
  requested :
      (on_request_started : String → Action r.World (Unit {0}))
      (session : JupyterSession r client channels) (step : ExecutionStep) (l : List Frame)
      (message : Fields)
      → ((id : String) → Keeps (λ w. transmitted w ≡ l) (on_request_started id))
      → Triple
          (Same l)
          (do
            id ← msg_id_of r client channels message
            on_request_started id
            outcome ← attempt (exchange r client channels session step message id)
            conclude r client channels session step outcome)
          (λ _. Added l (Carries r client channels message))
          (λ _ w. Same l w ⊎ Added l (Carries r client channels message) w)
  requested on_request_started session step l message h =
      Triple-bind
        (raising l (Carries r client channels message)
          (msg_id_of-Keeps r client channels wire l message))
        (λ id. Triple-bind (raising l (Carries r client channels message) (h id)) (λ _.
          Triple-attempt (conclude r client channels session step)
            (exchange-Added session step message id l)
            (λ c.
              Triple-weaken
                (at_Added l (λ k. conclude_ok-Keeps r client channels wire k session step c))
                (λ w p. p) (λ a w p. p) (λ x w p. inr p))
            (λ x.
              conclude_raised-Keeps (λ w. Same l w ⊎ Added l (Carries r client channels message) w)
                _ session step x
                (λ kernel_id.
                  either_Keeps l (λ k. interrupt-Keeps r client channels wire k kernel_id)))))

  -- If the callback transmits nothing, then `run` transmits one frame if it returns, and at most one
  -- if it raises; that frame carries a request to run the code of the step.
  pub run-Added :
      (on_request_started : String → Action r.World (Unit {0}))
      (session : JupyterSession r client channels) (step : ExecutionStep) (l : List Frame)
      → ((id : String) → Keeps (λ w. transmitted w ≡ l) (on_request_started id))
      → Triple
          (λ w. transmitted w ≡ l)
          (run r client channels on_request_started session step)
          (λ _. Added l (IsRequest r client channels step))
          (λ _ w. (transmitted w ≡ l) ⊎ Added l (IsRequest r client channels step) w)
  unfolding run
  run-Added on_request_started session step l h =
      Triple-bind
        (Triple-gives (
          raising l (IsRequest r client channels step)
            (wire.msg_aside "execute_request" (request_content r client channels step.code) l)))
        (λ created. record {
          at = λ w (p, (v, _, e)).
              (Triple-weaken
                  (requested on_request_started session step l
                    (set_value "channel" (str_value "shell") created) h)
                  (λ u q. q) (λ _ u (frame, c, q). (frame, (created, v, w, e, c), q))
                  (λ x u q. elim q [
                    | inl same ↦ inl same
                    | inr (frame, c, more) ↦ inr (frame, (created, v, w, e, c), more)
                  ])).at
                w p;
        })
