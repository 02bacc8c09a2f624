-- ===== src/Runtime/Runner/Received.antt =====
-- What `run` receives: every world that it passes is named.
use executor_service.Common.{
  ℕ, zero, suc, ◌≤◌, ◌≡◌, refl, true, String, List, [], ◌∷◌, arith, length,
}
use executor_service.Errors.{Error, timeout_error}
use executor_service.Action.{Outcome, ok, raised, Action}
use executor_service.Action.Triple.{
  Triple, Post, Triple-pure, Triple-raise, Triple-bind, Triple-if, Triple-weaken, Triple-gives,
}
use executor_service.Schemas.Value.{Fields}
use executor_service.Schemas.Command.{ExecutionStep}
use executor_service.Clients.Jupyter.{JupyterServerClient, from_outcome}
use executor_service.Repository.{RedisExecutionRepository}
use executor_service.Runtime.Frames.{Frame, decode_message_frame}
use executor_service.Runtime.Collector.{
  JupyterMessageCollector, JupyterExecutionResult, is_complete, new_collector, collect, collect_all,
  build_result,
}
use executor_service.Runtime.Collector.Steps.{collect_all-step}
use executor_service.Runtime.Runner.{
  Channels, JupyterSession, listen, send, exchange, conclude, interrupt_best_effort,
}

-- Anything may happen.
abbrev pub Any : {W A : Type 0} → A → W → Type 0
Any _ _ = Unit {0}

anything-Any : {W A : Type 0} {P : W → Type 0} (a : Action W A) → Triple P a Any Any
anything-Any a = record { at = λ w _. go (a w) }
  where
    go : {W A : Type 0} (o : Outcome A × W) → Post Any Any o
    go (ok a, w) = tt
    go (raised x, w) = tt

module _ (r : RedisExecutionRepository) (client : JupyterServerClient r)
    (channels : Channels r) where
  open channels use {codec}

  -- What an action gives, and where from.
  pub onward :
      {A : Type 0} {P : r.World → Type 0} (m : Action r.World A)
      → Triple P m (λ a w. (u : r.World) × P u × (m u ≡ (ok a, w))) Any
  onward m = Triple-weaken (Triple-gives (anything-Any m)) (λ w p. p) (λ a w p. p.1) (λ x w p. tt)

  read-eq :
      {A : Type 0} {P : r.World → Type 0} (o : Outcome A)
      → Triple P (from_outcome r client o) (λ a w. P w × (o ≡ ok a)) Any
  unfolding from_outcome
  read-eq (ok a) = Triple-pure a (λ w p. (p, refl))
  read-eq (raised x) = Triple-raise x (λ w p. tt)

  -- From one world to the other, the connection gave the frames of these messages, one after the
  -- other, and nothing else happened.
  abbrev pub Received : channels.Connection → List Fields → r.World → r.World → Type 0
  Received socket [] v w = v ≡ w
  Received socket (message ∷ messages) v w =
      (frame : Frame) × (u : r.World) × (channels.recv socket v ≡ (ok frame, u))
      × (decode_message_frame codec frame ≡ ok message)
      × Received socket messages u w

  -- The collector has taken the messages that were received since, and is complete.
  abbrev pub Collected :
      channels.Connection
      → ℕ
      → JupyterMessageCollector
      → r.World
      → JupyterMessageCollector
      → r.World
      → Type 0
  Collected socket left c v c' w =
      (messages : List Fields) × (length messages ≤ left)
      × Received socket messages v w
      × (collect_all codec.str messages c ≡ ok c')
      × (is_complete c' ≡ true)

  listen-Collected :
      (socket : channels.Connection) (left : ℕ) (c : JupyterMessageCollector) (v : r.World)
      → Triple (λ w. v ≡ w) (listen r client channels socket left c) (Collected socket left c v) Any
  unfolding listen collect_all
  listen-Collected socket zero c v =
      Triple-if (is_complete c) _ _ (λ e. Triple-pure c (λ w p. ([], omega arith, p, refl, e)))
        (λ e. Triple-raise timeout_error (λ w p. tt))
  listen-Collected socket (suc left) c v =
      Triple-if (is_complete c) _ _ (λ e. Triple-pure c (λ w p. ([], omega arith, p, refl, e)))
        (λ e. Triple-bind (onward (channels.recv socket)) (λ frame.
          Triple-bind (read-eq (decode_message_frame codec frame)) (λ message.
            Triple-bind (read-eq (collect codec.str message c)) (λ d. record {
              at = λ w (((u, p, got), read), taken).
                  (Triple-weaken (listen-Collected socket left d w) (λ w p. p)
                      (λ c' w' (messages, few, rest, all, done). (
                        message ∷ messages,
                        omega arith,
                        (frame, w, rw p got, read, rest),
                        collect_all-step codec.str message messages c d c' taken all,
                        done,
                      ))
                      (λ x w' p. p)).at
                    w refl;
            }))))

  -- After an exception nothing is returned.
  pub conclude-raises :
      {P : r.World → Type 0} {Q : Fields → r.World → Type 0}
      (session : JupyterSession r client channels) (step : ExecutionStep) (x : Error)
      → Triple P (conclude r client channels session step (raised x)) Q Any
  unfolding conclude
  conclude-raises session step timeout_error =
      Triple-bind
        (anything-Any (interrupt_best_effort r client channels session.session_info.kernel_id))
        (λ _. Triple-raise _ (λ w p. tt))
  conclude-raises session step _ = Triple-raise _ (λ w p. tt)

  -- The collector took what came in answer to the message that was sent at `told_at`.
  abbrev pub Exchanged :
      (r.World → Type 0)
      → JupyterSession r client channels
      → ExecutionStep
      → Fields
      → String
      → JupyterMessageCollector
      → r.World
      → Type 0
  Exchanged P session step message id c w =
      (frames : ℕ) × (timed_at : r.World) × ((sent_at : r.World) × ((told_at : r.World) × P told_at
          × (send r client channels session.websocket message told_at ≡ (ok tt, sent_at)))
        × (channels.frames_in_time step.timeout_seconds sent_at ≡ (ok frames, timed_at)))
      × Collected session.websocket frames (new_collector id step.step_id) timed_at c w

  pub exchange-Exchanged :
      {P : r.World → Type 0} (session : JupyterSession r client channels) (step : ExecutionStep)
      (message : Fields) (id : String)
      → Triple P
          (exchange r client channels session step message id)
          (Exchanged P session step message id)
          Any
  unfolding exchange
  exchange-Exchanged session step message id =
      Triple-bind (onward (send r client channels session.websocket message)) (λ _.
        Triple-bind (onward (channels.frames_in_time step.timeout_seconds)) (λ frames. record {
          at = λ w p.
              (Triple-weaken
                  (listen-Collected session.websocket frames (new_collector id step.step_id) w)
                  (λ u q. q) (λ c u q. (frames, w, p, q)) (λ x u q. q)).at
                w refl;
        }))

  pub conclude-gives :
      {P : r.World → Type 0} (session : JupyterSession r client channels) (step : ExecutionStep)
      (c : JupyterMessageCollector)
      → Triple P
          (conclude r client channels session step (ok c))
          (λ fields w.
            P w
            × ((result : JupyterExecutionResult) × (build_result c ≡ ok result)
                × (fields ≡ channels.dump_result result)))
          Any
  unfolding conclude
  conclude-gives session step c =
      Triple-bind (read-eq (build_result c))
        (λ result. Triple-pure (channels.dump_result result) (λ w (p, e). (p, (result, e, refl))))
