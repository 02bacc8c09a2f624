-- ===== src/Runtime/Runner/Hears.antt =====
-- The loop of `run`, and the frames that it waits for.
use executor_service.Common.{
  ℕ, zero, suc, ◌≤◌, ◌≡◌, true, List, [], ◌∷◌, arith, length, Bool-cases, inl, inr,
}
use executor_service.Action.{ok}
use executor_service.Schemas.Value.{Fields}
use executor_service.Clients.Jupyter.{JupyterServerClient, from_outcome}
use executor_service.Repository.{RedisExecutionRepository}
use executor_service.Runtime.Frames.{Frame, decode_message_frame}
use executor_service.Runtime.Collector.{JupyterMessageCollector, is_complete, collect_all}
use executor_service.Runtime.Collector.Steps.{collect_all-cons}
use executor_service.Runtime.Runner.{Channels, listen}

module _ (r : RedisExecutionRepository) (client : JupyterServerClient r) (channels : Channels r)
    (socket : channels.Connection) where
  -- From the world `w` on, the connection gives the frames of these messages, one after the other.
  abbrev pub Gives : List Fields → r.World → Type 0
  Gives [] w = Unit {0}
  Gives (message ∷ messages) w =
      (frame : Frame) × (w' : r.World) × (channels.recv socket w ≡ (ok frame, w'))
      × (decode_message_frame channels.codec frame ≡ ok message)
      × Gives messages w'

  abbrev pub Heard : ℕ → JupyterMessageCollector → r.World → Type 0
  Heard left c w =
      (c' : JupyterMessageCollector) × (w' : r.World) × (listen r client channels socket left c w
        ≡ (ok c', w'))
      × (is_complete c' ≡ true)

  complete-Heard :
      (left : ℕ) (c : JupyterMessageCollector) (w : r.World) → is_complete c ≡ true → Heard left c w
  unfolding listen
  complete-Heard zero c w e = (c, w, rw e, e)
  complete-Heard (suc left) c w e = (c, w, rw e, e)

  -- If the connection gives the frames of some messages, no more of them than come in time, and the
  -- collector is complete after them, then the loop ends with a complete collector.
  pub listen-Heard :
      (messages : List Fields) (left : ℕ) (c c' : JupyterMessageCollector) (w : r.World)
      → length messages ≤ left
      → Gives messages w
      → collect_all channels.codec.str messages c ≡ ok c'
      → is_complete c' ≡ true
      → Heard left c w
  unfolding listen collect_all from_outcome
  listen-Heard [] left c c' w long gives all complete =
      let same : c ≡ c' = cc in complete-Heard left c w (rw (← same) at complete)
  listen-Heard (message ∷ messages) zero c c' w long gives all complete =
      let no : ⊥ = omega arith in elim no [ ]
  listen-Heard (message ∷ messages) (suc left) c c' w long (frame, w', got, read, gives) all
        complete =
      elim (Bool-cases (is_complete c)) [
        | inl e ↦ complete-Heard (suc left) c w e
        | inr e ↦
            let (d, taken, rest) = collect_all-cons channels.codec.str message messages c c' all in
            let (c'', w'', ran, done) =
              listen-Heard messages left d c' w' (omega arith) gives rest complete in
            (c'', w'', rw (e, got, read, taken) ran, done)
      ]
