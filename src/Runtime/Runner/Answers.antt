-- ===== src/Runtime/Runner/Answers.antt =====
-- What `run` returns.
use executor_service.Common.{
  ℕ, ◌≤◌, ◌≡◌, refl, ◌&&◌, Bool, true, false, String, List, str_eq, length,
}
use executor_service.Action.{Outcome, ok, Action, attempt, ◌>>=◌, ◌>>◌}
use executor_service.Action.Triple.{Triple, Post, Triple-bind, Triple-attempt, Triple-weaken}
use executor_service.Schemas.Value.{str_value, Fields}
use executor_service.Schemas.Callback.{text_or}
use executor_service.Schemas.Command.{ExecutionStep}
use executor_service.Clients.Jupyter.{JupyterServerClient}
use executor_service.Repository.{RedisExecutionRepository}
use executor_service.Runtime.Frames.{set_value}
use executor_service.Runtime.Collector.{
  JupyterMessageCollector, JupyterExecutionResult, new_collector, collect_all, build_result,
}
use executor_service.Runtime.Collector.Shown.{events, shown}
use executor_service.Runtime.Collector.Complete.{is_replied, is_idled}
use executor_service.Runtime.Collector.Results.{Answers, last_status, build_result-Answers}
use executor_service.Runtime.Runner.{
  Channels, JupyterSession, send, exchange, conclude, msg_id_of, run, request_content,
}
use executor_service.Runtime.Runner.Received.{
  Any, onward, Received, Exchanged, exchange-Exchanged, conclude-gives, conclude-raises,
}

module _ (r : RedisExecutionRepository) (client : JupyterServerClient r)
    (channels : Channels r) where
  open channels use {codec}

  -- An answer that is a result.
  answer_of :
      (request_msg_id step_id : String) (messages : List Fields) (complete okay : Bool)
      (o : Outcome JupyterExecutionResult) (result : JupyterExecutionResult)
      → Answers codec.str request_msg_id step_id messages complete okay o
      → o ≡ ok result
      → (complete ≡ true)
        × (okay ≡ true)
        × (result.outputs ≡ shown (events codec.str request_msg_id messages))
  answer_of id step messages false okay o result a e = cc
  answer_of id step messages true false o result (_, _, _, a) e = cc
  answer_of id step messages true true o result (given, a, outputs) e =
      let same : given ≡ result = cc in (refl, refl, rw (← same) outputs)

  -- From the world `v` on, `run` made the message of the request, told its id, sent it, and received
  -- `messages`, no more than came in time; and what it returned is the result of them.
  pub record Answered (on_request_started : String → Action r.World (Unit {0}))
      (session : JupyterSession r client channels) (step : ExecutionStep) (v : r.World)
      (fields : Fields) (w : r.World) : Type 0 where
    created : Fields
    request_msg_id : String
    frames : ℕ
    messages : List Fields
    collector : JupyterMessageCollector
    result : JupyterExecutionResult
    made_at : r.World
    named_at : r.World
    told_at : r.World
    sent_at : r.World
    timed_at : r.World
    made :
        channels.msg "execute_request" (request_content r client channels step.code) v
        ≡ (ok created, made_at)
    named :
        msg_id_of r client channels (set_value "channel" (str_value "shell") created) made_at
        ≡ (ok request_msg_id, named_at)
    told : on_request_started request_msg_id named_at ≡ (ok tt, told_at)
    sent :
        send r client channels session.websocket
          (set_value "channel" (str_value "shell") created)
          told_at
        ≡ (ok tt, sent_at)
    timed : channels.frames_in_time step.timeout_seconds sent_at ≡ (ok frames, timed_at)
    received : Received r client channels session.websocket messages timed_at w
    in_time : length messages ≤ frames
    collected :
        collect_all codec.str messages (new_collector request_msg_id step.step_id) ≡ ok collector
    built : build_result collector ≡ ok result
    dumped : fields ≡ channels.dump_result result
    outputs : result.outputs ≡ shown (events codec.str request_msg_id messages)
    complete : is_replied request_msg_id messages && is_idled request_msg_id messages ≡ true
    okay : str_eq (text_or (last_status codec.str request_msg_id messages) "") "ok" ≡ true

  -- What is known when `run` has told the id of its request.
  abbrev Told :
      (String → Action r.World (Unit {0}))
      → ExecutionStep
      → r.World
      → Fields
      → String
      → r.World
      → Type 0
  Told on_request_started step v created id told_at =
      (named_at : r.World) × ((made_at : r.World) × ((u : r.World) × (v ≡ u)
          × (channels.msg "execute_request" (request_content r client channels step.code) u
              ≡ (ok created, made_at)))
        × (msg_id_of r client channels (set_value "channel" (str_value "shell") created) made_at
            ≡ (ok id, named_at)))
      × (on_request_started id named_at ≡ (ok tt, told_at))

  answered :
      (on_request_started : String → Action r.World (Unit {0}))
      (session : JupyterSession r client channels) (step : ExecutionStep) (v : r.World)
      (created : Fields) (id : String) (c : JupyterMessageCollector) (fields : Fields) (w : r.World)
      → Exchanged r client channels
          (Told on_request_started step v created id)
          session
          step
          (set_value "channel" (str_value "shell") created)
          id
          c
          w
        × ((result : JupyterExecutionResult) × (build_result c ≡ ok result)
            × (fields ≡ channels.dump_result result))
      → Answered on_request_started session step v fields w
  answered on_request_started session step v created id c fields w
        (
          (
            frames,
            timed_at,
            (sent_at, (told_at, (named_at, (made_at, (u, same, made), named), told), sent), timed),
            (messages, few, received, all, done),
          ),
          (result, built, dumped),
        ) =
      let (complete, okay, outputs) =
        answer_of id step.step_id messages _ _ (build_result c) result
          (build_result-Answers codec.str id step.step_id messages c all) built in
      record {
        created = created;
        request_msg_id = id;
        frames = frames;
        messages = messages;
        collector = c;
        result = result;
        made_at = made_at;
        named_at = named_at;
        told_at = told_at;
        sent_at = sent_at;
        timed_at = timed_at;
        made = rw same made;
        named = named;
        told = told;
        sent = sent;
        timed = timed;
        received = received;
        in_time = few;
        collected = all;
        built = built;
        dumped = dumped;
        outputs = outputs;
        complete = complete;
        okay = okay;
      }

  -- If `run` returns, then the connection gave, after the request of the step was sent, messages that
  -- came in time, and `run` returns the result that the collector makes of them: the reply and the
  -- idle status of that request are among them, the status of the last reply to it is ok, and the
  -- outputs are those that they put out after the last clearing.
  pub run-Answered :
      (on_request_started : String → Action r.World (Unit {0}))
      (session : JupyterSession r client channels) (step : ExecutionStep) (v : r.World)
      → Post
          (Answered on_request_started session step v)
          (λ _ _. Unit {0})
          (run r client channels on_request_started session step v)
  unfolding run
  run-Answered on_request_started session step v = whole.at v refl
    where
      whole :
          Triple
            (λ w. v ≡ w)
            (do
              created ← channels.msg "execute_request" (request_content r client channels step.code)
              let message = set_value "channel" (str_value "shell") created
              request_msg_id ← msg_id_of r client channels message
              on_request_started request_msg_id
              outcome ← attempt (exchange r client channels session step message request_msg_id)
              conclude r client channels session step outcome)
            (Answered on_request_started session step v)
            Any
      whole =
          Triple-bind
            (onward r client channels
              (channels.msg "execute_request" (request_content r client channels step.code)))
            (λ created.
              let message = set_value "channel" (str_value "shell") created in
              Triple-bind (onward r client channels (msg_id_of r client channels message)) (λ id.
                Triple-bind (onward r client channels (on_request_started id)) (λ _.
                  Triple-attempt (conclude r client channels session step)
                    (exchange-Exchanged r client channels session step message id)
                    (λ c.
                      Triple-weaken (conclude-gives r client channels session step c) (λ w p. p)
                        (λ fields w p.
                          answered on_request_started session step v created id c fields w p)
                        (λ x w p. p))
                    (conclude-raises r client channels session step))))
