-- ===== src/Clients/Reading.antt =====
-- clients/redis.py: publish, consume and _parse_stream_response.
use executor_service.Common.{
  ℕ, ◌≡◌, refl, sym, ap, ◌∙◌, suc, ◌≤◌, String, List, [], ◌∷◌, ◌++◌, Option, none, some, length,
  join, map,
}
use executor_service.Action.{Outcome, ok, raised, Action, pure, raise, ◌except◌}
use executor_service.Action
use executor_service.Action.Outcomes.{◌>>=◌, Gives, Gives-ok, Gives-Post}
use executor_service.Action.Triple.{Triple, Triple-bind, Triple-except}
use executor_service.Schemas.Command.{ExecutionCommand}
use executor_service.Clients.Redis.{RedisStreamClient, wrap, wrap-raises}
use executor_service.Clients.Stream.{Raw, parse_messages, parsed, validated}

-- XADD with the field `payload`, and XREADGROUP with COUNT and BLOCK from `>`, as redis-py has them. A
-- reply has at most COUNT messages of the one stream that is read.
pub record Streams (c : RedisStreamClient) : Type 1 where
  pub redis_xadd : String → c.Payload → Action c.World String
  pub redis_xreadgroup :
      String → String → String → ℕ → ℕ → Action c.World (List (String × List (Raw c)))
  pub xreadgroup_law :
      (consumer : String) (count block_ms : ℕ)
      → Triple
          (λ _. Unit {0})
          (redis_xreadgroup c.group_name consumer c.stream_name count block_ms)
          (λ response _. length (join (map (λ entry. entry.1) response)) ≤ count)
          (λ _ _. Unit {0})

module _ (c : RedisStreamClient) where
  -- `_parse_stream_response`
  unfoldable pub parse_stream_response :
      List (String × List (Raw c)) → Outcome (List (String × ExecutionCommand))
  parse_stream_response [] = ok []
  parse_stream_response ((stream, messages) ∷ response) = do
    commands ← parse_messages c messages
    rest ← parse_stream_response response
    ok (commands ++ rest)

  module _ (streams : Streams c) where
    unfoldable pub publish : ExecutionCommand → Action c.World String
    unfolding wrap
    publish command =
        streams.redis_xadd c.stream_name (c.dump_command command)
        except wrap "Redis command publish failed"

    read : List (String × List (Raw c)) → Action c.World (List (String × ExecutionCommand))
    read response w = (parse_stream_response response, w)

    unfoldable pub consume : String → ℕ → ℕ → Action c.World (List (String × ExecutionCommand))
    unfolding wrap read
    consume consumer_name count block_ms =
        Action.◌>>=◌
          (streams.redis_xreadgroup c.group_name consumer_name c.stream_name count block_ms
            except wrap "Redis stream consume failed")
          read

  abbrev Commands : Type 0
  Commands = Outcome (List (String × ExecutionCommand))

  abbrev both : Commands → Commands → Commands
  both first second = first >>= λ commands. second >>= λ rest. ok (commands ++ rest)

  validated-both :
      (id : String) (v : Option ExecutionCommand) (first second : Commands)
      → validated c id v (both first second) ≡ both (validated c id v first) second
  unfolding validated
  validated-both id none first second = refl
  validated-both id (some command) (raised x) second = refl
  validated-both id (some command) (ok commands) (raised x) = refl
  validated-both id (some command) (ok commands) (ok rest) = refl

  parsed-both :
      (id : String) (payload : Option c.Payload) (first second : Commands)
      → parsed c id payload (both first second) ≡ both (parsed c id payload first) second
  unfolding parsed
  parsed-both id none first second = refl
  parsed-both id (some text) first second = validated-both id (c.validate_command text) first second

  both-none : (second : Commands) → second ≡ both (ok []) second
  both-none (ok rest) = refl
  both-none (raised x) = refl

  -- Two parts of a sequence are read one after the other.
  parse_messages-append :
      (before after : List (Raw c))
      → parse_messages c (before ++ after) ≡ both (parse_messages c before) (parse_messages c after)
  unfolding parse_messages
  parse_messages-append [] after = both-none (parse_messages c after)
  parse_messages-append ((id, payload) ∷ before) after =
      ap (parsed c id payload) (parse_messages-append before after)
      ∙ parsed-both id payload (parse_messages c before) (parse_messages c after)

  -- The messages of all the streams of a reply, in their order.
  abbrev pub messages_of : List (String × List (Raw c)) → List (Raw c)
  messages_of response = join (map (λ entry. entry.1) response)

  -- A reply is read as the sequence of its messages is, to the same commands or the same exception.
  pub parse_stream_response-join :
      (response : List (String × List (Raw c)))
      → parse_stream_response response ≡ parse_messages c (messages_of response)
  unfolding parse_stream_response parse_messages
  parse_stream_response-join [] = refl
  parse_stream_response-join ((stream, messages) ∷ response) =
      ap (both (parse_messages c messages)) (parse_stream_response-join response)
      ∙ sym (parse_messages-append messages (messages_of response))

  length-validated :
      (id : String) (v : Option ExecutionCommand) (rest : Commands) (n : ℕ)
      → Gives (λ commands. length commands ≡ n) rest
      → Gives (λ commands. length commands ≡ suc n) (validated c id v rest)
  unfolding validated
  length-validated id none rest n h = record { at = λ commands e. cc }
  length-validated id (some command) (raised x) n h = record { at = λ commands e. cc }
  length-validated id (some command) (ok commands) n h = Gives-ok _ (ap suc (h.at commands refl))

  length-parsed :
      (id : String) (payload : Option c.Payload) (rest : Commands) (n : ℕ)
      → Gives (λ commands. length commands ≡ n) rest
      → Gives (λ commands. length commands ≡ suc n) (parsed c id payload rest)
  unfolding parsed
  length-parsed id none rest n h = record { at = λ commands e. cc }
  length-parsed id (some text) rest n h = length-validated id (c.validate_command text) rest n h

  -- A command for each message.
  pub length-parse_messages :
      (messages : List (Raw c))
      → Gives (λ commands. length commands ≡ length messages) (parse_messages c messages)
  unfolding parse_messages
  length-parse_messages [] = Gives-ok [] refl
  length-parse_messages ((id, payload) ∷ messages) =
      length-parsed id payload (parse_messages c messages) (length messages)
        (length-parse_messages messages)

  module _ (streams : Streams c) where
    read-length :
        (response : List (String × List (Raw c))) (count : ℕ)
        → length (messages_of response) ≤ count
        → Gives (λ commands. length commands ≤ count) (parse_stream_response response)
    read-length response count h = rw (parse_stream_response-join response) (record {
      at = λ commands e. rw ((length-parse_messages (messages_of response)).at commands e) h;
    })

    pub consume-length :
        (consumer_name : String) (count block_ms : ℕ)
        → Triple
            (λ _. Unit {0})
            (consume streams consumer_name count block_ms)
            (λ commands _. length commands ≤ count)
            (λ _ _. Unit {0})
    unfolding consume read
    consume-length consumer_name count block_ms =
        Triple-bind
          (Triple-except (streams.xreadgroup_law consumer_name count block_ms)
            (λ x. wrap-raises c "Redis stream consume failed" x))
          (λ response. record { at = λ w h. Gives-Post _ w (read-length response count h) })
