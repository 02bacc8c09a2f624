-- ===== src/Clients/Stream.antt =====
-- clients/redis.py, the reading of the stream: claim_stale and _parse_messages.
use executor_service.Common.{ℕ, ◌≡◌, refl, ◌↔◌, String, List, [], ◌∷◌, Option, none, some}
use Prim.Native.String.{◌++◌}
use executor_service.Errors.{infrastructure_error, value_error}
use executor_service.Action.{Outcome, ok, raised, Action, pure, raise, ◌except◌, ◌>>=◌}
use executor_service.Schemas.Command.{ExecutionCommand}
use executor_service.Clients.Redis.{RedisStreamClient, wrap}

module _ (c : RedisStreamClient) where
  -- A message as redis-py gives it: its id, and its payload if it has one that is a text.
  abbrev pub Raw : Type 0
  Raw = String × Option c.Payload

  unfoldable pub validated :
      String
      → Option ExecutionCommand
      → Outcome (List (String × ExecutionCommand))
      → Outcome (List (String × ExecutionCommand))
  validated id none rest = raised (value_error "validation error for ExecutionCommand")
  validated id (some command) (ok commands) = ok ((id, command) ∷ commands)
  validated id (some command) (raised x) = raised x

  -- One round of the loop, given the rest.
  unfoldable pub parsed :
      String
      → Option c.Payload
      → Outcome (List (String × ExecutionCommand))
      → Outcome (List (String × ExecutionCommand))
  unfolding validated
  parsed id none rest = raised (infrastructure_error ("Redis message has no payload: " ++ id))
  parsed id (some payload) rest = validated id (c.validate_command payload) rest

  -- `_parse_messages`
  unfoldable pub parse_messages : List Raw → Outcome (List (String × ExecutionCommand))
  unfolding parsed
  parse_messages [] = ok []
  parse_messages ((id, payload) ∷ messages) = parsed id payload (parse_messages messages)

  -- What follows the `try` block of `claim_stale`; `none` is no list or tuple of two or more.
  unfoldable pub read_claim :
      Option (String × List Raw) → Action c.World (String × List (String × ExecutionCommand))
  read_claim none = raise (infrastructure_error "Redis returned an invalid XAUTOCLAIM result")
  read_claim (some (next_id, messages)) = elim (parse_messages messages) [
    | ok commands ↦ pure (next_id, commands)
    | raised x ↦ raise x
  ]

  -- `claim_stale`; `xautoclaim min_idle_ms count start_id` gives the next id and the messages.
  unfoldable pub claim_stale :
      (ℕ → ℕ → String → Action c.World (Option (String × List Raw)))
      → ℕ
      → ℕ
      → String
      → Action c.World (String × List (String × ExecutionCommand))
  unfolding wrap read_claim
  claim_stale xautoclaim min_idle_ms count start_id = do
    response ← xautoclaim min_idle_ms count start_id except wrap "Redis pending claim failed"
    read_claim response

  -- The commands are those of the payloads, message by message.
  abbrev pub Parsed : List Raw → List (String × ExecutionCommand) → Type 0
  Parsed [] [] = Unit {0}
  Parsed ((id, payload) ∷ messages) ((id', command) ∷ commands) =
      (id ≡ id')
      × ((text : c.Payload) × (payload ≡ some text) × (c.validate_command text ≡ some command))
      × Parsed messages commands
  Parsed _ _ = ⊥

  -- What a round that gives commands has found.
  record Round (id : String) (payload : Option c.Payload)
      (rest : Outcome (List (String × ExecutionCommand)))
      (commands : List (String × ExecutionCommand)) : Type 0 where
    text : c.Payload
    command : ExecutionCommand
    tail : List (String × ExecutionCommand)
    has_payload : payload ≡ some text
    is_valid : c.validate_command text ≡ some command
    went_on : rest ≡ ok tail
    together : (id, command) ∷ tail ≡ commands

  parsed-Round :
      (id : String) (payload : Option c.Payload) (rest : Outcome (List (String × ExecutionCommand)))
      (commands : List (String × ExecutionCommand))
      → parsed id payload rest ≡ ok commands
      → Round id payload rest commands
  unfolding parsed
  parsed-Round id none rest commands h = cc
  parsed-Round id (some text) rest commands h = go (c.validate_command text) rest refl refl h
    where
      go :
          (v : Option ExecutionCommand) (o : Outcome (List (String × ExecutionCommand)))
          → c.validate_command text ≡ v
          → rest ≡ o
          → validated id v o ≡ ok commands
          → Round id (some text) rest commands
      go none o ev eo h = cc
      go (some command) (raised x) ev eo h = cc
      go (some command) (ok tail) ev eo h = record {
        text = text;
        command = command;
        tail = tail;
        has_payload = refl;
        is_valid = ev;
        went_on = eo;
        together = cc;
      }

  Parsed-of_messages :
      (messages : List Raw) (commands : List (String × ExecutionCommand))
      → parse_messages messages ≡ ok commands
      → Parsed messages commands
  unfolding parse_messages
  Parsed-of_messages [] [] h = tt
  Parsed-of_messages [] (x ∷ commands) h = cc
  Parsed-of_messages ((id, payload) ∷ messages) commands h =
      let round = parsed-Round id payload (parse_messages messages) commands h in
      let ih = Parsed-of_messages messages round.tail round.went_on in
      rw (← round.together) (refl, (round.text, round.has_payload, round.is_valid), ih)

  parse_messages-Parsed :
      (messages : List Raw) (commands : List (String × ExecutionCommand))
      → Parsed messages commands
      → parse_messages messages ≡ ok commands
  unfolding parse_messages
  parse_messages-Parsed [] [] h = refl
  parse_messages-Parsed [] (x ∷ commands) h = elim h [ ]
  parse_messages-Parsed (x ∷ messages) [] h = elim h [ ]
  parse_messages-Parsed ((id, payload) ∷ messages) ((id', command) ∷ commands)
        (same, (text, e, v), rest) =
      rw (e, parsed, v, parse_messages-Parsed messages commands rest, same)

  -- The messages of a reply are parsed to some commands exactly if each has a payload, which is
  -- the JSON of its command; ids and order are kept.
  pub parse_messages_iff :
      (messages : List Raw) (commands : List (String × ExecutionCommand))
      → (parse_messages messages ≡ ok commands) ↔ Parsed messages commands
  parse_messages_iff messages commands =
      (Parsed-of_messages messages commands, parse_messages-Parsed messages commands)
