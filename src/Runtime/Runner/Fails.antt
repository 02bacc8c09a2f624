-- ===== src/Runtime/Runner/Fails.antt =====
-- The v1 form of a request, whose header holds the time at which it was made.
use executor_service.Common.{
  Bool-cases, eq_iff, str_eq, ◌≡◌, refl, inl, inr, ◌||◌, Bool, true, false, String, List,
}
use executor_service.Errors.{type_error}
use executor_service.Action.{raised, Action, attempt, ◌>>=◌, ◌>>◌}
use executor_service.Action.Triple.{
  Triple, Keeps, Triple-bind, Triple-weaken, Triple-attempt, Triple-both,
}
use executor_service.Schemas.Value.{
  Value, str_value, list_value, dict_value, datetime_value, Values, nil, cons, Fields, empty, field,
  get_or,
}
use executor_service.Schemas.Command.{ExecutionStep}
use executor_service.Clients.Jupyter.{JupyterServerClient, from_outcome}
use executor_service.Repository.{RedisExecutionRepository}
use executor_service.Runtime.Frames.{Frame, set_value, encode_v1_message, as_buffers, parts_of}
use executor_service.Runtime.Runner.{
  Channels, JupyterSession, send, exchange, conclude, msg_id_of, run, request_content,
}
use executor_service.Runtime.Runner.Wire.{Wire, msg_id_of-Keeps}

-- Somewhere in the value there is a time.
unfoldable mutual
  pub has_time : Value → Bool
  has_time (datetime_value _) = true
  has_time (list_value vs) = some_have_time vs
  has_time (dict_value fields) = fields_have_time fields
  has_time _ = false

  pub some_have_time : Values → Bool
  some_have_time nil = false
  some_have_time (cons v vs) = has_time v || some_have_time vs

  pub fields_have_time : Fields → Bool
  fields_have_time empty = false
  fields_have_time (field k v fields) = has_time v || fields_have_time fields

get_or-set_value :
    (key k : String) (d v : Value) (fields : Fields)
    → str_eq k key ≡ false
    → get_or key d (set_value k v fields) ≡ get_or key d fields
unfolding get_or set_value
get_or-set_value key k d v empty apart = rw apart
get_or-set_value key k d v (field k' u fields) apart = elim (Bool-cases (str_eq k' k)) [
  | inl e ↦ let same = (eq_iff k' k).0 e in rw (e, same, apart)
  | inr e ↦ rw (e, get_or-set_value key k d v fields apart)
]

-- What jupyter_client's `Session.msg` makes: a header that holds the time, and no buffers.
abbrev pub Stamped : Fields → Type 0
Stamped created =
    (has_time (get_or "header" (dict_value empty) created) ≡ true)
    × (get_or "buffers" (list_value nil) created ≡ list_value nil)

module _ (r : RedisExecutionRepository) (client : JupyterServerClient r) (channels : Channels r)
    (wire : Wire r client channels) where
  open wire use {transmitted}
  open channels use {codec}

  -- Python's `json.dumps` raises a TypeError on a value with a time in it.
  abbrev pub Refuses : Type 0
  Refuses = (v : Value) → has_time v ≡ true → (t : String) × (codec.dumps v ≡ raised (type_error t))

  refused :
      (created : Fields)
      → Refuses
      → Stamped created
      → (t : String) × (encode_v1_message codec (set_value "channel" (str_value "shell") created)
          ≡ raised (type_error t))
  unfolding encode_v1_message as_buffers parts_of
  refused created refuses (time, absent) =
      let (t, e) = refuses _ time in
      (
        t,
        rw
            (
              get_or-set_value "buffers" "channel" (list_value nil) (str_value "shell") created
                  refl,
              get_or-set_value "header" "channel" (dict_value empty) (str_value "shell") created
                  refl,
              absent,
              e,
            )
            refl,
      )

  exchange-Fails :
      (session : JupyterSession r client channels) (step : ExecutionStep) (message : Fields)
      (id t : String) (l : List Frame)
      → channels.uses_v1 session.websocket ≡ true
      → encode_v1_message codec message ≡ raised (type_error t)
      → Triple
          (λ w. transmitted w ≡ l)
          (exchange r client channels session step message id)
          (λ _ _. ⊥)
          (λ x w. (x ≡ type_error t) × (transmitted w ≡ l))
  unfolding exchange send from_outcome
  exchange-Fails session step message id t l v1 e = record { at = λ w p. rw (v1, e) (refl, p) }

  -- If the connection speaks the v1 protocol, if `json.dumps` raises a TypeError on a value with a
  -- time in it, if the message that `Session.msg` makes has a time in its header and no buffers, and
  -- if the callback transmits nothing, then `run` raises, and transmits nothing.
  pub run-Fails :
      (on_request_started : String → Action r.World (Unit {0}))
      (session : JupyterSession r client channels) (step : ExecutionStep) (l : List Frame)
      → channels.uses_v1 session.websocket ≡ true
      → Refuses
      → Triple
          (λ _. Unit {0})
          (channels.msg "execute_request" (request_content r client channels step.code))
          (λ created _. Stamped created)
          (λ _ _. Unit {0})
      → ((id : String) → Keeps (λ w. transmitted w ≡ l) (on_request_started id))
      → Triple
          (λ w. transmitted w ≡ l)
          (run r client channels on_request_started session step)
          (λ _ _. ⊥)
          (λ _ w. transmitted w ≡ l)
  unfolding run conclude
  run-Fails on_request_started session step l v1 refuses stamps h =
      Triple-bind
        (Triple-weaken
          (Triple-both stamps
            (wire.msg_aside "execute_request" (request_content r client channels step.code) l))
          (λ w p. (tt, p)) (λ created w p. p) (λ x w p. p.1))
        (λ created. record {
          at = λ w (stamped, p).
              let message = set_value "channel" (str_value "shell") created in
              let (t, e) = refused created refuses stamped in
              let told : Triple (λ w. transmitted w ≡ l)
                  (do
                    id ← msg_id_of r client channels message
                    on_request_started id
                    outcome ← attempt (exchange r client channels session step message id)
                    conclude r client channels session step outcome)
                  (λ _ _. ⊥) (λ _ w. transmitted w ≡ l) =
                Triple-bind (msg_id_of-Keeps r client channels wire l message) (λ id.
                  Triple-bind (h id) (λ _.
                    Triple-attempt (conclude r client channels session step)
                      (exchange-Fails session step message id t l v1 e)
                      (λ c. record { at = λ w no. elim no [ ] })
                      (λ x. record { at = λ w (same, q). rw same q }))) in
              told.at w p;
        })
