-- ===== src/Runtime/Collector/Complete.antt =====
-- When a collector is complete, and what its result then is.
use executor_service.Common.{
  ◌≡◌, refl, Bool, true, false, ◌&&◌, ◌||◌, String, List, [], ◌∷◌, Option, none, some, arith,
  str_eq, eq_iff, Bool-cases, inl, inr,
}
use executor_service.Action.{ok}
use executor_service.Schemas.Value.{
  Value, str_value, dict_value, Fields, empty, get_value, get_or, as_fields, is_text,
}
use executor_service.Runtime.Collector.{
  JupyterMessageCollector, is_related_message, is_complete, collect_parts, dispatch, collect,
  collect_all, new_collector,
}
use executor_service.Runtime.Collector.Steps.{collect_unrelated, collect_all-cons}

abbrev is_idle : Value → Fields → Bool
is_idle msg_type content =
    is_text msg_type "status" && is_text (get_value "execution_state" content) "idle"

abbrev of_parts : (Value → Fields → Bool) → Option Fields → Option Fields → Bool
of_parts p (some header) (some content) = p (get_value "msg_type" header) content
of_parts p _ _ = false

-- A message of the request whose type and content have `p`.
abbrev has_parts : String → (Value → Fields → Bool) → Fields → Bool
has_parts request_msg_id p message =
    is_related_message request_msg_id message
    && of_parts p (as_fields (get_or "header" (dict_value empty) message))
        (as_fields (get_or "content" (dict_value empty) message))

pub some_message : (Fields → Bool) → List Fields → Bool
some_message p [] = false
some_message p (message ∷ messages) = p message || some_message p messages

-- The execute_reply of the request is among the messages.
pub is_replied : String → List Fields → Bool
unfolding some_message
is_replied id = some_message (has_parts id (λ msg_type _. is_text msg_type "execute_reply"))

-- The status of the request has become idle.
pub is_idled : String → List Fields → Bool
unfolding some_message
is_idled id = some_message (has_parts id is_idle)

text_apart :
    (v : Value) (a b : String) → str_eq a b ≡ false → is_text v a ≡ true → is_text v b ≡ false
text_apart (str_value s) a b apart e = rw ((eq_iff s a).0 e) apart
text_apart _ a b apart e = cc

-- A type that is met before `execute_reply` and `status` is Neither of them.
abbrev Neither : Value → String → Type 0
Neither v a =
    is_text v a ≡ true → (is_text v "execute_reply" ≡ false) × (is_text v "status" ≡ false)

text-Neither :
    (v : Value) (a : String)
    → str_eq a "execute_reply" ≡ false
    → str_eq a "status" ≡ false
    → Neither v a
text-Neither v a p q e = (text_apart v a "execute_reply" p e, text_apart v a "status" q e)

module _ (str : Value → String) where
  abbrev Marks : Bool → Bool → JupyterMessageCollector → JupyterMessageCollector → Type 0
  Marks reply idle c c' =
      (c'.reply_received ≡ c.reply_received || reply)
      × (c'.idle_received ≡ c.idle_received || idle)
      × (c'.request_msg_id ≡ c.request_msg_id)

  dispatch-Marks :
      (msg_type : Value) (content : Fields) (c : JupyterMessageCollector)
      → Marks
          (is_text msg_type "execute_reply")
          (is_idle msg_type content)
          c
          (dispatch str msg_type content c)
  unfolding dispatch
  dispatch-Marks msg_type content c = ground (
    arith,
    text-Neither msg_type "stream" refl refl,
    text-Neither msg_type "execute_result" refl refl,
    text-Neither msg_type "display_data" refl refl,
    text-Neither msg_type "clear_output" refl refl,
    text-Neither msg_type "error" refl refl,
    text_apart msg_type "execute_reply" "status" refl,
  )

  collect_parts-Marks :
      (header content : Option Fields) (c c' : JupyterMessageCollector)
      → collect_parts str header content c ≡ ok c'
      → Marks
          (of_parts (λ msg_type _. is_text msg_type "execute_reply") header content)
          (of_parts is_idle header content)
          c
          c'
  collect_parts-Marks (some header) (some content) c c' h =
      let e : dispatch str (get_value "msg_type" header) content c ≡ c' = cc in
      rw (← e) (dispatch-Marks (get_value "msg_type" header) content c)
  collect_parts-Marks none content c c' h = cc
  collect_parts-Marks (some header) none c c' h = cc

  collect-Marks :
      (message : Fields) (c c' : JupyterMessageCollector)
      → collect str message c ≡ ok c'
      → Marks
          (has_parts c.request_msg_id (λ msg_type _. is_text msg_type "execute_reply") message)
          (has_parts c.request_msg_id is_idle message)
          c
          c'
  unfolding collect
  collect-Marks message c c' h = elim (Bool-cases (is_related_message c.request_msg_id message)) [
    | inl e ↦ rw e (collect_parts-Marks _ _ c c' (rw e at h))
    | inr e ↦
        let same : c ≡ c' = cc (collect_unrelated str message c e) in rw (← same) (ground arith)
  ]

  collect_all-Marks :
      (messages : List Fields) (c c' : JupyterMessageCollector)
      → collect_all str messages c ≡ ok c'
      → Marks (is_replied c.request_msg_id messages) (is_idled c.request_msg_id messages) c c'
  unfolding is_replied is_idled collect_all
  collect_all-Marks [] c c' h = let same : c ≡ c' = cc in rw (← same) (ground arith)
  collect_all-Marks (message ∷ messages) c c' h =
      let (d, e, rest) = collect_all-cons str message messages c c' h in
      let f = collect-Marks message c d e in
      let ih = rw f.2 at (collect_all-Marks messages d c' rest) in ground arith

  -- If a new collector takes a list of messages, none of which is invalid, then it is complete
  -- exactly if the reply and the idle status of its request are among them, in either order.
  pub is_complete-eq :
      (request_msg_id step_id : String) (messages : List Fields) (c : JupyterMessageCollector)
      → collect_all str messages (new_collector request_msg_id step_id) ≡ ok c
      → is_complete c ≡ is_replied request_msg_id messages && is_idled request_msg_id messages
  unfolding new_collector is_complete
  is_complete-eq request_msg_id step_id messages c h =
      ground (arith, collect_all-Marks messages (new_collector request_msg_id step_id) c h)
