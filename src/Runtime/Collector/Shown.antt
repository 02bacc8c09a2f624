-- ===== src/Runtime/Collector/Shown.antt =====
-- What the outputs of a collector are, said of the messages alone: all that was put out after the
-- last clearing, where one that waits takes effect only if an output follows it.
use executor_service.Common.{
  ◌≡◌, sym, ◌∙◌, Bool, true, false, ◌&&◌, ◌||◌, String, List, [], ◌∷◌, ◌++◌, Option, none, some,
  arith, Bool-cases, inl, inr, if◌then◌else◌,
}
use mathlib.Core.List.{append_assoc, append-nil}
use executor_service.Action.{ok}
use executor_service.Schemas.Value.{
  Value, bool_value, dict_value, Fields, empty, get_value, get_or, as_fields, is_true, is_text,
}
use executor_service.Runtime.Collector.Steps.{collect_unrelated, collect_all-cons}
use executor_service.Runtime.Collector.{
  OutputType, JupyterOutput, JupyterMessageCollector, collect_parts, is_related_message,
  stream_output, rich_output, dispatch, collect, collect_all, new_collector,
}

pub data OutputEvent : Type 0 where
  shows : JupyterOutput → OutputEvent
  clears_now clears_on_next nothing_shown : OutputEvent

module _ (str : Value → String) where
  abbrev event_of : Value → Fields → OutputEvent
  event_of msg_type content =
      if is_text msg_type "stream"
      then shows (stream_output str content)
      else if is_text msg_type "execute_result"
      then shows (rich_output str OutputType.execute_result content)
      else if is_text msg_type "display_data"
      then shows (rich_output str OutputType.display_data content)
      else if is_text msg_type "clear_output"
      then (if is_true (get_or "wait" (bool_value false) content)
          then clears_on_next
          else clears_now)
      else nothing_shown

  abbrev parts_event : Option Fields → Option Fields → OutputEvent
  parts_event (some header) (some content) = event_of (get_value "msg_type" header) content
  parts_event _ _ = nothing_shown

  -- What a message of the request does to the outputs.
  message_event : Fields → OutputEvent
  message_event message =
      parts_event (as_fields (get_or "header" (dict_value empty) message))
        (as_fields (get_or "content" (dict_value empty) message))

  pub events : String → List Fields → List OutputEvent
  events request_msg_id [] = []
  events request_msg_id (message ∷ messages) =
      let rest = events request_msg_id messages in
      if is_related_message request_msg_id message then message_event message ∷ rest else rest

pub has_output : List OutputEvent → Bool
has_output [] = false
has_output (shows o ∷ es) = true
has_output (_ ∷ es) = has_output es

-- Some clearing takes effect.
pub clears : List OutputEvent → Bool
unfolding has_output
clears [] = false
clears (clears_now ∷ es) = true
clears (clears_on_next ∷ es) = has_output es || clears es
clears (_ ∷ es) = clears es

-- The outputs after the last clearing that takes effect.
pub shown : List OutputEvent → List JupyterOutput
unfolding clears
shown [] = []
shown (shows o ∷ es) = let rest = shown es in if clears es then rest else o ∷ rest
shown (_ ∷ es) = shown es

-- One step of a collector, as far as its outputs go.
abbrev outputs_after : OutputEvent → List JupyterOutput → Bool → List JupyterOutput
outputs_after (shows o) outputs pending = (if pending then [] else outputs) ++ (o ∷ [])
outputs_after clears_now outputs pending = []
outputs_after _ outputs pending = outputs

abbrev pending_after : OutputEvent → Bool → Bool
pending_after (shows o) pending = false
pending_after clears_on_next pending = true
pending_after _ pending = pending

abbrev Shows : List JupyterOutput → Bool → List OutputEvent → List JupyterOutput → Type 0
Shows outputs pending es result =
    result ≡ (if (pending && has_output es) || clears es then [] else outputs) ++ shown es

Shows-nil : (outputs : List JupyterOutput) (pending : Bool) → Shows outputs pending [] outputs
unfolding shown clears has_output
Shows-nil outputs true = sym (append-nil outputs)
Shows-nil outputs false = sym (append-nil outputs)

Shows-shows :
    (o : JupyterOutput) (es : List OutputEvent) (outputs result : List JupyterOutput)
    (pending : Bool)
    → Shows ((if pending then [] else outputs) ++ (o ∷ [])) false es result
    → Shows outputs pending (shows o ∷ es) result
unfolding shown clears has_output
Shows-shows o es outputs result true h = elim (Bool-cases (clears es)) [
  | inl e ↦ rw e (rw e at h)
  | inr e ↦ rw e (rw e at h)
]
Shows-shows o es outputs result false h = elim (Bool-cases (clears es)) [
  | inl e ↦ rw e (rw e at h)
  | inr e ↦ rw e ((rw e at h) ∙ append_assoc outputs (o ∷ []) (shown es))
]

Shows-cons :
    (e : OutputEvent) (es : List OutputEvent) (outputs result : List JupyterOutput) (pending : Bool)
    → Shows (outputs_after e outputs pending) (pending_after e pending) es result
    → Shows outputs pending (e ∷ es) result
unfolding shown clears has_output
Shows-cons (shows o) es outputs result pending h = Shows-shows o es outputs result pending h
Shows-cons clears_now es outputs result pending h = ground arith
Shows-cons clears_on_next es outputs result pending h = ground arith
Shows-cons nothing_shown es outputs result pending h = ground arith

module _ (str : Value → String) where
  dispatch-outputs :
      (msg_type : Value) (content : Fields) (c : JupyterMessageCollector)
      → (let c' = dispatch str msg_type content c in
          let e = event_of str msg_type content in
          (c'.outputs ≡ outputs_after e c.outputs c.clear_on_next_output)
          × (c'.clear_on_next_output ≡ pending_after e c.clear_on_next_output)
          × (c'.request_msg_id ≡ c.request_msg_id))
  unfolding dispatch
  dispatch-outputs msg_type content c = ground arith

  abbrev Follows : OutputEvent → JupyterMessageCollector → JupyterMessageCollector → Type 0
  Follows e c c' =
      (c'.outputs ≡ outputs_after e c.outputs c.clear_on_next_output)
      × (c'.clear_on_next_output ≡ pending_after e c.clear_on_next_output)
      × (c'.request_msg_id ≡ c.request_msg_id)

  collect_parts-Follows :
      (header content : Option Fields) (c c' : JupyterMessageCollector)
      → collect_parts str header content c ≡ ok c'
      → Follows (parts_event str header content) c c'
  collect_parts-Follows (some header) (some content) c c' h =
      let e : dispatch str (get_value "msg_type" header) content c ≡ c' = cc in
      rw (← e) (dispatch-outputs (get_value "msg_type" header) content c)
  collect_parts-Follows none content c c' h = cc
  collect_parts-Follows (some header) none c c' h = cc

  -- A related message does to the outputs what its event says.
  collect-Follows :
      (message : Fields) (c c' : JupyterMessageCollector)
      → is_related_message c.request_msg_id message ≡ true
      → collect str message c ≡ ok c'
      → Follows (message_event str message) c c'
  unfolding collect message_event
  collect-Follows message c c' related h = collect_parts-Follows _ _ c c' (rw related at h)

  collect_all-Shows :
      (messages : List Fields) (c c' : JupyterMessageCollector)
      → collect_all str messages c ≡ ok c'
      → Shows c.outputs c.clear_on_next_output (events str c.request_msg_id messages) c'.outputs
  unfolding collect_all events shown clears has_output
  collect_all-Shows [] c c' h =
      let same : c.outputs ≡ c'.outputs = cc in
      rw (← same) (Shows-nil c.outputs c.clear_on_next_output)
  collect_all-Shows (message ∷ messages) c c' h =
      let (d, e, rest) = collect_all-cons str message messages c c' h in
      let ih : Shows d.outputs d.clear_on_next_output (events str d.request_msg_id messages)
          c'.outputs =
        collect_all-Shows messages d c' rest in
      elim (Bool-cases (is_related_message c.request_msg_id message)) [
        | inl related ↦
            let f = collect-Follows message c d related e in
            rw related (
              Shows-cons (message_event str message) (events str c.request_msg_id messages)
                c.outputs c'.outputs c.clear_on_next_output (rw (f.0, f.1, f.2) at ih))
        | inr other ↦
            let same : c ≡ d = cc (collect_unrelated str message c other) in
            rw other (rw (← same) at ih)
      ]

  -- If a new collector takes a list of messages, none of which is invalid, then its outputs are
  -- those that the related messages put out after the last clearing that takes effect.
  pub outputs-eq-shown :
      (request_msg_id step_id : String) (messages : List Fields) (c : JupyterMessageCollector)
      → collect_all str messages (new_collector request_msg_id step_id) ≡ ok c
      → c.outputs ≡ shown (events str request_msg_id messages)
  unfolding new_collector
  outputs-eq-shown request_msg_id step_id messages c h =
      ground (arith, collect_all-Shows messages (new_collector request_msg_id step_id) c h)
