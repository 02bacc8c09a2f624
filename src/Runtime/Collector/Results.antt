-- ===== src/Runtime/Collector/Results.antt =====
-- What `build_result` gives after a list of messages.
use executor_service.Common.{
  ◌≡◌, refl, Bool, true, false, ◌&&◌, String, List, [], ◌∷◌, Option, none, some, arith, str_eq,
  eq_iff, Bool-cases, inl, inr, if◌then◌else◌,
}
use executor_service.Errors.{code_execution_error, infrastructure_error}
use executor_service.Action.{Outcome, ok, raised}
use executor_service.Schemas.Value.{
  Value, str_value, dict_value, Fields, empty, get_value, get_or, as_fields, is_text,
}
use executor_service.Schemas.Callback.{text_or}
use executor_service.Runtime.Collector.{
  JupyterExecutionResult, JupyterMessageCollector, is_related_message, is_complete, joined,
  collect_parts, collect_execute_reply, dispatch, collect, collect_all, new_collector, build_result,
}
use executor_service.Runtime.Collector.Steps.{collect_unrelated, collect_all-cons}
use executor_service.Runtime.Collector.Shown.{events, shown, outputs-eq-shown}
use executor_service.Runtime.Collector.Complete.{is_replied, is_idled, is_complete-eq}

abbrev over : {A : Type 0} → Option A → Option A → Option A
over none old = old
over (some a) old = some a

module _ (str : Value → String) where
  abbrev parts_status : Option Fields → Option Fields → Option String
  parts_status (some header) (some content) =
      if is_text (get_value "msg_type" header) "execute_reply"
      then some (str (get_or "status" (str_value "error") content))
      else none
  parts_status _ _ = none

  -- The status in a message, if it is a reply to the request.
  abbrev status_in : String → Fields → Option String
  status_in request_msg_id message =
      if is_related_message request_msg_id message
      then parts_status (as_fields (get_or "header" (dict_value empty) message))
          (as_fields (get_or "content" (dict_value empty) message))
      else none

  -- The status in the last reply to the request.
  pub last_status : String → List Fields → Option String
  last_status request_msg_id [] = none
  last_status request_msg_id (message ∷ messages) =
      over (last_status request_msg_id messages) (status_in request_msg_id message)

  abbrev Records : Option String → JupyterMessageCollector → JupyterMessageCollector → Type 0
  Records status c c' =
      (c'.reply_status ≡ over status c.reply_status)
      × (c'.step_id ≡ c.step_id)
      × (c'.request_msg_id ≡ c.request_msg_id)

  text_one :
      (v : Value) (a b : String) → str_eq a b ≡ false → is_text v a ≡ true → is_text v b ≡ false
  text_one (str_value s) a b apart e = rw ((eq_iff s a).0 e) apart
  text_one _ a b apart e = cc

  reply-status :
      (content : Fields) (c : JupyterMessageCollector)
      → (collect_execute_reply str content c).reply_status
        ≡ some (str (get_or "status" (str_value "error") content))
  unfolding collect_execute_reply
  reply-status content c = ground arith

  dispatch-status :
      (msg_type : Value) (content : Fields) (c : JupyterMessageCollector)
      → (dispatch str msg_type content c).reply_status ≡ (
          if is_text msg_type "execute_reply"
          then some (str (get_or "status" (str_value "error") content))
          else c.reply_status)
  unfolding dispatch
  dispatch-status msg_type content c = ground (
    arith,
    reply-status content c,
    text_one msg_type "stream" "execute_reply" refl,
    text_one msg_type "execute_result" "execute_reply" refl,
    text_one msg_type "display_data" "execute_reply" refl,
    text_one msg_type "clear_output" "execute_reply" refl,
    text_one msg_type "error" "execute_reply" refl,
  )

  dispatch-step_id :
      (msg_type : Value) (content : Fields) (c : JupyterMessageCollector)
      → ((dispatch str msg_type content c).step_id ≡ c.step_id)
        × ((dispatch str msg_type content c).request_msg_id ≡ c.request_msg_id)
  unfolding dispatch
  dispatch-step_id msg_type content c = ground arith

  dispatch-Records :
      (header content : Fields) (c : JupyterMessageCollector)
      → Records
          (parts_status (some header) (some content))
          c
          (dispatch str (get_value "msg_type" header) content c)
  dispatch-Records header content c =
      let kind = get_value "msg_type" header in
      let (s, r) = dispatch-step_id kind content c in
      elim (Bool-cases (is_text kind "execute_reply")) [
        | inl e ↦ rw e (rw e at (dispatch-status kind content c), s, r)
        | inr e ↦ rw e (rw e at (dispatch-status kind content c), s, r)
      ]

  collect_parts-Records :
      (header content : Option Fields) (c c' : JupyterMessageCollector)
      → collect_parts str header content c ≡ ok c'
      → Records (parts_status header content) c c'
  collect_parts-Records (some header) (some content) c c' h =
      let e : dispatch str (get_value "msg_type" header) content c ≡ c' = cc in
      rw (← e) (dispatch-Records header content c)
  collect_parts-Records none content c c' h = cc
  collect_parts-Records (some header) none c c' h = cc

  collect-Records :
      (message : Fields) (c c' : JupyterMessageCollector)
      → collect str message c ≡ ok c'
      → Records (status_in c.request_msg_id message) c c'
  unfolding collect
  collect-Records message c c' h = elim (Bool-cases (is_related_message c.request_msg_id message)) [
    | inl e ↦ rw e (collect_parts-Records _ _ c c' (rw e at h))
    | inr e ↦
        let same : c ≡ c' = cc (collect_unrelated str message c e) in
        rw (← same) (rw e (refl, refl, refl))
  ]

  collect_all-Records :
      (messages : List Fields) (c c' : JupyterMessageCollector)
      → collect_all str messages c ≡ ok c'
      → Records (last_status c.request_msg_id messages) c c'
  unfolding last_status collect_all
  collect_all-Records [] c c' h = let same : c ≡ c' = cc in rw (← same) (refl, refl, refl)
  collect_all-Records (message ∷ messages) c c' h =
      let (d, e, rest) = collect_all-cons str message messages c c' h in
      let f = collect-Records message c d e in
      let ih = rw f.2 at (collect_all-Records messages d c' rest) in ground arith

  -- What is to come of a request, said of its messages.
  abbrev pub Answers :
      String → String → List Fields → Bool → Bool → Outcome JupyterExecutionResult → Type 0
  Answers request_msg_id step_id messages false okay r =
      r ≡ raised (infrastructure_error "Jupyter execution is not complete")
  Answers request_msg_id step_id messages true true r =
      (result : JupyterExecutionResult) × (r ≡ ok result)
      × (result.outputs ≡ shown (events str request_msg_id messages))
  Answers request_msg_id step_id messages true false r =
      (error_type : String) × (error_message : String) × (trace : Option String) × (r
        ≡ raised (code_execution_error step_id error_type error_message trace))

  build_result-cases :
      (request_msg_id step_id : String) (messages : List Fields) (c : JupyterMessageCollector)
      (complete okay : Bool)
      → is_complete c ≡ complete
      → str_eq (text_or c.reply_status "") "ok" ≡ okay
      → c.step_id ≡ step_id
      → c.outputs ≡ shown (events str request_msg_id messages)
      → Answers request_msg_id step_id messages complete okay (build_result c)
  unfolding build_result
  build_result-cases id step messages c false okay e k s o = rw e
  build_result-cases id step messages c true true e k s o = (
    record { execution_count = c.execution_count; outputs = c.outputs; payload = c.payload },
    rw (e, k),
    o,
  )
  build_result-cases id step messages c true false e k s o = (
    text_or c.error_type "CodeExecutionError",
    text_or c.error_message "Jupyter code execution failed",
    joined c.traceback,
    rw (e, k, s),
  )

  -- If a new collector takes a list of messages, none of which is invalid, then `build_result`
  -- raises an InfrastructureError if the reply or the idle status of the request is missing; else
  -- it gives a result with the outputs shown if the status of the last reply is ok, and raises a
  -- CodeExecutionError of the step if it is another.
  pub build_result-Answers :
      (request_msg_id step_id : String) (messages : List Fields) (c : JupyterMessageCollector)
      → collect_all str messages (new_collector request_msg_id step_id) ≡ ok c
      → Answers request_msg_id step_id messages
          (is_replied request_msg_id messages && is_idled request_msg_id messages)
          (str_eq (text_or (last_status request_msg_id messages) "") "ok")
          (build_result c)
  unfolding new_collector
  build_result-Answers request_msg_id step_id messages c h =
      let (status, step, _) =
        collect_all-Records messages (new_collector request_msg_id step_id) c h in
      build_result-cases request_msg_id step_id messages c _ _
        (is_complete-eq str request_msg_id step_id messages c h) (ground arith) step
        (outputs-eq-shown str request_msg_id step_id messages c h)
