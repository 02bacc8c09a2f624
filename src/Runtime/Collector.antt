-- ===== src/Runtime/Collector.antt =====
-- runtime/collector.py, JupyterMessageCollector: the messages of a kernel, gathered into the result
-- of one request.
pub mod Steps
pub mod Shown
pub mod Complete
pub mod Results
use executor_service.Common.{
  ℕ, Bool, true, false, not, ◌&&◌, String, List, [], ◌∷◌, ◌++◌, Option, none, some, str_eq,
  if◌then◌else◌, map,
}
use Prim.Native.String.{◌++◌ as ◌+s◌}
use executor_service.Errors.{Error, code_execution_error, infrastructure_error}
use executor_service.Action.{Outcome, ok, raised}
use executor_service.Schemas.Value.{
  ℤ, Value, none_value, bool_value, str_value, dict_value, Fields, empty, get_value, get_or,
  as_fields, as_list, as_int, is_true, is_text,
}
use executor_service.Schemas.Callback.{text_or}

pub data OutputType : Type 0 where
  stream execute_result display_data : OutputType

pub record JupyterOutput : Type 0 where
  pub output_type : OutputType
  pub name : Option String
  pub text : Option String
  pub contents : Option Fields
  pub metadata : Fields

pub record JupyterExecutionResult : Type 0 where
  pub execution_count : Option ℤ
  pub outputs : List JupyterOutput
  pub payload : List Fields

pub record JupyterMessageCollector : Type 0 where
  pub request_msg_id : String
  pub step_id : String
  pub outputs : List JupyterOutput
  pub execution_count : Option ℤ
  pub payload : List Fields
  pub reply_received : Bool
  pub idle_received : Bool
  pub reply_status : Option String
  pub error_type : Option String
  pub error_message : Option String
  pub traceback : List String
  pub clear_on_next_output : Bool

-- `JupyterMessageCollector(request_msg_id=..., step_id=...)`
unfoldable pub new_collector : String → String → JupyterMessageCollector
new_collector request_msg_id step_id = record {
  request_msg_id = request_msg_id;
  step_id = step_id;
  outputs = [];
  execution_count = none;
  payload = [];
  reply_received = false;
  idle_received = false;
  reply_status = none;
  error_type = none;
  error_message = none;
  traceback = [];
  clear_on_next_output = false;
}

unfoldable pub is_complete : JupyterMessageCollector → Bool
is_complete c = c.reply_received && c.idle_received

-- `_as_dict`
abbrev pub as_dict : Value → Fields
as_dict (dict_value fields) = fields
as_dict _ = empty

-- `[item for item in payload if isinstance(item, dict)]`
unfoldable pub dicts_of : List Value → List Fields
dicts_of [] = []
dicts_of (dict_value fields ∷ vs) = fields ∷ dicts_of vs
dicts_of (_ ∷ vs) = dicts_of vs

-- `"\n".join(texts)`
unfoldable pub join_lines : List String → String
join_lines [] = ""
join_lines (t ∷ []) = t
join_lines (t ∷ u ∷ ts) = ◌+s◌ t (◌+s◌ "\n" (join_lines (u ∷ ts)))

-- `"\n".join(texts) if texts else None`
abbrev pub joined : List String → Option String
joined [] = none
joined (t ∷ ts) = some (join_lines (t ∷ ts))

abbrev pub count_or : Option ℤ → Option ℤ → Option ℤ
count_or none old = old
count_or (some n) old = some n

-- `_is_related_message`
abbrev related_header : Value → String → Bool
related_header (dict_value fields) request_msg_id =
    is_text (get_value "msg_id" fields) request_msg_id
related_header _ request_msg_id = false

unfoldable pub is_related_message : String → Fields → Bool
unfolding get_value get_or
is_related_message request_msg_id message =
    related_header (get_or "parent_header" (dict_value empty) message) request_msg_id

-- `str` is Python's, on the values that a message can have.
module _ (str : Value → String) where
  -- `_as_string_list`
  abbrev as_string_list : Value → List String
  as_string_list v = elim (as_list v) [ none ↦ [] | some items ↦ map str items ]

  -- `_prepare_output`, and then `self.outputs.append(output)`.
  unfoldable pub add_output : JupyterOutput → JupyterMessageCollector → JupyterMessageCollector
  add_output output c = record c {
    outputs = (if c.clear_on_next_output then [] else c.outputs) ++ (output ∷ []);
    clear_on_next_output = false;
  }

  unfoldable pub stream_output : Fields → JupyterOutput
  stream_output content = record {
    output_type = OutputType.stream;
    name = some (str (get_or "name" (str_value "stdout") content));
    text = some (str (get_or "text" (str_value "") content));
    contents = none;
    metadata = empty;
  }

  rich_output : OutputType → Fields → JupyterOutput
  rich_output output_type content = record {
    output_type = output_type;
    name = none;
    text = none;
    contents = some (as_dict (get_value "data" content));
    metadata = as_dict (get_value "metadata" content);
  }

  unfoldable pub collect_stream : Fields → JupyterMessageCollector → JupyterMessageCollector
  unfolding add_output stream_output
  collect_stream content c = add_output (stream_output content) c

  -- The count is replaced, by `None` if the message has none.
  unfoldable pub collect_result : Fields → JupyterMessageCollector → JupyterMessageCollector
  unfolding add_output rich_output
  collect_result content c =
      add_output (rich_output OutputType.execute_result content)
        (record c { execution_count = as_int (get_value "execution_count" content) })

  unfoldable pub collect_display_data : Fields → JupyterMessageCollector → JupyterMessageCollector
  unfolding add_output rich_output
  collect_display_data content c = add_output (rich_output OutputType.display_data content) c

  unfoldable pub collect_clear_output : Fields → JupyterMessageCollector → JupyterMessageCollector
  collect_clear_output content c =
      if is_true (get_or "wait" (bool_value false) content)
      then record c { clear_on_next_output = true }
      else record c { outputs = [] }

  unfoldable pub collect_error : Fields → JupyterMessageCollector → JupyterMessageCollector
  collect_error content c = record c {
    error_type = some (str (get_or "ename" (str_value "CodeExecutionError") content));
    error_message = some (str (get_or "evalue" (str_value "") content));
    traceback = as_string_list (get_value "traceback" content);
  }

  abbrev payload_or : Value → List Fields → List Fields
  payload_or v old = elim (as_list v) [ none ↦ old | some items ↦ dicts_of items ]

  -- The part of `_collect_execute_reply` that looks at the status of the reply.
  abbrev reply_error : String → Fields → JupyterMessageCollector → JupyterMessageCollector
  reply_error status content c =
      if str_eq status "error"
      then collect_error content c
      else if str_eq status "aborted"
      then record c {
        error_type = some "ExecutionAborted";
        error_message = some "Jupyter kernel aborted the execution";
      }
      else c

  unfoldable pub collect_execute_reply : Fields → JupyterMessageCollector → JupyterMessageCollector
  unfolding collect_error dicts_of
  collect_execute_reply content c =
      let status = str (get_or "status" (str_value "error") content) in
      reply_error status content (record c {
        reply_received = true;
        reply_status = some status;
        execution_count = count_or (as_int (get_value "execution_count" content)) c.execution_count;
        payload = payload_or (get_value "payload" content) c.payload;
      })

  unfoldable pub collect_status : Fields → JupyterMessageCollector → JupyterMessageCollector
  collect_status content c =
      if is_text (get_value "execution_state" content) "idle"
      then record c { idle_received = true }
      else c

  -- `match msg_type`
  unfoldable pub dispatch : Value → Fields → JupyterMessageCollector → JupyterMessageCollector
  unfolding collect_stream collect_result collect_display_data collect_clear_output collect_error
      collect_execute_reply collect_status
  dispatch msg_type content c =
      if is_text msg_type "stream"
      then collect_stream content c
      else if is_text msg_type "execute_result"
      then collect_result content c
      else if is_text msg_type "display_data"
      then collect_display_data content c
      else if is_text msg_type "clear_output"
      then collect_clear_output content c
      else if is_text msg_type "error"
      then collect_error content c
      else if is_text msg_type "execute_reply"
      then collect_execute_reply content c
      else if is_text msg_type "status"
      then collect_status content c
      else c

  abbrev collect_parts :
      Option Fields → Option Fields → JupyterMessageCollector → Outcome JupyterMessageCollector
  collect_parts (some header) (some content) c =
      ok (dispatch (get_value "msg_type" header) content c)
  collect_parts _ _ c = raised (infrastructure_error "Invalid Jupyter message")

  -- `collect`, as the collector that it leaves; what it returns is `is_complete` of that, or false
  -- for a message that is not related.
  unfoldable pub collect : Fields → JupyterMessageCollector → Outcome JupyterMessageCollector
  unfolding is_related_message dispatch
  collect message c =
      if is_related_message c.request_msg_id message
      then collect_parts (as_fields (get_or "header" (dict_value empty) message))
          (as_fields (get_or "content" (dict_value empty) message)) c
      else ok c

  -- The messages of a list, one after the other, up to the first that is invalid.
  unfoldable pub collect_all :
      List Fields → JupyterMessageCollector → Outcome JupyterMessageCollector
  collect_all [] c = ok c
  collect_all (message ∷ messages) c = elim (collect message c) [
    | ok c' ↦ collect_all messages c'
    | raised x ↦ raised x
  ]

unfoldable pub build_result : JupyterMessageCollector → Outcome JupyterExecutionResult
unfolding is_complete join_lines
build_result c =
    if not (is_complete c)
    then raised (infrastructure_error "Jupyter execution is not complete")
    else if not (str_eq (text_or c.reply_status "") "ok")
    then raised (
        code_execution_error c.step_id (text_or c.error_type "CodeExecutionError")
          (text_or c.error_message "Jupyter code execution failed") (joined c.traceback))
    else ok
        (record { execution_count = c.execution_count; outputs = c.outputs; payload = c.payload })
