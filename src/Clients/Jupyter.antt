-- ===== src/Clients/Jupyter.antt =====
-- clients/jupyter.py, JupyterServerClient: the REST calls, with their exceptions translated. The
-- WebSocket is in Runtime/Runner.
pub mod Keeps
use Prim.Native.String.{◌++◌}
use executor_service.Common.{ℕ, ◌≡◌, ◌||◌, String, Option, none, some, ◌==◌, if◌then◌else◌}
use executor_service.Errors.{
  Error, infrastructure_error, kernel_not_found_error, http_error, type_error, value_error,
  key_error,
}
use executor_service.Action.{Outcome, ok, raised, Action, pure, raise, ◌except◌, ◌>>=◌, ◌>>◌}
use executor_service.Action.Triple.{
  Triple, Triple-raise, Triple-pure, Triple-if, Triple-bind, Triple-except,
}
use executor_service.Schemas.Value.{Value, str_value, dict_value, Fields, empty, field, find}
use executor_service.Platform.{Keys}
use executor_service.Repository.{RedisExecutionRepository}

pub record JupyterSessionInfo : Type 0 where
  pub session_id : String
  pub kernel_id : String
  pub target : String

-- An httpx response: its code, what `raise_for_status` does, and what `json` gives or raises.
pub record Response : Type 0 where
  pub status_code : ℕ
  pub raise_for_status : Outcome (Unit {0})
  pub json : Outcome Value

-- The requests leave Redis alone.
pub record JupyterServerClient (r : RedisExecutionRepository) : Type 1 where
  pub http_get : String → Action r.World Response
  pub http_post : String → Action r.World Response
  pub http_post_json : String → Fields → Action r.World Response
  pub aclose : Action r.World (Unit {0})
  pub http_delete : String → Action r.World Response
  pub http_get_law :
      (path : String) (m : Keys r.Payload)
      → Triple (λ w. r.stored w ≡ m) (http_get path) (λ _ w. r.stored w ≡ m) (λ _ w. r.stored w ≡ m)
  pub http_post_law :
      (path : String) (m : Keys r.Payload)
      → Triple
          (λ w. r.stored w ≡ m)
          (http_post path)
          (λ _ w. r.stored w ≡ m)
          (λ _ w. r.stored w ≡ m)
  pub http_delete_law :
      (path : String) (m : Keys r.Payload)
      → Triple
          (λ w. r.stored w ≡ m)
          (http_delete path)
          (λ _ w. r.stored w ≡ m)
          (λ _ w. r.stored w ≡ m)
  pub http_post_json_law :
      (path : String) (body : Fields) (m : Keys r.Payload)
      → Triple
          (λ w. r.stored w ≡ m)
          (http_post_json path body)
          (λ _ w. r.stored w ≡ m)
          (λ _ w. r.stored w ≡ m)
  pub base_url : String
  -- Python's `str`
  pub str : Value → String

module _ (r : RedisExecutionRepository) (c : JupyterServerClient r) where
  unfoldable pub from_outcome : {A : Type 0} → Outcome A → Action r.World A
  from_outcome (ok a) = pure a
  from_outcome (raised x) = raise x

  -- `isinstance(payload, dict)`
  as_object : Value → Action r.World Fields
  as_object (dict_value fields) = pure fields
  as_object _ = raise (type_error "Kernel response is not an object")

  kernel_of : String → Response → Action r.World Fields
  unfolding from_outcome as_object
  kernel_of kernel_id response =
      if response.status_code == 404 then raise (kernel_not_found_error kernel_id) else (do
        from_outcome response.raise_for_status
        payload ← from_outcome response.json
        as_object payload)

  get_kernel_failed : String → Error → Action r.World Fields
  get_kernel_failed kernel_id (http_error _) =
      raise (infrastructure_error ("Failed to get kernel: " ++ kernel_id))
  get_kernel_failed kernel_id (type_error _) =
      raise (infrastructure_error ("Failed to get kernel: " ++ kernel_id))
  get_kernel_failed kernel_id (value_error _) =
      raise (infrastructure_error ("Failed to get kernel: " ++ kernel_id))
  get_kernel_failed kernel_id x = raise x

  unfoldable pub get_kernel : String → Action r.World Fields
  unfolding kernel_of get_kernel_failed
  get_kernel kernel_id =
      (do response ← c.http_get ("/api/kernels/" ++ kernel_id); kernel_of kernel_id response)
      except get_kernel_failed kernel_id

  -- `interrupt_kernel`, whose answer is dropped.
  interrupt_failed : String → Error → Action r.World (Unit {0})
  interrupt_failed kernel_id (http_error _) =
      raise (infrastructure_error ("Kernel interrupt failed: " ++ kernel_id))
  interrupt_failed kernel_id x = raise x

  unfoldable pub interrupt_kernel : String → Action r.World (Unit {0})
  unfolding from_outcome interrupt_failed
  interrupt_kernel kernel_id =
      (do
        response ← c.http_post ("/api/kernels/" ++ (kernel_id ++ "/interrupt"))
        from_outcome response.raise_for_status)
      except interrupt_failed kernel_id

  delete_failed : String → Error → Action r.World (Unit {0})
  delete_failed session_id (http_error _) =
      raise (infrastructure_error ("Jupyter session deletion failed: " ++ session_id))
  delete_failed session_id x = raise x

  -- A session that is already gone is as good as deleted.
  deleted : Response → Action r.World (Unit {0})
  unfolding from_outcome
  deleted response =
      if response.status_code == 204 || response.status_code == 404 || response.status_code == 410
      then pure tt
      else from_outcome response.raise_for_status

  unfoldable pub delete_session : String → Action r.World (Unit {0})
  unfolding deleted delete_failed
  delete_session session_id =
      (do response ← c.http_delete ("/api/sessions/" ++ session_id); deleted response)
      except delete_failed session_id

  unfoldable pub close : Action r.World (Unit {0})
  close = c.aclose

  found : String → Option Value → Action r.World Value
  found key none = raise (key_error key)
  found key (some v) = pure v

  -- `payload[key]`
  unfoldable pub item : String → Value → Action r.World Value
  unfolding find found
  item key (dict_value fields) = found key (find key fields)
  item key _ = raise (type_error "indices must be integers")

  create_failed : Error → Action r.World JupyterSessionInfo
  create_failed (http_error text) =
      raise (infrastructure_error ("Jupyter session creation failed: " ++ text))
  create_failed (key_error text) =
      raise (infrastructure_error ("Jupyter session creation failed: " ++ text))
  create_failed (type_error text) =
      raise (infrastructure_error ("Jupyter session creation failed: " ++ text))
  create_failed (value_error text) =
      raise (infrastructure_error ("Jupyter session creation failed: " ++ text))
  create_failed x = raise x

  -- The session that a response describes.
  session_of : Response → Action r.World JupyterSessionInfo
  unfolding from_outcome item
  session_of response = do
    from_outcome response.raise_for_status
    payload ← from_outcome response.json
    id ← item "id" payload
    kernel ← item "kernel" payload
    kernel_id ← item "id" kernel
    pure (record { session_id = c.str id; kernel_id = c.str kernel_id; target = c.base_url })

  unfoldable pub create_session : String → String → Action r.World JupyterSessionInfo
  unfolding session_of create_failed
  create_session execution_id kernel_name =
      (do
        response ← c.http_post_json "/api/sessions" (
            field "name" (str_value execution_id) (
              field "path" (str_value ("executor/" ++ (execution_id ++ ".ipynb"))) (
                field "type" (str_value "notebook") (
                  field "kernel" (dict_value (field "name" (str_value kernel_name) empty)) empty))))
        session_of response)
      except create_failed
