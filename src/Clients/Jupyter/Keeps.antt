-- ===== src/Clients/Jupyter/Keeps.antt =====
-- The REST calls and the keys of Redis.
use executor_service.Common.{◌≡◌, ◌||◌, String, Option, none, some, ◌==◌}
use executor_service.Errors.{Error, http_error}
use executor_service.Action.{Outcome, ok, raised}
use executor_service.Action.Triple.{
  Triple, Triple-raise, Triple-pure, Triple-if, Triple-bind, Triple-except,
}
use executor_service.Schemas.Value.{Value, dict_value, Fields, find}
use executor_service.Platform.{Keys}
use executor_service.Repository.{RedisExecutionRepository}
use executor_service.Clients.Jupyter.{
  Response, JupyterServerClient, from_outcome, item, found, kernel_of, get_kernel_failed,
  interrupt_failed, delete_failed, deleted, session_of, create_failed, as_object, create_session,
  get_kernel, interrupt_kernel, delete_session,
}

module _ (r : RedisExecutionRepository) (c : JupyterServerClient r) where
  -- Reading a response calls nothing.
  module _ (P : r.World → Type 0) where
    pub from_outcome-keeps :
        {A : Type 0} (o : Outcome A) → Triple P (from_outcome r c o) (λ _. P) (λ _. P)
    unfolding from_outcome
    from_outcome-keeps (ok a) = Triple-pure a (λ w p. p)
    from_outcome-keeps (raised x) = Triple-raise x (λ w p. p)

    as_object-keeps : (v : Value) → Triple P (as_object r c v) (λ _. P) (λ _. P)
    unfolding as_object
    as_object-keeps (dict_value fields) = Triple-pure fields (λ w p. p)
    as_object-keeps _ = Triple-raise _ (λ w p. p)

    kernel_of-keeps :
        (kernel_id : String) (response : Response)
        → Triple P (kernel_of r c kernel_id response) (λ _. P) (λ _. P)
    unfolding kernel_of
    kernel_of-keeps kernel_id response =
        Triple-if (response.status_code == 404) _ _ (λ e. Triple-raise _ (λ w p. p))
          (λ e.
            Triple-bind (from_outcome-keeps response.raise_for_status)
              (λ _. Triple-bind (from_outcome-keeps response.json) as_object-keeps))

    get_kernel_failed-keeps :
        (kernel_id : String) (x : Error)
        → Triple P (get_kernel_failed r c kernel_id x) (λ _. P) (λ _. P)
    unfolding get_kernel_failed
    get_kernel_failed-keeps kernel_id (http_error _) = Triple-raise _ (λ w p. p)
    get_kernel_failed-keeps kernel_id _ = Triple-raise _ (λ w p. p)

    pub get_kernel-keeps_of :
        (kernel_id : String)
        → ((path : String) → Triple P (c.http_get path) (λ _. P) (λ _. P))
        → Triple P (get_kernel r c kernel_id) (λ _. P) (λ _. P)
    unfolding get_kernel
    get_kernel-keeps_of kernel_id h =
        Triple-except (Triple-bind (h _) (kernel_of-keeps kernel_id))
          (get_kernel_failed-keeps kernel_id)

  pub get_kernel-keeps :
      (kernel_id : String) (m : Keys r.Payload)
      → Triple
          (λ w. r.stored w ≡ m)
          (get_kernel r c kernel_id)
          (λ _ w. r.stored w ≡ m)
          (λ _ w. r.stored w ≡ m)
  get_kernel-keeps kernel_id m =
      get_kernel-keeps_of (λ w. r.stored w ≡ m) kernel_id (λ path. c.http_get_law path m)

  module _ (P : r.World → Type 0) where
    found-keeps : (key : String) (o : Option Value) → Triple P (found r c key o) (λ _. P) (λ _. P)
    unfolding found
    found-keeps key none = Triple-raise _ (λ w p. p)
    found-keeps key (some v) = Triple-pure v (λ w p. p)

    pub item-keeps : (key : String) (v : Value) → Triple P (item r c key v) (λ _. P) (λ _. P)
    unfolding item
    item-keeps key (dict_value fields) = found-keeps key (find key fields)
    item-keeps key _ = Triple-raise _ (λ w p. p)

    session_of-keeps : (response : Response) → Triple P (session_of r c response) (λ _. P) (λ _. P)
    unfolding session_of
    session_of-keeps response = Triple-bind (from_outcome-keeps P response.raise_for_status) (λ _.
        Triple-bind (from_outcome-keeps P response.json) (λ payload.
          Triple-bind (item-keeps "id" payload) (λ id.
            Triple-bind (item-keeps "kernel" payload) (λ kernel.
              Triple-bind (item-keeps "id" kernel) (λ kernel_id. Triple-pure _ (λ w p. p))))))

    create_failed-keeps : (x : Error) → Triple P (create_failed r c x) (λ _. P) (λ _. P)
    unfolding create_failed
    create_failed-keeps (http_error _) = Triple-raise _ (λ w p. p)
    create_failed-keeps _ = Triple-raise _ (λ w p. p)

    interrupt_failed-keeps :
        (k : String) (x : Error) → Triple P (interrupt_failed r c k x) (λ _. P) (λ _. P)
    unfolding interrupt_failed
    interrupt_failed-keeps k (http_error _) = Triple-raise _ (λ w p. p)
    interrupt_failed-keeps k _ = Triple-raise _ (λ w p. p)

    pub interrupt_kernel-keeps_of :
        (kernel_id : String)
        → ((path : String) → Triple P (c.http_post path) (λ _. P) (λ _. P))
        → Triple P (interrupt_kernel r c kernel_id) (λ _. P) (λ _. P)
    unfolding interrupt_kernel
    interrupt_kernel-keeps_of kernel_id h =
        Triple-except
          (Triple-bind (h _) (λ response. from_outcome-keeps P response.raise_for_status))
          (interrupt_failed-keeps kernel_id)

    delete_failed-keeps :
        (k : String) (x : Error) → Triple P (delete_failed r c k x) (λ _. P) (λ _. P)
    unfolding delete_failed
    delete_failed-keeps k (http_error _) = Triple-raise _ (λ w p. p)
    delete_failed-keeps k _ = Triple-raise _ (λ w p. p)

    deleted-keeps : (response : Response) → Triple P (deleted r c response) (λ _. P) (λ _. P)
    unfolding deleted
    deleted-keeps response =
        Triple-if
          (response.status_code == 204
            || response.status_code == 404
            || response.status_code == 410)
          _ _ (λ _. Triple-pure tt (λ w p. p)) (λ _. from_outcome-keeps P response.raise_for_status)

    pub create_session-keeps_of :
        (execution_id kernel_name : String)
        → ((path : String) (body : Fields)
            → Triple P (c.http_post_json path body) (λ _. P) (λ _. P))
        → Triple P (create_session r c execution_id kernel_name) (λ _. P) (λ _. P)
    unfolding create_session
    create_session-keeps_of execution_id kernel_name h =
        Triple-except (Triple-bind (h _ _) session_of-keeps) create_failed-keeps

    pub delete_session-keeps_of :
        (session_id : String)
        → ((path : String) → Triple P (c.http_delete path) (λ _. P) (λ _. P))
        → Triple P (delete_session r c session_id) (λ _. P) (λ _. P)
    unfolding delete_session
    delete_session-keeps_of session_id h =
        Triple-except (Triple-bind (h _) deleted-keeps) (delete_failed-keeps session_id)

  pub create_session-keeps :
      (execution_id kernel_name : String) (m : Keys r.Payload)
      → Triple
          (λ w. r.stored w ≡ m)
          (create_session r c execution_id kernel_name)
          (λ _ w. r.stored w ≡ m)
          (λ _ w. r.stored w ≡ m)
  create_session-keeps execution_id kernel_name m =
      create_session-keeps_of (λ w. r.stored w ≡ m) execution_id kernel_name
        (λ path body. c.http_post_json_law path body m)

  pub interrupt_kernel-keeps :
      (kernel_id : String) (m : Keys r.Payload)
      → Triple
          (λ w. r.stored w ≡ m)
          (interrupt_kernel r c kernel_id)
          (λ _ w. r.stored w ≡ m)
          (λ _ w. r.stored w ≡ m)
  interrupt_kernel-keeps kernel_id m =
      interrupt_kernel-keeps_of (λ w. r.stored w ≡ m) kernel_id (λ path. c.http_post_law path m)

  pub delete_session-keeps :
      (session_id : String) (m : Keys r.Payload)
      → Triple
          (λ w. r.stored w ≡ m)
          (delete_session r c session_id)
          (λ _ w. r.stored w ≡ m)
          (λ _ w. r.stored w ≡ m)
  delete_session-keeps session_id m =
      delete_session-keeps_of (λ w. r.stored w ≡ m) session_id (λ path. c.http_delete_law path m)
