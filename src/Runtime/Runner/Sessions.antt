-- ===== src/Runtime/Runner/Sessions.antt =====
-- The opening and the closing of a session: they keep whatever the calls that they make keep.
use executor_service.Common.{String, Option, some}
use executor_service.Errors.{Error, cancelled_error, is_infrastructure}
use executor_service.Action.{Outcome, ok, raised}
use executor_service.Action.Triple.{
  Keeps, Triple-pure, Triple-raise, Triple-bind, Triple-attempt, Triple-if, Triple-except,
}
use executor_service.Schemas.Value.{Fields}
use executor_service.Clients.Jupyter.{JupyterServerClient}
use executor_service.Clients.Jupyter.Keeps.{create_session-keeps_of, delete_session-keeps_of}
use executor_service.Repository.{RedisExecutionRepository}
use executor_service.Runtime.Runner.{
  Channels, JupyterSession, ignore_infrastructure, connect_failed, open_session, is_preserving,
  clean_up, close_with, close,
}

module _ (r : RedisExecutionRepository) (client : JupyterServerClient r) (channels : Channels r)
    (P : r.World → Type 0) where
  -- The calls of httpx and websockets by which a session is opened and closed.
  pub record Calls : Type 0 where
    pub post_json_keeps :
        (path : String) (body : Fields) → Keeps P (client.http_post_json path body)
    pub delete_keeps : (path : String) → Keeps P (client.http_delete path)
    pub connect_keeps : (kernel_id : String) → Keeps P (channels.connect kernel_id)
    pub close_keeps : (socket : channels.Connection) → Keeps P (channels.close socket)

  module _ (calls : Calls) where
    ignore-Keeps : (x : Error) → Keeps P (ignore_infrastructure r client channels x)
    unfolding ignore_infrastructure
    ignore-Keeps x =
        Triple-if (is_infrastructure x) _ _ (λ _. Triple-pure tt (λ w p. p))
          (λ _. Triple-raise x (λ w p. p))

    connect_failed-Keeps :
        (kernel_id : String) (x : Error) → Keeps P (connect_failed r client channels kernel_id x)
    unfolding connect_failed
    connect_failed-Keeps kernel_id cancelled_error = Triple-raise _ (λ w p. p)
    connect_failed-Keeps kernel_id _ = Triple-raise _ (λ w p. p)

    pub open_session-Keeps :
        (execution_id kernel_name : String)
        → Keeps P (open_session r client channels execution_id kernel_name)
    unfolding open_session
    open_session-Keeps execution_id kernel_name =
        Triple-bind
          (create_session-keeps_of r client P execution_id kernel_name calls.post_json_keeps)
          (λ info.
            Triple-bind
              (Triple-except (calls.connect_keeps info.kernel_id)
                (connect_failed-Keeps info.kernel_id))
              (λ socket. Triple-pure _ (λ w p. p)))

    clean_up-Keeps :
        (session : JupyterSession r client channels) (x : Option Error)
        → Keeps P (clean_up r client channels session x)
    unfolding clean_up
    clean_up-Keeps session x =
        Triple-if (is_preserving r client channels x) _ _ (λ _. Triple-pure tt (λ w p. p))
          (λ _.
            Triple-except
              (delete_session-keeps_of r client P session.session_info.session_id
                calls.delete_keeps)
              ignore-Keeps)

    close_with-Keeps :
        (session : JupyterSession r client channels) (x : Option Error) (o : Outcome (Unit {0}))
        → Keeps P (close_with r client channels session x o)
    unfolding close_with
    close_with-Keeps session x (ok _) = clean_up-Keeps session x
    close_with-Keeps session x (raised y) =
        Triple-bind (clean_up-Keeps session (some y)) (λ _. Triple-raise y (λ w p. p))

    pub close-Keeps :
        (session : JupyterSession r client channels) (x : Option Error)
        → Keeps P (close r client channels session x)
    unfolding close
    close-Keeps session x =
        Triple-attempt (close_with r client channels session x)
          (calls.close_keeps session.websocket) (λ o. close_with-Keeps session x (ok o))
          (λ y. close_with-Keeps session x (raised y))
