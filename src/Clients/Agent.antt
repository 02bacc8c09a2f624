-- ===== src/Clients/Agent.antt =====
-- clients/agent.py: AgentCallbackClient posts the result of an execution to the agent.
use executor_service.Common.{◌≡◌, String}
use executor_service.Errors.{Error, http_error, callback_delivery_error}
use executor_service.Action.{Action, raise, ◌except◌}
use executor_service.Action.Triple.{Triple, Triple-raise, Triple-except}
use executor_service.Schemas.Callback.{ExecutionCallback}
use executor_service.Platform.{Keys}
use executor_service.Repository.{RedisExecutionRepository}

-- `http_post url body key` is httpx's `post` with the header Idempotency-Key, and then
-- `raise_for_status`; it does not touch Redis. `aclose` closes httpx's client.
pub record AgentCallbackClient (r : RedisExecutionRepository) : Type 1 where
  pub http_post : String → ExecutionCallback → String → Action r.World (Unit {0})
  pub aclose : Action r.World (Unit {0})
  pub http_post_law :
      (url : String) (body : ExecutionCallback) (key : String) (m : Keys r.Payload)
      → Triple
          (λ w. r.stored w ≡ m)
          (http_post url body key)
          (λ _ w. r.stored w ≡ m)
          (λ _ w. r.stored w ≡ m)

module _ (r : RedisExecutionRepository) (c : AgentCallbackClient r) where
  unfoldable pub wrap : {A : Type 0} → Error → Action r.World A
  wrap (http_error text) = raise (callback_delivery_error text)
  wrap x = raise x

  unfoldable pub send : String → ExecutionCallback → Action r.World (Unit {0})
  unfolding wrap
  send callback_url callback = c.http_post callback_url callback callback.event_id except wrap

  unfoldable pub close : Action r.World (Unit {0})
  close = c.aclose

  pub wrap-raises :
      {A : Type 0} {P : r.World → Type 0} {Q : A → r.World → Type 0} (x : Error)
      → Triple P (wrap x) Q (λ _. P)
  unfolding wrap
  wrap-raises (http_error t) = Triple-raise _ (λ w p. p)
  wrap-raises _ = Triple-raise _ (λ w p. p)

  pub send-keeps :
      (url : String) (body : ExecutionCallback) (m : Keys r.Payload)
      → Triple (λ w. r.stored w ≡ m) (send url body) (λ _ w. r.stored w ≡ m) (λ _ w. r.stored w ≡ m)
  unfolding send
  send-keeps url body m =
      Triple-except (c.http_post_law url body body.event_id m) (λ x. wrap-raises x)
