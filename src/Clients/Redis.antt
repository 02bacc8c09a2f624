-- ===== src/Clients/Redis.antt =====
-- clients/redis.py, RedisStreamClient: each command, with RedisError turned into
-- InfrastructureError.
use Prim.Native.String.{◌++◌}
use executor_service.Common.{ℕ, ◌≡◌, ◌⊎◌, Bool, false, String, Option}
use executor_service.Errors.{Error, redis_error, response_error, infrastructure_error}
use executor_service.Action.{Action, raise, ◌except◌}
use executor_service.Action.Triple.{Triple, Triple-raise, Triple-except}
use executor_service.Platform.{Platform, Keys, put}

pub record RedisStreamClient : Type 1 where
  pub platform : Platform
  pub open platform use *
  pub stream_name : String
  pub group_name : String

-- `except RedisError as exc: raise InfrastructureError(f"{what}: {exc}") from exc`
unfoldable pub wrap : {W A : Type 0} → String → Error → Action W A
wrap what (redis_error text) = raise (infrastructure_error (what ++ (": " ++ text)))
wrap what (response_error text) = raise (infrastructure_error (what ++ (": " ++ text)))
wrap what x = raise x

module _ (c : RedisStreamClient) where
  unfoldable pub get : String → Action c.World (Option c.Payload)
  unfolding wrap
  get key = c.redis_get key except wrap "Redis GET failed"

  unfoldable pub set : String → c.Payload → Bool → Action c.World (Option Bool)
  unfolding wrap
  set key value nx = c.redis_set key value nx except wrap "Redis SET failed"

  unfoldable pub acknowledge : String → Action c.World ℕ
  unfolding wrap
  acknowledge message_id =
      c.redis_xack c.stream_name c.group_name message_id except wrap "Redis acknowledgement failed"

  pub wrap-raises :
      {A : Type 0} {P : c.World → Type 0} {Q : A → c.World → Type 0} (what : String) (x : Error)
      → Triple P (wrap what x) Q (λ _. P)
  unfolding wrap
  wrap-raises what (redis_error t) = Triple-raise _ (λ w p. p)
  wrap-raises what _ = Triple-raise _ (λ w p. p)

  pub get-reads :
      (k : String) (m : Keys c.Payload)
      → Triple
          (λ w. c.stored w ≡ m)
          (get k)
          (λ v w. (v ≡ m k) × (c.stored w ≡ m))
          (λ _ w. c.stored w ≡ m)
  unfolding get
  get-reads k m = Triple-except (c.get_law k m) (λ x. wrap-raises "Redis GET failed" x)

  pub set-writes :
      (k : String) (v : c.Payload) (m : Keys c.Payload)
      → Triple
          (λ w. c.stored w ≡ m)
          (set k v false)
          (λ _ w. c.stored w ≡ put k v m)
          (λ _ w. (c.stored w ≡ m) ⊎ (c.stored w ≡ put k v m))
  unfolding set
  set-writes k v m = Triple-except (c.set_law k v m) (λ x. wrap-raises "Redis SET failed" x)

  pub acknowledge-keeps :
      (message_id : String) (m : Keys c.Payload)
      → Triple
          (λ w. c.stored w ≡ m)
          (acknowledge message_id)
          (λ _ w. c.stored w ≡ m)
          (λ _ w. c.stored w ≡ m)
  unfolding acknowledge
  acknowledge-keeps message_id m =
      Triple-except (c.xack_law c.stream_name c.group_name message_id m)
        (λ x. wrap-raises "Redis acknowledgement failed" x)
