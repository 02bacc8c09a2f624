-- ===== src/Api/Health.antt =====
-- api/health.py: the two routes.
use executor_service.Common.{◌≡◌, refl, ◌⊎◌, inl, inr, Bool, true, false, String, if◌then◌else◌}
use executor_service.Errors.{
  Error, infrastructure_error, kernel_not_found_error, redis_error, response_error, http_exception,
  is_infrastructure,
}
use executor_service.Action.{
  Outcome, ok, raised, Action, pure, raise, recover, continue, ◌except◌, ◌>>=◌,
}
use executor_service.Action.Triple.{Post}
use executor_service.Clients.Redis.{RedisStreamClient, wrap}
use executor_service.Clients.Lifecycle.{Server, ping}

pub record HealthResponse : Type 0 where
  pub status : String

-- A RedisError, or an InfrastructureError.
abbrev pub is_outage : Error → Bool
is_outage (redis_error _) = true
is_outage (response_error _) = true
is_outage x = is_infrastructure x

module _ (c : RedisStreamClient) (server : Server c) where
  unfoldable pub health : Action c.World HealthResponse
  health = pure (record { status = "UP" })

  ping_failed : Error → Action c.World Bool
  ping_failed x =
      if is_infrastructure x then raise (http_exception 503 "Redis is unavailable") else raise x

  answer : Bool → Action c.World HealthResponse
  answer connected =
      if connected
      then pure (record { status = "READY" })
      else raise (http_exception 503 "Redis ping failed")

  unfoldable pub readiness : Action c.World HealthResponse
  unfolding ping_failed answer
  readiness = do connected ← ping c server except ping_failed; answer connected

  -- Ready, after a ping that answered true.
  abbrev pub Ready : Outcome Bool × c.World → HealthResponse → c.World → Type 0
  Ready reply response w = (response.status ≡ "READY") × (reply ≡ (ok true, w))

  -- 503 after a ping that answered false or that Redis or its client failed; or what else it raised.
  abbrev pub Unready : Outcome Bool × c.World → Error → c.World → Type 0
  Unready reply x w =
      ((x ≡ http_exception 503 "Redis ping failed") × (reply ≡ (ok false, w)))
      ⊎ (((x ≡ http_exception 503 "Redis is unavailable")
            × ((y : Error) × (is_outage y ≡ true) × (reply ≡ (raised y, w))))
          ⊎ ((is_outage x ≡ false) × (reply ≡ (raised x, w))))

  after_ping :
      (reply : Outcome Bool × c.World)
      → Post (Ready reply) (Unready reply) (
          let r = recover reply.0 (wrap "Redis ping failed") reply.1 in
          let s = recover r.0 ping_failed r.1 in continue s.0 answer s.1)
  unfolding wrap ping_failed answer
  after_ping (ok true, w) = (refl, refl)
  after_ping (ok false, w) = inl (refl, refl)
  after_ping (raised (redis_error t), w) = inr (inl (refl, (_, refl, refl)))
  after_ping (raised (response_error t), w) = inr (inl (refl, (_, refl, refl)))
  after_ping (raised (infrastructure_error t), w) = inr (inl (refl, (_, refl, refl)))
  after_ping (raised (kernel_not_found_error t), w) = inr (inl (refl, (_, refl, refl)))
  after_ping (raised x, w) = inr (inr (refl, refl))

  -- If `readiness` returns, then it answers READY and the ping of Redis answered true. If it raises,
  -- then status 503 after a ping that answered false, or that raised a RedisError or an
  -- InfrastructureError; or what the ping raised, which is neither of them.
  pub readiness-Ready :
      (w : c.World)
      → Post (Ready (server.redis_ping w)) (Unready (server.redis_ping w)) (readiness w)
  unfolding readiness ping
  readiness-Ready w = after_ping (server.redis_ping w)
