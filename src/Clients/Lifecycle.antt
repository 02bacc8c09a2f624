-- ===== src/Clients/Lifecycle.antt =====
-- clients/redis.py: initialize with _create_consumer_group, ping and close.
use Prim.Native.String.{◌++◌}
use executor_service.Common.{
  ℕ, ◌≡◌, refl, ◌∙◌, ◌⊎◌, inl, inr, Bool, true, false, String, Option, none, some, is_some, or_else,
  find_text, if◌then◌else◌,
}
use executor_service.Errors.{
  Error, redis_error, response_error, timeout_error, infrastructure_error,
}
use executor_service.Action.{Action, pure, raise, ◌except◌, ◌>>◌}
use executor_service.Action.Triple.{Triple, Triple-raise, Triple-bind, Triple-weaken, Triple-except}
use executor_service.Action.Timeouts.{Timeouts}
use executor_service.Clients.Redis.{RedisStreamClient, wrap}

-- Redis answers BUSYGROUP to a group that is there.
abbrev pub is_busy : Error → Bool
is_busy (response_error text) = is_some (find_text text "BUSYGROUP")
is_busy _ = false

-- What a group is at when it is created.
abbrev pub beginning : String
beginning = "0-0"

-- PING, XGROUP CREATE with MKSTREAM, and the closing of the pool, as redis-py has them. `position` is
-- the last id that was delivered to the group of the client, if the stream has the group. A
-- command that raises may or may not have been carried out.
pub record Server (c : RedisStreamClient) : Type 1 where
  pub redis_ping : Action c.World Bool
  pub redis_xgroup_create : String → String → String → Action c.World (Unit {0})
  pub redis_aclose : Action c.World (Unit {0})
  pub connect_timeout_seconds : ℕ
  pub position : c.World → Option String
  pub ping_law :
      (p : Option String)
      → Triple (λ w. position w ≡ p) redis_ping (λ _ w. position w ≡ p) (λ _ w. position w ≡ p)
  pub xgroup_create_law :
      (p : Option String)
      → Triple
          (λ w. position w ≡ p)
          (redis_xgroup_create c.stream_name c.group_name beginning)
          (λ _ w. (p ≡ none) × (position w ≡ some beginning))
          (λ x w.
            ((is_busy x ≡ true) × (is_some p ≡ true) × (position w ≡ p))
            ⊎ ((is_busy x ≡ false)
                × ((position w ≡ p) ⊎ ((p ≡ none) × (position w ≡ some beginning)))))

-- An exception that `initialize` turns into an InfrastructureError.
abbrev pub is_foreign : Error → Bool
is_foreign timeout_error = true
is_foreign (redis_error _) = true
is_foreign (response_error _) = true
is_foreign _ = false

there : (o : Option String) → is_some o ≡ true → o ≡ some (or_else o beginning)
there none e = cc
there (some t) e = refl

module _ (c : RedisStreamClient) (server : Server c) where
  create_failed : Error → Action c.World (Unit {0})
  create_failed x = if is_busy x then pure tt else raise x

  -- `_create_consumer_group`
  unfoldable pub create_consumer_group : Action c.World (Unit {0})
  unfolding create_failed
  create_consumer_group =
      server.redis_xgroup_create c.stream_name c.group_name beginning except create_failed

  initialize_failed : Error → Action c.World (Unit {0})
  initialize_failed timeout_error = raise (infrastructure_error "Redis initialization timed out")
  initialize_failed (redis_error text) =
      raise (infrastructure_error ("Redis initialization failed: " ++ text))
  initialize_failed (response_error text) =
      raise (infrastructure_error ("Redis initialization failed: " ++ text))
  initialize_failed x = raise x

  unfoldable pub initialize : Timeouts c.World → Action c.World (Unit {0})
  unfolding create_consumer_group initialize_failed
  initialize asyncio =
      asyncio.timeout server.connect_timeout_seconds (do server.redis_ping; create_consumer_group)
      except initialize_failed

  unfoldable pub ping : Action c.World Bool
  unfolding wrap
  ping = server.redis_ping except wrap "Redis ping failed"

  unfoldable pub close : Action c.World (Unit {0})
  close = server.redis_aclose

  module _ (p : Option String) where
    -- The group is there: where it was, or at the beginning of the stream.
    abbrev pub Joined : c.World → Type 0
    Joined w = server.position w ≡ some (or_else p beginning)

    abbrev Open : c.World → Type 0
    Open w = (server.position w ≡ p) ⊎ Joined w

    made_anew : (w : c.World) → p ≡ none → server.position w ≡ some beginning → Joined w
    made_anew w e h = rw e h

    was_before : (w : c.World) → is_some p ≡ true → server.position w ≡ p → Joined w
    was_before w e h = h ∙ there p e

    create_failed-Joined :
        (x : Error)
        → Triple
            (λ w.
              ((is_busy x ≡ true) × (is_some p ≡ true) × (server.position w ≡ p))
              ⊎ ((is_busy x ≡ false)
                  × ((server.position w ≡ p)
                      ⊎ ((p ≡ none) × (server.position w ≡ some beginning)))))
            (create_failed x)
            (λ _. Joined)
            (λ _. Open)
    unfolding create_failed
    create_failed-Joined x = record {
      at = λ w h. elim h [
        | inl (busy, there, same) ↦ rw busy (was_before w there same)
        | inr (other, inl same) ↦ rw other (inl same)
        | inr (other, inr (absent, made)) ↦ rw other (inr (made_anew w absent made))
      ];
    }

    initialize_failed-Open :
        (x : Error)
        → Triple Open (initialize_failed x) (λ _. Joined) (λ x w. (is_foreign x ≡ false) × Open w)
    unfolding initialize_failed
    initialize_failed-Open timeout_error = Triple-raise _ (λ w h. (refl, h))
    initialize_failed-Open (redis_error t) = Triple-raise _ (λ w h. (refl, h))
    initialize_failed-Open (response_error t) = Triple-raise _ (λ w h. (refl, h))
    initialize_failed-Open x = Triple-raise _ (λ w h. (refl, h))

    -- If `initialize` returns, then the group of the client is there: one that was there is where it
    -- was, and a new one is at the beginning of the stream. If it raises, then neither a RedisError
    -- nor a TimeoutError, and a group that was there is where it was.
    pub initialize-Joined :
        (asyncio : Timeouts c.World)
        → Triple
            (λ w. server.position w ≡ p)
            (initialize asyncio)
            (λ _. Joined)
            (λ x w. (is_foreign x ≡ false) × Open w)
    unfolding initialize create_consumer_group
    initialize-Joined asyncio =
        Triple-except
          (Triple-weaken
            (asyncio.timeout_law server.connect_timeout_seconds (
              Triple-bind
                (Triple-weaken (server.ping_law p) (λ w h. h) (λ _ w h. h) (λ x w h. inl h))
                (λ _.
                  Triple-except
                    (Triple-weaken (server.xgroup_create_law p) (λ w h. h)
                      (λ _ w h. made_anew w h.0 h.1) (λ x w h. h))
                    create_failed-Joined)))
            (λ w h. h) (λ _ w h. h) (λ x w h. elim h [ inl o ↦ o | inr (_, o) ↦ o ]))
          initialize_failed-Open
