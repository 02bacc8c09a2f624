-- ===== src/Workers/Fetch.antt =====
-- workers/execution.py: what ExecutionWorker.run does to fetch messages.
use executor_service.Common.{
  ℕ, ◌≡◌, refl, ◌≤◌, String, List, [], ◌∷◌, Option, none, some, length, arith, Bool-cases, inl, inr,
  ltb,
}
use executor_service.Action.{Outcome, ok, raised, Action, pure, raise, ◌>>=◌}
use executor_service.Action.Outcomes.{Gives}
use executor_service.Action.Triple.{Triple, Post, Triple-bind, Triple-except}
use executor_service.Schemas.Command.{ExecutionCommand}
use executor_service.Clients.Redis.{RedisStreamClient, wrap-raises}
use executor_service.Clients.Stream.{Raw, read_claim, claim_stale, parse_messages}
use executor_service.Clients.Reading.{Streams, consume, consume-length, length-parse_messages}
use executor_service.Services.Recovery.{Pending, PendingRecoveryService, claim, claim_at, advance}
use executor_service.Workers.Loop.{Fits}

module _ (c : RedisStreamClient) (recovery : PendingRecoveryService c) (streams : Streams c)
    (consumer_name : String) (block_ms : ℕ) where
  abbrev Message : Type 0
  Message = String × ExecutionCommand

  -- A call that does not use what the recovery service keeps.
  beside : {A : Type 0} → Action c.World A → Action (Pending × c.World) A
  beside m (p, w) = let (r, w') = m w in (r, (p, w'))

  -- `if not messages: messages = await self.redis_client.consume(…)`
  or_consume : ℕ → List Message → Action (Pending × c.World) (List Message)
  unfolding beside
  or_consume count [] = beside (consume c streams consumer_name count block_ms)
  or_consume count (m ∷ messages) = pure (m ∷ messages)

  -- The `try` block of the loop: the claim, and what is new if it gives nothing.
  unfoldable pub fetch : ℕ → Action (Pending × c.World) (List Message)
  unfolding or_consume
  fetch count = do messages ← claim c recovery count; or_consume count messages

  abbrev Few : ℕ → List Message → Type 0
  Few count messages = length messages ≤ count

  abbrev pub Small : ℕ → Option (String × List (Raw c)) → Type 0
  Small count none = Unit {0}
  Small count (some (_, messages)) = length messages ≤ count

  -- XAUTOCLAIM's COUNT: at most as many messages.
  abbrev pub Counts : Type 0
  Counts =
      (count : ℕ) (cursor : String)
      → Triple (λ _. Unit {0}) (recovery.xautoclaim recovery.min_idle_ms count cursor)
          (λ reply _. Small count reply) (λ _ _. Unit {0})

  gives :
      {count : ℕ} (cursor : String) (messages : List (Raw c)) (o : Outcome (List Message))
      → Gives (λ commands. length commands ≡ length messages) o
      → Triple {W = c.World} {A = String × List Message}
          (λ _. length messages ≤ count)
          (elim o as (λ _. Action c.World (String × List Message)) [
            | ok commands ↦ pure (cursor, commands)
            | raised x ↦ raise x
          ])
          (λ reply _. Few count reply.1)
          (λ _ _. Unit {0})
  gives cursor messages (ok commands) h = record { at = λ w few. rw (h.at commands refl) few }
  gives cursor messages (raised x) h = record { at = λ w few. tt }

  read_claim-Few :
      (count : ℕ) (reply : Option (String × List (Raw c)))
      → Triple
          (λ _. Small count reply)
          (read_claim c reply)
          (λ claimed _. Few count claimed.1)
          (λ _ _. Unit {0})
  unfolding read_claim
  read_claim-Few count none = record { at = λ w few. tt }
  read_claim-Few count (some (cursor, messages)) =
      gives cursor messages (parse_messages c messages) (length-parse_messages c messages)

  claim_stale-Few :
      (count : ℕ) (cursor : String)
      → Counts
      → Triple
          (λ _. Unit {0})
          (claim_stale c recovery.xautoclaim recovery.min_idle_ms count cursor)
          (λ reply _. Few count reply.1)
          (λ _ _. Unit {0})
  unfolding claim_stale
  claim_stale-Few count cursor h =
      Triple-bind
        (Triple-except (h count cursor) (λ x. wrap-raises c "Redis pending claim failed" x))
        (read_claim-Few count)

  advance-Few :
      (count : ℕ) (p : Pending) (r : Outcome (String × List Message) × c.World)
      → Post (λ reply _. Few count reply.1) (λ _ _. Unit {0}) r
      → Post (λ messages _. Few count messages) (λ _ _. Unit {0}) (advance c recovery p r)
  unfolding advance
  advance-Few count p (ok (cursor, messages), w) h = h
  advance-Few count p (raised x, w) h = tt

  claim_at-Few :
      (count now : ℕ) (p : Pending) (w : c.World)
      → Counts
      → Post
          (λ messages _. Few count messages)
          (λ _ _. Unit {0})
          (claim_at c recovery count now p w)
  unfolding claim_at
  claim_at-Few count now p w h = elim (Bool-cases (ltb now p.next_claim_at)) [
    | inl e ↦ rw e (omega arith)
    | inr e ↦ rw e (advance-Few count _ _ ((claim_stale-Few count p.cursor h).at w tt))
  ]

  claim-Few :
      (count : ℕ)
      → Counts
      → Triple
          (λ _. Unit {0})
          (claim c recovery count)
          (λ messages _. Few count messages)
          (λ _ _. Unit {0})
  unfolding claim
  claim-Few count h = record {
    at = λ (p, w) _. let t = recovery.monotonic w in claim_at-Few count t.0 p t.1 h;
  }

  abbrev paired :
      Pending → Outcome (List Message) × c.World → Outcome (List Message) × (Pending × c.World)
  paired p (r, w) = (r, (p, w))

  beside-Few :
      (count : ℕ) (p : Pending) (r : Outcome (List Message) × c.World)
      → Post (λ messages _. Few count messages) (λ _ _. Unit {0}) r
      → Post (λ messages _. Few count messages) (λ _ _. Unit {0}) (paired p r)
  beside-Few count p (ok messages, w) h = h
  beside-Few count p (raised x, w) h = tt

  or_consume-Few :
      (count : ℕ) (messages : List Message)
      → Triple
          (λ _. Few count messages)
          (or_consume count messages)
          (λ ms _. Few count ms)
          (λ _ _. Unit {0})
  unfolding or_consume beside
  or_consume-Few count [] = record {
    at = λ (p, w) _.
        beside-Few count p _ ((consume-length c streams consumer_name count block_ms).at w tt);
  }
  or_consume-Few count (m ∷ messages) = record { at = λ w h. h }

  Few-Fits :
      (max_concurrency batch_size count : ℕ) (r : Outcome (List Message) × (Pending × c.World))
      → Post (λ messages _. Few count messages) (λ _ _. Unit {0}) r
      → Fits max_concurrency batch_size count r.0
  Few-Fits max_concurrency batch_size count (ok messages, w) h = h
  Few-Fits max_concurrency batch_size count (raised x, w) h = tt

  -- If XAUTOCLAIM gives at most as many messages as it is asked for, then so does what the loop does to
  -- fetch messages, whether they are claimed or new; so it fits the loop's step.
  pub fetch-Fits :
      (max_concurrency batch_size count : ℕ) (s : Pending × c.World)
      → Counts
      → Fits max_concurrency batch_size count (fetch count s).0
  unfolding fetch
  fetch-Fits max_concurrency batch_size count s h =
      let t : Triple (λ _. Unit {0}) (fetch count) (λ messages _. Few count messages)
          (λ _ _. Unit {0}) =
        Triple-bind (claim-Few count h) (or_consume-Few count) in
      Few-Fits max_concurrency batch_size count (fetch count s) (t.at s tt)
