-- ===== src/Services/Recovery.antt =====
-- services/recovery.py: PendingRecoveryService, which takes over messages that another consumer has
-- left pending. A reading of the monotonic clock is a natural number.
use executor_service.Common.{
  ℕ, ◌+◌, ◌<◌, ◌≤◌, ◌≡◌, refl, true, false, String, List, [], Option, arith, ltb, if◌then◌else◌,
}
use executor_service.Action.{Outcome, ok, raised, Action}
use executor_service.Schemas.Command.{ExecutionCommand}
use executor_service.Clients.Redis.{RedisStreamClient}
use executor_service.Clients.Stream.{Raw, claim_stale}

-- `_cursor` and `_next_claim_at`.
pub record Pending : Type 0 where
  pub cursor : String
  pub next_claim_at : ℕ

abbrev pub fresh_pending : Pending
fresh_pending = record { cursor = "0-0"; next_claim_at = 0 }

-- XAUTOCLAIM is redis-py's, and `monotonic` is Python's.
pub record PendingRecoveryService (c : RedisStreamClient) : Type 0 where
  pub min_idle_ms : ℕ
  pub interval : ℕ
  pub monotonic : c.World → ℕ × c.World
  pub xautoclaim : ℕ → ℕ → String → Action c.World (Option (String × List (Raw c)))

module _ (c : RedisStreamClient) (service : PendingRecoveryService c) where
  open service use {interval, monotonic}

  abbrev Claimed : Type 0
  Claimed = List (String × ExecutionCommand)

  -- The cursor is replaced only if the call returns; the test on "0-0" that follows does nothing.
  unfoldable pub advance :
      Pending → Outcome (String × Claimed) × c.World → Outcome Claimed × (Pending × c.World)
  advance p (ok (cursor, messages), w) = (ok messages, (record p { cursor = cursor }, w))
  advance p (raised x, w) = (raised x, (p, w))

  unfoldable pub claim_at : ℕ → ℕ → Pending → c.World → Outcome Claimed × (Pending × c.World)
  unfolding advance
  claim_at count now p w =
      if ltb now p.next_claim_at
      then (ok [], (p, w))
      else advance (record p { next_claim_at = now + interval })
          (claim_stale c service.xautoclaim service.min_idle_ms count p.cursor w)

  -- `claim`
  unfoldable pub claim : ℕ → Action (Pending × c.World) Claimed
  unfolding claim_at
  claim count (p, w) = let (now, w') = monotonic w in claim_at count now p w'

  advance-next :
      (p : Pending) (r : Outcome (String × Claimed) × c.World)
      → (advance p r).1.0.next_claim_at ≡ p.next_claim_at
  unfolding advance
  advance-next p (ok (cursor, messages), w) = refl
  advance-next p (raised x, w) = refl

  claim_at-due :
      (count now : ℕ) (p : Pending) (w : c.World)
      → p.next_claim_at ≤ now
      → (claim_at count now p w).1.0.next_claim_at ≡ now + interval
  unfolding claim_at
  claim_at-due count now p w due =
      let late : ltb now p.next_claim_at ≡ false = ground arith in
      rw late (
        advance-next (record p { next_claim_at = now + interval })
          (claim_stale c service.xautoclaim service.min_idle_ms count p.cursor w))

  claim_at-early :
      (count now : ℕ) (p : Pending) (w : c.World)
      → now < p.next_claim_at
      → claim_at count now p w ≡ (ok [], (p, w))
  unfolding claim_at
  claim_at-early count now p w early =
      let soon : ltb now p.next_claim_at ≡ true = ground arith in rw soon

  -- If a claim is due, then whether it returns or raises, a later claim that comes before the
  -- interval is over gives nothing and does nothing but read the clock.
  pub claim-paced :
      (count count' : ℕ) (p : Pending) (w w' : c.World)
      → p.next_claim_at ≤ (monotonic w).0
      → (monotonic w').0 < (monotonic w).0 + interval
      → (let later = (claim count (p, w)).1.0 in
          claim count' (later, w') ≡ (ok [], (later, (monotonic w').1)))
  unfolding claim
  claim-paced count count' p w w' due early =
      let next = claim_at-due count (monotonic w).0 p (monotonic w).1 due in
      claim_at-early count' (monotonic w').0 (claim count (p, w)).1.0 (monotonic w').1
        (omega (arith, next))
