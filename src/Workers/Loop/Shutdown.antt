-- ===== src/Workers/Loop/Shutdown.antt =====
-- The loop of the worker past its `finally`, and the tasks that it then has.
use executor_service.Common.{ℕ, ◌≡◌, refl, Bool, true, false, List, [], ◌∷◌, ◌++◌, All}
use executor_service.Workers.Loop.{
  Phase, Loop, noted, discard, Step, tests, resumes, fetches, wakes, ends, drained, cancels, stops,
  Reaches, here, further,
}

-- Past the `finally` of the loop.
abbrev pub is_ending : Phase → Bool
is_ending Phase.draining = true
is_ending Phase.stopped = true
is_ending _ = false

noted-ending : (p : Phase) → is_ending p ≡ true → is_ending (noted p) ≡ true
noted-ending Phase.draining h = refl
noted-ending Phase.stopped h = refl
noted-ending Phase.testing h = cc
noted-ending (Phase.waiting b) h = cc
noted-ending (Phase.fetching n) h = cc
noted-ending Phase.sleeping h = cc

All-without :
    {A : Type 0} (P : A → Type 0) (before after : List A) (a : A)
    → All P (before ++ (a ∷ after))
    → All P (before ++ after)
All-without P [] after a h = h.1
All-without P (b ∷ before) after a h = (h.0, All-without P before after a h.1)

module _ {Message : Type 0} (max_concurrency batch_size : ℕ) (P : Message → Type 0) where
  abbrev pub Ends : Loop Message → Type 0
  Ends l = (is_ending l.phase ≡ true) × All P l.tasks

  other : {p q : Phase} {B : Type 0} → p ≡ q → is_ending p ≡ true → is_ending q ≡ false → B
  other e h k = cc

  Step-Ends : (l n : Loop Message) → Step max_concurrency batch_size l n → Ends l → Ends n
  unfolding discard
  Step-Ends l n (tests _ p) (h, ts) = other p h refl
  Step-Ends l n (resumes _ p) (h, ts) = other p h refl
  Step-Ends l n (fetches _ count reply p f) (h, ts) = other p h refl
  Step-Ends l n (wakes _ p) (h, ts) = other p h refl
  Step-Ends l n (ends _ before after m e) (h, ts) =
      (noted-ending l.phase h, All-without P before after m (rw e at ts))
  Step-Ends l n (drained _ p e) (h, ts) = (refl, ts)
  Step-Ends l n (cancels _ p) (h, ts) = (refl, ts)
  Step-Ends l n (stops _) s = s

  -- If the loop has come to its `finally`, then it stays there, and whatever is so of all its tasks
  -- stays so: it starts no other.
  pub Reaches-Ends : (l n : Loop Message) → Reaches max_concurrency batch_size l n → Ends l → Ends n
  Reaches-Ends l n (here _) s = s
  Reaches-Ends l n (further _ k _ r t) s = Step-Ends k n t (Reaches-Ends l k r s)
