-- ===== src/Workers/Loop/Bounds.antt =====
-- How many tasks the loop of the worker has, and what it asks Redis for.
use executor_service.Common.{
  ℕ, suc, ◌+◌, ◌-◌, ◌≤◌, ◌<◌, ◌≡◌, true, List, ◌∷◌, ◌++◌, arith, ltb, leb, length, length-append,
  if◌then◌else◌, Bool-cases, inl, inr,
}
use executor_service.Errors.{is_infrastructure}
use executor_service.Action.{Outcome, ok, raised}
use executor_service.Workers.Loop.{
  Phase, Loop, started, available, noted, test, resume, fetched, discard, Fits, Step, tests,
  resumes, fetches, wakes, ends, drained, cancels, stops, Reaches, here, further,
}

-- What the loop is sure of in each phase, of the number of its tasks.
abbrev pub Room : ℕ → ℕ → Phase → ℕ → Type 0
Room max_concurrency batch_size (Phase.waiting true) n = n < max_concurrency
Room max_concurrency batch_size (Phase.fetching count) n =
    (0 < count) × (n + count ≤ max_concurrency) × (count ≤ batch_size)
Room max_concurrency batch_size Phase.stopped n = n ≡ 0
Room max_concurrency batch_size _ n = Unit {0}

module _ (max_concurrency batch_size : ℕ) (busy : 0 < max_concurrency)
    (batched : 0 < batch_size) where
  fits :
      (n : ℕ)
      → n < max_concurrency
      → (let free = max_concurrency - n in
          let count = if leb batch_size free then batch_size else free in
          (0 < count) × (n + count ≤ max_concurrency) × (count ≤ batch_size))
  fits n h = ground arith

  -- One task less leaves room in every phase.
  noted-Room :
      (p : Phase) (n : ℕ)
      → suc n ≤ max_concurrency
      → Room max_concurrency batch_size p (suc n)
      → Room max_concurrency batch_size (noted p) n
  noted-Room (Phase.waiting b) n bound room = omega arith
  noted-Room (Phase.fetching count) n bound (asked, within, small) = (asked, omega arith, small)
  noted-Room Phase.stopped n bound room = cc
  noted-Room p n bound room = tt

module _ {Message : Type 0} (max_concurrency batch_size : ℕ) where
  abbrev pub Sound : Loop Message → Type 0
  Sound l =
      (length l.tasks ≤ max_concurrency) × Room max_concurrency batch_size l.phase (length l.tasks)

  module _ (busy : 0 < max_concurrency) (batched : 0 < batch_size) where
    test-Sound : (l : Loop Message) → Sound l → Sound (test max_concurrency batch_size l)
    unfolding test available
    test-Sound l (bound, _) = elim (Bool-cases l.stop_event) [
      | inl e ↦ rw e (bound, tt)
      | inr e ↦ elim (Bool-cases (ltb (length l.tasks) max_concurrency)) [
        | inl h ↦
            rw (e, h)
              (bound, fits max_concurrency batch_size busy batched (length l.tasks) (ground arith))
        | inr h ↦ rw (e, h) (bound, tt)
      ]
    ]

    resume-Sound :
        (l : Loop Message)
        → l.phase ≡ Phase.waiting true
        → Sound l
        → Sound (resume max_concurrency batch_size l)
    unfolding resume available
    resume-Sound l p (bound, room) =
        (bound, fits max_concurrency batch_size busy batched (length l.tasks) (rw p at room))

    fetched-Sound :
        (l : Loop Message) (count : ℕ) (reply : Outcome (List Message))
        → l.phase ≡ Phase.fetching count
        → Fits max_concurrency batch_size count reply
        → Sound l
        → Sound (fetched max_concurrency batch_size reply l)
    unfolding fetched
    fetched-Sound l count (ok messages) p f (bound, room) =
        let (_, within, _) = rw p at room in (rw (length-append l.tasks messages) (omega arith), tt)
    fetched-Sound l count (raised x) p f (bound, room) = elim (Bool-cases (is_infrastructure x)) [
      | inl e ↦ rw e (bound, tt)
      | inr e ↦ rw e (bound, tt)
    ]

    discard-Sound :
        (l : Loop Message) (before after : List Message) (m : Message)
        → l.tasks ≡ before ++ (m ∷ after)
        → Sound l
        → Sound (discard max_concurrency batch_size before after l)
    unfolding discard
    discard-Sound l before after m e (bound, room) =
        let h : length l.tasks ≡ suc (length (before ++ after)) =
          rw (e, length-append before (m ∷ after), length-append before after) (omega arith) in
        (
          omega arith,
          noted-Room max_concurrency batch_size busy batched l.phase (length (before ++ after))
              (omega arith) (rw h at room),
        )

    Step-Sound : (l n : Loop Message) → Step max_concurrency batch_size l n → Sound l → Sound n
    Step-Sound l n (tests _ p) s = test-Sound l s
    Step-Sound l n (resumes _ p) s = resume-Sound l p s
    Step-Sound l n (fetches _ count reply p f) s = fetched-Sound l count reply p f s
    Step-Sound l n (wakes _ p) s = (s.0, tt)
    Step-Sound l n (ends _ before after m e) s = discard-Sound l before after m e s
    Step-Sound l n (drained _ p e) s = (s.0, rw e)
    Step-Sound l n (cancels _ p) s = (s.0, tt)
    Step-Sound l n (stops _) s = s

    Reaches-Sound :
        (l n : Loop Message) → Reaches max_concurrency batch_size l n → Sound l → Sound n
    Reaches-Sound l n (here _) s = s
    Reaches-Sound l n (further _ k _ r t) s = Step-Sound k n t (Reaches-Sound l k r s)

    -- If the bound on tasks and the size of a batch are not 0, then in every state that the loop
    -- reaches it has at most `max_concurrency` tasks, every fetch asks for at least one message, for
    -- no more than a batch and no more than it has room for, and it has stopped only without tasks.
    pub started-Sound :
        (n : Loop Message) → Reaches max_concurrency batch_size (started Message) n → Sound n
    started-Sound n r = Reaches-Sound (started Message) n r (omega arith, tt)
