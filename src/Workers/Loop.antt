-- ===== src/Workers/Loop.antt =====
-- workers/execution.py: ExecutionWorker.run as a state machine. Between two awaits the loop is one
-- step; the tasks that it has started end at any time, and `stop` may be called at any time. A
-- cancellation that comes while the loop is draining is left out.
pub mod Bounds
pub mod Shutdown
use executor_service.Common.{
  ℕ, zero, suc, ◌+◌, ◌-◌, ◌≤◌, ◌<◌, ◌≡◌, refl, ◌⊎◌, inl, inr, Bool, true, false, not, String, List,
  [], ◌∷◌, ◌++◌, arith, ltb, leb, length, length-append, if◌then◌else◌, Bool-cases,
}
use executor_service.Errors.{Error, is_infrastructure}
use executor_service.Action.{Outcome, ok, raised}

-- Where the coroutine stands: at the test of the loop, in `_wait_for_available_slot` (with whether
-- a task has ended since), at the calls that fetch that many messages, in `sleep(1)`, in
-- `_wait_for_running_tasks`, or past its end.
pub data Phase : Type 0 where
  testing : Phase
  waiting : Bool → Phase
  fetching : ℕ → Phase
  sleeping : Phase
  draining : Phase
  stopped : Phase

abbrev noted : Phase → Phase
noted (Phase.waiting _) = Phase.waiting true
noted p = p

-- `asyncio.wait` and `asyncio.sleep`, where a cancellation may come.
abbrev pub is_pause : Phase → Bool
is_pause (Phase.waiting _) = true
is_pause Phase.sleeping = true
is_pause _ = false

module _ (Message : Type 0) where
  pub record Loop : Type 0 where
    pub phase : Phase
    pub tasks : List Message
    pub stop_event : Bool

  abbrev pub started : Loop
  started = record { phase = Phase.testing; tasks = []; stop_event = false }

module _ {Message : Type 0} (max_concurrency batch_size : ℕ) where
  -- `min(self.batch_size, self.max_concurrency - len(self._tasks))`
  unfoldable pub available : Loop Message → ℕ
  available l =
      let free = max_concurrency - length l.tasks in
      if leb batch_size free then batch_size else free

  -- `while not self._stop_event.is_set()`, and `_wait_for_available_slot` up to its `wait`.
  unfoldable pub test : Loop Message → Loop Message
  unfolding available
  test l =
      if l.stop_event
      then record l { phase = Phase.draining }
      else if ltb (length l.tasks) max_concurrency
      then record l { phase = Phase.fetching (available l) }
      else record l { phase = Phase.waiting false }

  -- After the `wait`.
  unfoldable pub resume : Loop Message → Loop Message
  unfolding available
  resume l = record l { phase = Phase.fetching (available l) }

  -- What `claim` and `consume` gave, or what they raised.
  unfoldable pub fetched : Outcome (List Message) → Loop Message → Loop Message
  fetched (ok messages) l = record l { phase = Phase.testing; tasks = l.tasks ++ messages }
  fetched (raised x) l =
      if is_infrastructure x
      then record l { phase = Phase.sleeping }
      else record l { phase = Phase.draining }

  -- A task ends, and its callback discards it.
  unfoldable pub discard : List Message → List Message → Loop Message → Loop Message
  discard before after l = record l { phase = noted l.phase; tasks = before ++ after }

  -- A fetch gives at most the messages it asked for.
  abbrev pub Fits : ℕ → Outcome (List Message) → Type 0
  Fits count (ok messages) = length messages ≤ count
  Fits count (raised x) = Unit {0}

  pub data Step : Loop Message → Loop Message → Type 0 where
    tests : (l : Loop Message) → l.phase ≡ Phase.testing → Step l (test l)
    resumes : (l : Loop Message) → l.phase ≡ Phase.waiting true → Step l (resume l)
    fetches :
        (l : Loop Message) (count : ℕ) (reply : Outcome (List Message))
        → l.phase ≡ Phase.fetching count
        → Fits count reply
        → Step l (fetched reply l)
    wakes :
        (l : Loop Message) → l.phase ≡ Phase.sleeping → Step l (record l { phase = Phase.testing })
    ends :
        (l : Loop Message) (before after : List Message) (m : Message)
        → l.tasks ≡ before ++ (m ∷ after)
        → Step l (discard before after l)
    drained :
        (l : Loop Message)
        → l.phase ≡ Phase.draining
        → l.tasks ≡ []
        → Step l (record l { phase = Phase.stopped })
    cancels :
        (l : Loop Message) → is_pause l.phase ≡ true → Step l (record l { phase = Phase.draining })
    stops : (l : Loop Message) → Step l (record l { stop_event = true })

  pub data Reaches : Loop Message → Loop Message → Type 0 where
    here : (l : Loop Message) → Reaches l l
    further : (l k n : Loop Message) → Reaches l k → Step k n → Reaches l n
