-- ===== src/Tests/Loops.antt =====
-- Runs of the loop of a worker that takes one message at a time.
use executor_service.Common.{◌≡◌, refl, false, String, List, [], ◌∷◌, arith}
use executor_service.Action.{ok}
use executor_service.Workers.Loop.{
  Phase, Loop, started, available, test, fetched, discard, tests, fetches, ends, drained, Reaches,
  here, further,
}
use executor_service.Workers.Loop.Bounds.{Sound, started-Sound}
use executor_service.Workers.Loop.Shutdown.{Ends, Reaches-Ends}

abbrev loop : Phase → List String → Loop String
loop phase tasks = record { phase = phase; tasks = tasks; stop_event = false }

-- It asks for a message, is given one, and waits for its task.
one_task : Reaches 1 2 (started String) (loop (Phase.waiting false) ("1-0" ∷ []))
unfolding test fetched available
one_task =
    further _ _ _
      (further _ _ _ (further _ _ _ (here (started String)) (tests (started String) refl))
        (fetches (loop (Phase.fetching 1) []) 1 (ok ("1-0" ∷ [])) refl (omega arith)))
      (tests (loop Phase.testing ("1-0" ∷ [])) refl)

started-Sound_example : Sound 1 2 (loop (Phase.waiting false) ("1-0" ∷ []))
started-Sound_example =
    started-Sound 1 2 (omega arith) (omega arith) (loop (Phase.waiting false) ("1-0" ∷ [])) one_task

-- The last task ends, and the loop stops.
drains : Reaches 1 2 (loop Phase.draining ("1-0" ∷ [])) (loop Phase.stopped [])
unfolding discard
drains =
    further _ _ _
      (further _ _ _ (here (loop Phase.draining ("1-0" ∷ [])))
        (ends (loop Phase.draining ("1-0" ∷ [])) [] [] "1-0" refl))
      (drained (loop Phase.draining []) refl refl)

Reaches-Ends_example : Ends 1 2 (λ id. id ≡ "1-0") (loop Phase.stopped [])
Reaches-Ends_example =
    Reaches-Ends 1 2 (λ id. id ≡ "1-0") (loop Phase.draining ("1-0" ∷ [])) (loop Phase.stopped [])
      drains (refl, (refl, tt))
