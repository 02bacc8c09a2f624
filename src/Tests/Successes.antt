-- ===== src/Tests/Successes.antt =====
-- A command whose steps succeed, and an agent that refuses its callback.
use executor_service.Common.{
  ℕ, ◌≤◌, ◌≡◌, refl, String, Bool, true, false, ◌&&◌, is_some, Option, none, some, [],
  if◌then◌else◌, arith,
}
use executor_service.Action.{ok, pure, raise, ◌>>◌}
use executor_service.Action.Triple.{Triple, Post, Triple-pure, Triple-raise, Triple-bind}
use executor_service.Schemas.Value.{empty}
use executor_service.Errors.{http_error}
use executor_service.Repository.Store.{Now}
use executor_service.Repository.Transitions.{build_initial_state}
use executor_service.Repository.Reliable.{Reliable}
use executor_service.Services.Execution
use executor_service.Services.Execution.{ExecutionService}
use executor_service.Services.Execution.Runner.{ExecutionRunner}
use executor_service.Services.Execution.Stepping.{Smooth}
use executor_service.Services.Execution.Succeeds.{HasSucceeded, execute-succeeds}
use executor_service.Services.Callback.{CallbackService, deliver}
use executor_service.Services.Callback.Concludes.{Reported}
use executor_service.Services.Callback.Sleeping.{Pausing}
use executor_service.Services.Callback.Pauses.{deliver-bounded}
use executor_service.Platform.{put}
use executor_service.Services.Callback.Finishes.{Responsive, deliver-finishes}
use executor_service.Services.Processor
use executor_service.Services.Processor.{ExecutionProcessor}
use executor_service.Workers.Execution.Completes.{Completed, process_message_completes}
use executor_service.Tests.Memory.{
  Json, Memory, repository, runner, service, agent, callback_service, processor,
}
use executor_service.Tests.Executions.{
  command, nothing, id, initial, initial-id, initial-IsSubmitted, world, stored-At, ended,
}

-- Each step returns once its request is recorded.
abbrev pub good_runner : ExecutionRunner repository
good_runner = record runner {
  run = λ cb _ step. (do cb "request-1"; pure empty);
  run_law = λ P cb _ step t. Triple-bind (t "request-1") (λ _. Triple-pure empty (λ w p. p));
}

abbrev pub good_service : ExecutionService repository
good_service = record service { runner = good_runner }

abbrev pub reliable : Reliable repository
reliable = record {
  get_returns = λ k. record { at = λ w _. tt };
  set_returns = λ k v. record { at = λ w _. tt };
}

abbrev pub smooth : Smooth repository good_runner
smooth = record {
  open_returns = λ i k. Triple-pure tt (λ w _. tt);
  close_returns = λ session. Triple-pure tt (λ w _. tt);
  run_returns =
      λ P cb session step t. Triple-bind (t "request-1") (λ _. Triple-pure empty (λ w _. tt));
}

execute-succeeds_example :
    Post
      (Now repository id nothing HasSucceeded)
      (λ _ _. ⊥)
      (Execution.execute repository good_service command (world initial [] []))
execute-succeeds_example =
    execute-succeeds repository good_service reliable smooth command nothing (world initial [] [])
      (initial, stored-At initial [] [] initial-id initial-IsSubmitted)

-- An agent that refuses every post.
abbrev pub refusing : CallbackService repository
refusing = record callback_service {
  client = record agent {
    http_post = λ _ _ _. raise (http_error "503");
    http_post_law = λ _ _ _ m. Triple-raise (http_error "503") (λ w e. e);
  };
}

abbrev pub responsive : Responsive repository refusing
responsive = record {
  sleep_returns = λ _. record { at = λ w _. tt };
  post_answers = λ _ _ _. Triple-raise (http_error "503") (λ w _. refl);
}

deliver-finishes_example :
    Post
      (Now repository ended.execution_id nothing (Reported repository refusing ended nothing))
      (λ _ _. ⊥)
      (deliver repository refusing ended (world ended [] []))
unfolding build_initial_state
deliver-finishes_example =
    deliver-finishes repository refusing reliable responsive nothing ended (world ended [] [])
      (refl, refl) (stored-At ended [] [] initial-id refl)

abbrev pub good_processor : ExecutionProcessor repository
good_processor = record processor { execution_service = good_service; callback_service = refusing }

process_message_completes_example :
    Post
      (Completed repository good_processor reliable smooth responsive "1-0" command nothing
        (world initial [] []))
      (λ _ _. ⊥)
      (Processor.execute repository good_processor command (world initial [] []))
process_message_completes_example =
    process_message_completes repository good_processor reliable smooth responsive "1-0" command
      nothing (world initial [] [])
      (initial, stored-At initial [] [] initial-id initial-IsSubmitted)

stored-slept :
    (n : ℕ) (b : Bool) (k : String) (v : Json) (w : Memory)
    → w.slept ≡ n
    → Post {W = Memory} {A = Option Bool}
        (λ _ w. w.slept ≡ n)
        (λ _ w. w.slept ≡ n)
        (if b then (ok none, w) else (ok (some true), record w { keys = put k v w.keys }))
stored-slept n true k v w e = e
stored-slept n false k v w e = e

abbrev pausing : Pausing repository refusing
pausing = record {
  paused = λ w. w.slept;
  sleep_adds = λ duration n. record { at = λ w e. let h = e in omega (arith, h) };
  redis_aside = λ n. record {
    get_aside = λ k. record { at = λ w e. e };
    set_aside = λ k v nx. record { at = λ w e. stored-slept n (nx && is_some (w.keys k)) k v w e };
    xack_aside = λ s g i. Triple-pure 1 (λ w e. e);
    clock_aside = λ w e. e;
  };
  post_aside = λ _ _ _ n. Triple-raise (http_error "503") (λ w e. e);
}

-- Two pauses, of one second and of two.
deliver-bounded_example :
    Triple
      (λ (w : Memory). w.slept ≡ 0)
      (deliver repository refusing ended)
      (λ _ w. w.slept ≤ 3)
      (λ _ w. w.slept ≤ 3)
deliver-bounded_example = deliver-bounded repository refusing pausing ended 0 (omega arith)
