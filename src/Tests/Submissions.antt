-- ===== src/Tests/Submissions.antt =====
-- Submissions of a command to a Redis in memory.
use executor_service.Common.{
  ℕ, ◌≡◌, refl, ap, ◌⊎◌, inl, inr, true, String, List, [], ◌∷◌, ◌++◌, Option, none, some, is_some,
}
use executor_service.Errors.{redis_error, duplicate_execution_error, describe}
use executor_service.Action.{Outcome, ok, raised, Action, raise, pure, ◌>>=◌, ◌except◌}
use executor_service.Action.Triple.{
  Triple, Post, Triple-except, Triple-bind, Triple-pure, Triple-raise,
}
use executor_service.Platform.{Keys, put}
use executor_service.Clients.Scripts
use executor_service.Clients.Scripts.{Scripting, Stands}
use executor_service.Repository.{utc_now, key}
use executor_service.Schemas.State.{ExecutionState}
use executor_service.Services.Submission.{submit, Accepted, NotAccepted, submit-Accepted}
use executor_service.Api.Executions.{submit_execution, Queued, Rejected, submit_execution-Queued}
use executor_service.Workers.Execution.Submitted.{Dealt, submit-Dealt}
use executor_service.Tests.Successes.{good_processor, reliable, smooth, responsive}
use executor_service.Tests.Memory.{Json, command_json, Memory, redis, repository}
use executor_service.Tests.Executions.{validated, command, nothing}

abbrev count : Option Json → ℕ
count none = 0
count (some j) = 1

abbrev exists : String → Action Memory ℕ
exists k w = (ok (count (w.keys k)), w)

abbrev run : {A : Type 0} → Action Memory A → Action Memory (Option A)
run script = do result ← script except (λ x. raise (redis_error (describe x))); pure (some result)

exists_law :
    (k : String) (m : Keys Json) (e : List (String × Json))
    → Triple
        (Stands redis (λ w. w.entries) m e)
        (exists k)
        (λ n w.
          (((n ≡ 1) × (is_some (m k) ≡ true)) ⊎ ((n ≡ 0) × (m k ≡ none)))
          × Stands redis (λ w. w.entries) m e w)
        (λ _. Stands redis (λ w. w.entries) m e)
exists_law k m e = record { at = λ w p. (rw (ap (λ (f : Keys Json). f k) p.0) (by_value (m k)), p) }
  where
    by_value :
        (v : Option Json) → ((count v ≡ 1) × (is_some v ≡ true)) ⊎ ((count v ≡ 0) × (v ≡ none))
    by_value none = inr (refl, refl)
    by_value (some j) = inl (refl, refl)

abbrev scripting : Scripting redis
scripting = record {
  entries = λ w. w.entries;
  call_exists = exists;
  call_set = λ k v w. (ok tt, record w { keys = put k v w.keys });
  call_xadd = λ _ v w. (ok "1-0", record w { entries = w.entries ++ (("1-0", v) ∷ []) });
  eval = run;
  entries-clock = λ w. refl;
  exists_law = exists_law;
  call_set_law = λ k v m e. record { at = λ w p. (ap (put k v) p.0, p.1) };
  xadd_law = λ v m e. record { at = λ w p. (p.0, ap (λ l. l ++ (("1-0", v) ∷ [])) p.1) };
  eval_law = λ t.
      Triple-bind (Triple-except t (λ x. Triple-raise _ (λ w p. (refl, inr (inl (x, p))))))
        (λ a. Triple-pure (some a) (λ w q. (a, refl, q)));
}

abbrev empty_redis : Memory
empty_redis = record {
  keys = nothing;
  entries = [];
  frames = [];
  transmitted = [];
  sent = [];
  closed = [];
  slept = 0;
  time = 10;
  runs = [];
  posts = [];
}

submit-Accepted_example :
    Post
      (Accepted repository scripting command nothing [])
      (NotAccepted repository scripting command nothing [])
      (submit repository scripting command empty_redis)
submit-Accepted_example =
    submit-Accepted repository scripting command nothing [] empty_redis (refl, refl)

-- The state and the length of the stream after two submissions.
abbrev second : Outcome ExecutionState × Memory
second = submit repository scripting command (submit repository scripting command empty_redis).1

submitted_once :
    ◌≡◌ {A = Outcome ExecutionState × List (String × Json)}
      (second.0, second.1.entries)
      (raised (duplicate_execution_error "exec-001"), ("1-0", command_json command) ∷ [])
unfolding submit Scripts.submit Scripts.submit_script Scripts.read_result utc_now key
submitted_once = refl

submit_execution-Queued_example :
    Post
      (Queued repository scripting command nothing [])
      (Rejected repository scripting command nothing [])
      (submit_execution repository scripting command empty_redis)
submit_execution-Queued_example =
    submit_execution-Queued repository scripting command nothing [] empty_redis (refl, refl)

submit-Dealt_example :
    Post
      (λ _.
        Dealt repository scripting good_processor reliable smooth responsive "1-0" command command
          validated nothing [])
      (λ _ _. Unit {0})
      (submit repository scripting command empty_redis)
submit-Dealt_example =
    submit-Dealt repository scripting good_processor reliable smooth responsive "1-0" command
      command validated nothing [] empty_redis (refl, refl)
