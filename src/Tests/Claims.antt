-- ===== src/Tests/Claims.antt =====
-- Pending messages of a stream in memory.
use executor_service.Common.{
  ℕ, ◌+◌, ◌≡◌, ◌↔◌, ◌≤◌, zero, suc, String, List, [], ◌∷◌, ◌++◌, some, length, take, arith,
}
use executor_service.Action.{ok, pure}
use executor_service.Clients.Stream.{Raw, Parsed, parse_messages, claim_stale, parse_messages_iff}
use executor_service.Clients.Reading.{
  Streams, parse_stream_response, messages_of, parse_stream_response-join,
}
use executor_service.Workers.Loop.{Fits}
use executor_service.Workers.Fetch.{Counts, fetch, fetch-Fits}
use executor_service.Services.Recovery.{
  Pending, fresh_pending, PendingRecoveryService, claim, claim-paced,
}
use executor_service.Tests.Memory.{command_json, Memory, redis}
use executor_service.Tests.Executions.{command, nothing}

abbrev raw : List (Raw redis)
raw = ("1-0", some (command_json command)) ∷ []

parse_messages_iff_example :
    (parse_messages redis raw ≡ ok (("1-0", command) ∷ []))
    ↔ Parsed redis raw (("1-0", command) ∷ [])
parse_messages_iff_example = parse_messages_iff redis raw (("1-0", command) ∷ [])

abbrev pub recovery : PendingRecoveryService redis
recovery = record {
  min_idle_ms = 60000;
  interval = 30;
  monotonic = λ w. (w.time, record w { time = w.time + 1 });
  xautoclaim = λ _ count _. pure (some ("0-0", take count raw));
}

abbrev at_time : ℕ → Memory
at_time t = record {
  keys = nothing;
  entries = [];
  frames = [];
  transmitted = [];
  sent = [];
  closed = [];
  slept = 0;
  time = t;
  runs = [];
  posts = [];
}

abbrev claimed : Pending
claimed = record { cursor = "0-0"; next_claim_at = 40 }

claim-paced_example : claim redis recovery 1 (claimed, at_time 20) ≡ (ok [], (claimed, at_time 21))
unfolding claim parse_messages claim_stale
claim-paced_example =
    claim-paced redis recovery 1 1 fresh_pending (at_time 10) (at_time 20) (omega arith)
      (omega arith)

abbrev streams : Streams redis
streams = record {
  redis_xadd = λ _ _. pure "1-0";
  redis_xreadgroup = λ _ _ _ count _. pure (("execution:commands", take count raw) ∷ []);
  xreadgroup_law = λ _ count _. record { at = λ w _. few count };
}
  where
    few : (count : ℕ) → length (take count raw ++ []) ≤ count
    few zero = omega arith
    few (suc zero) = omega arith
    few (suc (suc count)) = omega arith

abbrev two_streams : List (String × List (Raw redis))
two_streams = ("execution:commands", raw) ∷ ("others", raw) ∷ []

parse_stream_response-join_example :
    parse_stream_response redis two_streams ≡ parse_messages redis (messages_of redis two_streams)
parse_stream_response-join_example = parse_stream_response-join redis two_streams

counted : Counts redis recovery streams "worker-1" 5000
counted count cursor = record { at = λ w _. few count }
  where
    few : (count : ℕ) → length (take count raw) ≤ count
    few zero = omega arith
    few (suc zero) = omega arith
    few (suc (suc count)) = omega arith

fetch-Fits_example :
    Fits 4 1 1 (fetch redis recovery streams "worker-1" 5000 1 (fresh_pending, at_time 10)).0
fetch-Fits_example =
    fetch-Fits redis recovery streams "worker-1" 5000 4 1 1 (fresh_pending, at_time 10) counted
