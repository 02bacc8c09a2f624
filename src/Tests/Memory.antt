-- ===== src/Tests/Memory.antt =====
-- Services in memory, which meet what the development asks of the real ones: a Redis that always
-- answers, a kernel server, an agent and a runner whose answers are given in advance.
use executor_service.Common.{
  ℕ, ◌+◌, ◌≡◌, refl, ap, ◌⊎◌, is_some, ◌&&◌, Bool, true, false, String, List, [], ◌∷◌, ◌++◌, Option,
  none, some, if◌then◌else◌,
}
use executor_service.Errors.{http_error}
use executor_service.Action.{Outcome, ok, raised, Action, pure, ◌>>◌}
use executor_service.Action.Triple.{Triple, Post, Triple-pure, Triple-bind}
use executor_service.Schemas.Value.{dict_value, Fields, empty}
use executor_service.Schemas.Command.{ExecutionCommand}
use executor_service.Schemas.State.{ExecutionState}
use executor_service.Platform.{Platform, Keys, put}
use executor_service.Clients.Redis.{RedisStreamClient}
use executor_service.Clients.Agent.{AgentCallbackClient}
use executor_service.Clients.Jupyter.{JupyterServerClient, Response}
use executor_service.Repository.{RedisExecutionRepository}
use executor_service.Runtime.Frames.{Frame}
use executor_service.Main.Closes.{Client, jupyter_client, callback_client}
use executor_service.Services.Execution.{ExecutionService}
use executor_service.Services.Execution.Runner.{ExecutionRunner}
use executor_service.Services.Callback.{CallbackService}
use executor_service.Services.Processor.{ExecutionProcessor}

-- A JSON text is what it was dumped from.
pub data Json : Type 0 where
  state_json : ExecutionState → Json
  command_json : ExecutionCommand → Json

-- What the server holds, its stream, the frames that the kernel sends, those that it was sent, the
-- steps that were run on it, the clients that were closed, how long it was slept, the time, and how the next runs and the next posts end.
pub record Memory : Type 0 where
  pub keys : Keys Json
  pub entries : List (String × Json)
  pub frames : List Frame
  pub transmitted : List Frame
  pub sent : List String
  pub closed : List Client
  pub slept : ℕ
  pub time : ℕ
  pub runs : List (Outcome Fields)
  pub posts : List (Outcome (Unit {0}))

abbrev state_of : Json → Option ExecutionState
state_of (state_json s) = some s
state_of (command_json c) = none

abbrev command_of : Json → Option ExecutionCommand
command_of (state_json s) = none
command_of (command_json c) = some c

abbrev memory_clock : Memory → ℕ × Memory
memory_clock w = (w.time, record w { time = w.time + 1 })

abbrev memory_get : String → Action Memory (Option Json)
memory_get k w = (ok (w.keys k), w)

abbrev memory_set : String → Json → Bool → Action Memory (Option Bool)
memory_set k v nx w =
    if nx && is_some (w.keys k)
    then (ok none, w)
    else (ok (some true), record w { keys = put k v w.keys })

pub get_law :
    (k : String) (m : Keys Json)
    → Triple (λ w. w.keys ≡ m) (memory_get k) (λ v w. (v ≡ m k) × (w.keys ≡ m)) (λ _ w. w.keys ≡ m)
get_law k m = record { at = λ w e. (ap (λ (f : Keys Json). f k) e, e) }

pub set_law :
    (k : String) (v : Json) (m : Keys Json)
    → Triple
        (λ w. w.keys ≡ m)
        (memory_set k v false)
        (λ _ w. w.keys ≡ put k v m)
        (λ _ w. (w.keys ≡ m) ⊎ (w.keys ≡ put k v m))
set_law k v m = record { at = λ w e. ap (put k v) e }

pub xack_law :
    (m : Keys Json)
    → Triple (λ (w : Memory). w.keys ≡ m) (pure {A = ℕ} 1) (λ _ w. w.keys ≡ m) (λ _ w. w.keys ≡ m)
xack_law m = Triple-pure 1 (λ w e. e)

abbrev pub memory : Platform
memory = record {
  World = Memory;
  Payload = Json;
  dump_state = state_json;
  validate_state = state_of;
  dump_command = command_json;
  validate_command = command_of;
  validate-dump_state = λ s. refl;
  clock = memory_clock;
  redis_get = memory_get;
  redis_set = memory_set;
  redis_xack = λ _ _ _. pure 1;
  stored = λ w. w.keys;
  stored-clock = λ w. refl;
  get_law = get_law;
  set_law = set_law;
  xack_law = λ _ _ _ m. xack_law m;
}

abbrev pub redis : RedisStreamClient
redis = record {
  platform = memory;
  stream_name = "execution:commands";
  group_name = "execution-workers";
}

abbrev pub repository : RedisExecutionRepository
repository = record { redis_client = redis; key_prefix = "execution" }

-- How the next of a list of outcomes ends.
abbrev pub next_of : {A : Type 0} → List (Outcome A) → Outcome A → Outcome A
next_of [] d = d
next_of (r ∷ rs) d = r

abbrev pub rest_of : {A : Type 0} → List (Outcome A) → List (Outcome A)
rest_of [] = []
rest_of (r ∷ rs) = rs

-- The step is sent, and ends as was given in advance.
abbrev pub next_run : String → Action Memory Fields
next_run id w =
    (next_of w.runs (ok empty), record w { runs = rest_of w.runs; sent = w.sent ++ (id ∷ []) })

abbrev pub next_post : Action Memory (Unit {0})
next_post w = (next_of w.posts (ok tt), record w { posts = rest_of w.posts })

module _ {A : Type 0} (F : Keys Json → Type 0) where
  ended :
      (o : Outcome A) (w : Memory)
      → F w.keys
      → Post (λ _ (v : Memory). F v.keys) (λ _ v. F v.keys) (o, w)
  ended (ok a) w f = f
  ended (raised x) w f = f

  pub kept :
      (o : Memory → Outcome A) (next : Memory → Memory)
      → ((w : Memory) → (next w).keys ≡ w.keys)
      → Triple (λ (w : Memory). F w.keys) (λ w. (o w, next w)) (λ _ w. F w.keys) (λ _ w. F w.keys)
  kept o next same = record { at = λ w f. ended (o w) (next w) (rw same f) }

pub run_law :
    (id : String) (P : Keys Json → Type 0) (on_request_started : String → Action Memory (Unit {0}))
    → ((message_id : String)
        → Triple
            (λ (w : Memory). P w.keys)
            (on_request_started message_id)
            (λ _ w. P w.keys)
            (λ _ w. P w.keys))
    → Triple
        (λ (w : Memory). P w.keys)
        (do on_request_started "request-1"; next_run id)
        (λ _ w. P w.keys)
        (λ _ w. P w.keys)
run_law id P cb t = Triple-bind (t "request-1") (λ _.
    kept P (λ w. next_of w.runs (ok empty))
      (λ w. record w { runs = rest_of w.runs; sent = w.sent ++ (id ∷ []) }) (λ w. refl))

abbrev pub runner : ExecutionRunner repository
runner = record {
  Session = Unit {0};
  session_info =
      λ _. record { session_id = "session-1"; kernel_id = "kernel-1"; target = "http://jupyter" };
  open_session = λ _ _. pure tt;
  run = λ cb _ step. (do cb "request-1"; next_run step.step_id);
  close = λ _ _. pure tt;
  open_session_law = λ _ _ m. Triple-pure tt (λ w e. e);
  run_law = λ P cb _ step t. run_law step.step_id P cb t;
  close_law = λ _ _ m. Triple-pure tt (λ w e. e);
}

abbrev pub service : ExecutionService repository
service = record {
  runner = runner;
  kernel_name_resolver = λ _. "analysis-env";
  executor_id = "worker-1";
}

abbrev pub closing : Client → Action Memory (Unit {0})
closing client w = (ok tt, record w { closed = w.closed ++ (client ∷ []) })

abbrev pub agent : AgentCallbackClient repository
agent = record {
  http_post = λ _ _ _. next_post;
  aclose = closing callback_client;
  http_post_law = λ _ _ _ m.
      kept (λ k. k ≡ m) (λ w. next_of w.posts (ok tt)) (λ w. record w { posts = rest_of w.posts })
        (λ w. refl);
}

abbrev pub callback_service : CallbackService repository
callback_service = record {
  client = agent;
  max_attempts = 3;
  backoff = 1;
  uuid5 = λ name. name;
  sleep = λ duration w. (ok tt, record w { slept = w.slept + duration });
  sleep_law = λ _ m. record { at = λ w e. e };
}

-- Every kernel is gone.
abbrev gone : Response
gone = record {
  status_code = 404;
  raise_for_status = raised (http_error "404");
  json = ok (dict_value empty);
}

abbrev pub jupyter : JupyterServerClient repository
jupyter = record {
  aclose = closing jupyter_client;
  http_get = λ _. pure gone;
  http_post = λ _. pure gone;
  http_delete = λ _. pure gone;
  http_post_json = λ _ _. pure gone;
  http_get_law = λ _ m. Triple-pure gone (λ w e. e);
  http_post_law = λ _ m. Triple-pure gone (λ w e. e);
  http_delete_law = λ _ m. Triple-pure gone (λ w e. e);
  http_post_json_law = λ _ _ m. Triple-pure gone (λ w e. e);
  base_url = "http://jupyter";
  str = λ _. "id";
}

abbrev pub processor : ExecutionProcessor repository
processor = record {
  execution_service = service;
  callback_service = callback_service;
  jupyter_client = jupyter;
}
