-- ===== src/Workers/Execution/Requests.antt =====
-- The worker whose runner is JupyterExecutionRunner, and the frames that it puts on the wire.
use executor_service.Common.{ℕ, ◌≡◌, String, List, ◌++◌}
use executor_service.Action.Triple.{Keeps}
use executor_service.Schemas.Command.{ExecutionCommand}
use executor_service.Schemas.Callback.{ExecutionCallback}
use executor_service.Platform.{Keys}
use executor_service.Repository.{RedisExecutionRepository}
use executor_service.Repository.Store.{Holds}
use executor_service.Repository.Aside.{Aside}
use executor_service.Runtime.Frames.{Frame}
use executor_service.Runtime.Runner.{Channels}
use executor_service.Runtime.Runner.Sessions.{Calls, open_session-Keeps, close-Keeps}
use executor_service.Runtime.Runner.Wire.{Wire}
use executor_service.Runtime.Runner.Requests.{IsRequest, run-Added}
use executor_service.Runtime.Runner.Implements.{jupyter_runner}
use executor_service.Services.Execution.Progress.{IsSubmitted}
use executor_service.Services.Execution.Recorder.{InOrder}
use executor_service.Services.Processor.{ExecutionProcessor}
use executor_service.Services.Processor.Sends.{ProcessorRecorder}
use executor_service.Workers.Execution.Redelivery.{process_all, process_all-InOrder}

module _ (r : RedisExecutionRepository) (processor : ExecutionProcessor r)
    (channels : Channels r) where
  open processor use {execution_service, callback_service, jupyter_client}

  -- The processor as main.py makes it: the runner has the client of the processor.
  abbrev pub on_jupyter : ExecutionProcessor r
  on_jupyter = record processor {
    execution_service = record execution_service {
      runner = jupyter_runner r jupyter_client channels;
    };
  }

  -- A record of the frames that were transmitted. `transmit` adds its frame to it; the commands of
  -- Redis, the REST calls, the other calls of websockets, the agent and a pause add nothing.
  pub record ProcessorWire : Type 1 where
    pub wire : Wire r jupyter_client channels
    pub open wire use {transmitted}
    pub aside : (l : List Frame) → Aside r (λ w. transmitted w ≡ l)
    pub calls_aside : (l : List Frame) → Calls r jupyter_client channels (λ w. transmitted w ≡ l)
    pub get_kernel_aside :
        (path : String) (l : List Frame)
        → Keeps (λ w. transmitted w ≡ l) (jupyter_client.http_get path)
    pub post_aside :
        (url : String) (body : ExecutionCallback) (key : String) (l : List Frame)
        → Keeps (λ w. transmitted w ≡ l) (callback_service.client.http_post url body key)
    pub sleep_aside :
        (duration : ℕ) (l : List Frame)
        → Keeps (λ w. transmitted w ≡ l) (callback_service.sleep duration)

  module _ (given : ProcessorWire) where
    open given use {wire, transmitted}

    -- The frames are a record of what the runner sends.
    frames : ProcessorRecorder r on_jupyter
    unfolding jupyter_runner
    frames = record {
      recorder = record {
        Entry = Frame;
        IsRequest = IsRequest r jupyter_client channels;
        sent = transmitted;
        aside = given.aside;
        open_aside =
            λ i k l. open_session-Keeps r jupyter_client channels _ (given.calls_aside l) i k;
        close_aside = λ s x l. close-Keeps r jupyter_client channels _ (given.calls_aside l) s x;
        run_sends = λ cb s t l h. run-Added r jupyter_client channels wire cb s t l h;
      };
      get_kernel_aside = given.get_kernel_aside;
      post_aside = given.post_aside;
      sleep_aside = given.sleep_aside;
    }

    -- If Redis holds the state of an execution that was submitted and not started, then however often
    -- its message is delivered and however each processing ends, the frames that were transmitted
    -- to kernels since carry requests to run the code of some of the steps of the command, in the
    -- order of the command and one of each step at most.
    pub process_all-IsRequest :
        (command : ExecutionCommand) (base : Keys r.Payload) (ids : List String) (w : r.World)
        → Holds r command.execution_id base (IsSubmitted command.steps) w
        → (front : List Frame) × (transmitted (process_all r on_jupyter command ids w)
            ≡ transmitted w ++ front)
          × InOrder (IsRequest r jupyter_client channels) front command.steps
    unfolding frames
    process_all-IsRequest command base = process_all-InOrder r on_jupyter frames command base
