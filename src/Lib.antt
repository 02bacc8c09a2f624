-- ===== src/Lib.antt =====
-- executor-service takes commands, lists of Python steps, over HTTP, queues them in a Redis stream,
-- runs each on a Jupyter kernel of its own, keeps its state in Redis, and reports the end to the agent
-- that asked. This library models src/executor.
--
-- How the parts work together. SubmissionService stores the first state and queues the command in one
-- Lua script. ExecutionWorker.run fetches messages while it has slots and starts a task for each;
-- _process_message hands the command to ExecutionProcessor.execute, which runs it by ExecutionService,
-- or looks after an execution that another worker left running, and then delivers the callback by
-- CallbackService; only after that is the message acknowledged. ExecutionService opens a session of
-- JupyterExecutionRunner and runs the steps on it; JupyterMessageCollector gathers the messages of
-- each. RedisExecutionRepository holds the state between all of them.
--
-- The files, with the sources they model (their paths start with src/executor/):
--   Errors                 exceptions/execution.py, and the exceptions of third parties by name
--   Action, Action/*       coroutines: a world in, a result or an exception and a world out; their
--                          Hoare triples; chains of calls that touch no state (Outcomes)
--   Schemas/*              schemas/command.py, state.py, callback.py, with the values of dict[str, Any]
--   Platform               the clock, Redis and pydantic's JSON, as parameters with laws
--   Action/Timeouts        asyncio.timeout
--   Clients/Redis, Scripts clients/redis.py: get, set, acknowledge; the submission and its script
--   Clients/Stream         clients/redis.py: claim_stale and the parsing of messages
--   Clients/Reading        clients/redis.py: publish, consume and the parsing of a reply
--   Clients/Lifecycle      clients/redis.py: initialize, ping and close
--   Clients/Agent          clients/agent.py
--   Clients/Jupyter        clients/jupyter.py, the REST calls
--   Repository, */Transitions, */Store, */Methods
--                          repositories/redis_execution.py: what each method does to the state, and
--                          what it leaves in the store
--   Repository/Aside, Services/Callback/Keeps, Services/Processor/Sends, Workers/Execution/Redelivery
--                          statements about the world that Redis has no part in, from the methods of
--                          the repository up to the deliveries of one message; process_all is a
--                          sequence of such deliveries. Services/Execution/Recorder is what a runner
--                          is asked for there, and Workers/Execution/Requests fills it with the
--                          runner of the application
--   Runtime/Frames         runtime/runner.py, the encoding and decoding of frames
--   Runtime/Collector      runtime/collector.py
--   Runtime/Runner         runtime/runner.py, the two runner classes; Implements fills the
--                          protocol of ExecutionService with them. Sessions follows the opening and
--                          the closing, Wire, Requests and Transmits the frames that are sent, Hears,
--                          Received and Answers those that come back, Fails the v1 form
--   Services/Execution     services/execution.py; Runner is the protocol it asks for; Progress says how
--                          far an execution is, and of the other files those in -ing follow one step
--                          or the loop, for the file that follows the whole
--   Services/Callback      services/callback.py; Pauses follows the time that it sleeps
--   Services/Processor     services/processor.py
--   Repository/Reliable, Services/Execution/Succeeds, Services/Callback/Finishes,
--   Services/Processor/Completes, Workers/Execution/Completes, Workers/Execution/Submitted
--                          the methods, the services and the worker, from the submission on, where
--                          the calls that they make return
--   Services/Submission    services/submission.py
--   Services/Recovery      services/recovery.py
--   Workers/Execution      workers/execution.py, _process_message
--   Workers/Loop           workers/execution.py, run as steps of a state machine
--   Workers/Fetch          workers/execution.py, the calls of run that fetch messages
--   Api/Executions         api/executions.py
--   Api/Health             api/health.py
--   Config                 config/settings.py
--   Main                   main.py, the name of the consumer and the lifespan; Closes and Leaks follow the
--                          clients that it closes, Wiring makes the parts of the settings
--   Tests/*                services in memory, runs at concrete inputs
--
-- Conventions. An `async` function is an action of the world; an exception keeps what was changed
-- before it. A duration in the settings is a number of microseconds. Two coroutines of one
-- execution do not interleave: the code relies on one worker per execution, and the laws of
-- Platform say so. What is not code of this repository (Redis, httpx, websockets, jupyter_client,
-- pydantic, str of a value) is a record field with named laws, and the tests fill each in. A time
-- is a natural number. Loops are structural recursion on the list they go over; the callback's
-- loop counts the attempts left; the loop that receives frames counts the frames that still come
-- before the timeout, and a count that has run out is the timeout itself. The worker's loop has no
-- end, and is a relation between states.
--
-- Not modelled: the making of the FastAPI application; the configuration of logging; and the URL of the
-- WebSocket.
pub mod Common
pub mod Errors
pub mod Action
pub mod Schemas
pub mod Platform
pub mod Clients
pub mod Repository
pub mod Runtime
pub mod Services
pub mod Workers
pub mod Api
pub mod Config
pub mod Main
mod Tests
