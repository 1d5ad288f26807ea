-- ===== src/Lib.antt =====
-- A model of the worker runtime of dogqoder (src/qworker), with the theorems that make its core
-- correct.
--
-- The program supervises workers: an auditor or a coder runs in a workspace, its transport emits
-- events, a reducer folds them into one result, and a store keeps each worker's row, its attempts
-- and its events in SQLite. The parts modelled, and where:
--
--   Lifecycle       src/qworker/lifecycle.py: states, `_TRANSITIONS`, `WorkerStateReducer`. Reach has
--                   the diagram as a step relation.
--   Patterns, Payload, Events
--                   src/qworker/store.py: the regular expressions, the validators, `_EVENT_SCHEMAS`
--                   and `_validated_payload`. Regex is a backtracking matcher for the constructs of
--                   Python's `re` that the patterns use, Chars its character classes, Json the
--                   values. Events/Validation says what an accepted payload guarantees.
--   Store           src/qworker/store.py: the tables as lists of rows (Db), `_append_event`
--                   (append_row); Project is `_project_event`; Operations is `create_worker`,
--                   `start_attempt` and `append_event`; Approvals is `record_approval_request`,
--                   `record_approval_resolution` and `expire_approval_requests`; Queries is
--                   `get_worker`, `list_workers`, `latest_event_cursor` and `events_since`. A write is
--                   a function from tables to a result with tables, and `commit` keeps or discards
--                   them. Effects, Sequence, Consistency, Invariant, StateChange, Projection,
--                   Soundness, Insertion, Results and ApprovalSoundness carry the invariant through each step,
--                   History through sequences of calls; Lifetimes and Replay draw consequences, and
--                   Logging says what an appended event leaves.
--                   Results is `record_result`, and Redaction `_safe_result_summary` with what it
--                   calls; Redaction/Keys, Budget and Summary bound what it returns.
--   Workspace       src/qworker/workspace.py over a file system that is a parameter; Answers says when
--                   each answer is given.
--   Ulid            `_new_ulid` of src/qworker/store.py, which `new_request_id` of
--                   src/qworker/control.py repeats.
--   Supervisor      src/qworker/supervisor.py: the state (Sup) and the monad of its methods. Spawn is
--                   `spawn`, Resume `resume`, `status`, `list_workers` and `result`; Steering `steer`
--                   and `cancel_message`; Approvals the callbacks' requests and Responding `respond`; Finish what
--                   `_run_worker` does at the start and the end of a session; Stop `stop`, its
--                   operation and `close`; Watch `watch`; Views the JSON that they return. Refinement,
--                   Calls, Ending, Starting and Stopping show how methods use the store, Sessions puts
--                   them in sequence, Following is about watchers, Answers about `respond`, Messages
--                   about `steer` and Ends about sessions that end without a result.
--   Preflight       src/qworker/preflight.py over a backend that is a parameter; Run is the order of
--                   the checks, and Verdict says when they pass and what is shown.
--   Rpc             src/qworker/rpc.py: Fields has the readers of parameters, Requests the frames, Size
--                   their length, Dispatch `_dispatch`, Report and Server `_handle_connection`, Stream
--                   `_stream_watch`, Client `call`, `watch` and `_validated_response`. A frame is the
--                   object on its line, and `json.loads` reads what `json.dumps` wrote. Exchange,
--                   Streaming and Watching put client and server together, Parameters describes what
--                   each method takes, with Readers, Accepts and Calls about it, Bounds that the limits
--                   fit together.
--   Coder           src/qworker/coder.py: the report parser and the reducer.
--   Foreground      the sessions of src/qworker/auditor.py and src/qworker/coder.py: `_consume_result` and `run`
--                   over an Engine that Engines fills for both roles, with what the transport of
--                   src/qworker/transport.py does as an argument; Prompts is `_render_prompt` of both.
--                   Reading says what is read and how that ends, Closing which calls are made,
--                   and Outcome what a good result tells.
--   Config          src/qworker/config.py over decoded TOML documents; Loading is `load_config`, and
--                   Narrowing says what a project's overlay can change.
--   Control         src/qworker/control.py: Responses says which responses are taken, Schema which schemas,
--                   and Display is `approval_display`; the validation of content by a package is a
--                   parameter.
--   Domain          src/qworker/domain.py and src/qworker/events.py.
--   AuditReport     src/qworker/audit_report.py: the parser of reports; Describe says what a report is
--                   without the parser, Exact that the two agree, Fence is the text before JSON, and
--                   Capture is `AuditReportCapture`.
--   Reducer         src/qworker/reducer.py: `ResultReducer`, one function per method.
--   ModelPolicy, AuditorPolicy
--                   src/qworker/model_policy.py and src/qworker/auditor_policy.py.
--   Tables, Result, Prelude
--                   the SQL statements used, exceptions as results, and what all parts share.
--   Examples        runs of the code, and the tests PatternTests.
--
-- Correspondence: names are the source's, with `none` for a Python None and an Error for an exception.
-- Each call takes its reading of the clock and its random bits as arguments (Draw). Times are
-- microseconds, and JSON columns are held decoded. No recursion runs on fuel without a bound from the
-- source: a repetition in Regex takes at most the characters that are left, since each repeated part
-- takes one or more, an identifier has its 26 rounds, the search for a unique key has as many as
-- there are keys, and the digits of a number are no more than the number, of which each step divides
-- by ten.
--
-- A method of the supervisor runs as one step while it holds the control lock. Where it waits for a
-- transport, for the preflight or for other tasks, the wait is an argument: any computation on the
-- state, so that other steps may happen in it. Transports and tasks are known by their attempt, and
-- waking a watcher changes no state.
--
-- Not modelled: opening and closing of SQLite and its locks, the event loop, the sockets and
-- their files, the search for an identifier in an oversized frame, the SDK and the command line. Parameters: the environment and the interpreter's tables of digits and word
-- characters (Host), the file system (FileSystem, Paths), and the codec of JSON texts.
pub mod Prelude
pub mod Lifecycle
pub mod ModelPolicy
pub mod AuditorPolicy
pub mod Chars
pub mod Regex
pub mod Json
pub mod Patterns
pub mod Payload
pub mod Result
pub mod Events
pub mod Redaction
pub mod Tables
pub mod Workspace
pub mod Ulid
pub mod Store
pub mod PatternTests
pub mod Domain
pub mod Coder
pub mod Control
pub mod Preflight
pub mod Foreground
pub mod Rpc
pub mod Supervisor
pub mod Config
pub mod AuditReport
pub mod Reducer
pub mod Examples
