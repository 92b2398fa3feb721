-- ===== src/Lib.antt =====
-- A model of the governed agent runtime of the AI Dream Team (runtime/src), with the theorems that make
-- it correct.
--
-- The runtime runs an agent of some role: runtime/src/loop/run-loop.ts asks a model for the next turn,
-- resolves the path argument of each tool call (runtime/src/gate/workspace.ts), asks the gate whether
-- the role's grant and the run's approvals permit it (runtime/src/gate), runs the tool or answers with
-- a refusal, records an event for each call, and stops at the caps. A tool may spawn a child run for
-- another role (runtime/src/tools/spawn.ts) under a grant that the org chart and the matrix bound.
--
-- The files:
--   Prelude          shared names, tests on native numbers, lists, texts
--   Effects          the shared state of a run and its exceptions: Session, M; Effects/Outcome the
--                    rule calculus for "what holds after an action"
--   Json             JSON values and JSON.stringify
--   Gate             Types, Objects (look-ups on object literals), Decide (gate.ts), Grants (grants.ts),
--                    Intersect (intersect.ts), Org (org.ts); Policy, Narrowing and Chart hold what is
--                    proved of them
--   Paths            the functions of node:path that the runtime calls, for POSIX; Paths/Below
--   Workspace        workspace.ts over a file system that is a parameter; Workspace/Contained
--   Trace, Packets   the records of trace/emit.ts and packets/failure.ts
--   Tools            Types (tools/types.ts), Plan (plan.ts), Spawn (spawn.ts), with Plan/Valid and
--                    Dispatch for what is proved,
--                    Shell (shell.ts; Shell/Isolation, Calm), WriteFile (write-file.ts; WriteFile/OpenOnce, Calm),
--                    WebFetch (web-fetch.ts; WebFetch/Addresses, Public, Guard, Guarded,
--                    Calm),
--                    Google (what gmail.ts, calendar.ts, drive.ts and sheets.ts share; Google/Gmail,
--                    Calendar, Drive, Sheets, with Requests and Headers for what is proved),
--                    Registry (registry.ts; Registry/Surface, Frame, Lasting,
--                    Kept)
--   Loop             Types, Client (model/client.ts), Cost, Events, Handle (handleToolUse), Halt (halt), Run (the batch of calls),
--                    Step (a round, the loop and runLoop); Calls, History, Halted, Rounds, Results and Kept
--                    hold what is proved
--   Sinks            trace/rpc-sink.ts and packets/rpc-sink.ts as a machine over the events of their writes;
--                    Sinks/Drained
--   Artifacts        artifacts/record.ts (Types, Record) and artifacts/upload.ts (Upload); Live, Keys and
--                    Stored hold what is proved
--   Database         the calls of db/client.ts
--   Connectors       connectors/google.ts; Connectors/Tokens
--   Confine          confine/docker-provider.ts; Confine/Isolated
--   Prompts          prompts.ts
--   Start            startRun of index.ts; Start/Persist the writes of its sinks; Gated, Tree and Kept
--                    hold what is proved
--   Host             host/electron-adapter.ts; Host/Replies
--   App              app/src/lib of the web application: OauthState (connectors/oauthState.ts; OauthState/Signed)
--   Tests            concrete runs
--
-- How the code is read. An async function is an action of M: it reads and changes a Session, which holds
-- the outside world, the spend of the whole spawn tree (the object treeSpend that parent and children
-- share; a run without one starts at 0), and the trace events, failure packets, artifacts and
-- warnings in the order in which they are handed to their emitters; an exception ends it and keeps what was done. The model client, the file
-- system, the network, the container, the connectors and the child runner are parameters that may return or throw
-- whatever they like and change the world. An object literal used as a table also has the members that
-- it inherits. Dollar amounts are counted in millionths, which the prices per million tokens make exact
-- where the code adds floating-point numbers; token counts and a plan step's id are natural numbers.
-- Texts are compared by code points.
--
-- A sink's write is in flight, settled, or gone; what the database answers is an event of the history.
--
-- The loop runs on fuel 16, one round above the cap of 15 iterations: each round that does not end the
-- run adds one to the counter, and the round that finds 15 halts, so the fuel is never used up.
--
-- A child run is one level deeper than its spawner and the spawn tool's depth cap is 3, so the runner of
-- children has three levels of fuel, and the third level's children are refused before they are run.
--
-- In startRun the database's calls for the records of a run stand together, after the run and before
-- the flushes, where the code lets them go on while the run does: what a write changes of the world is
-- seen then. Which of them have settled when is the matter of Sinks.
--
-- Not modelled: the tools' input schemas, the construction of the database session and of the SDK's
-- client, the desktop shell's windows, the rest of the web application; Windows paths.
pub mod Prelude
pub mod Gate
pub mod Paths
pub mod Workspace
pub mod Json
pub mod Tools
pub mod Packets
pub mod Trace
pub mod Artifacts
pub mod Database
pub mod Prompts
pub mod Confine
pub mod Connectors
pub mod Start
pub mod Host
pub mod Effects
pub mod Loop
pub mod Sinks
pub mod App
pub mod Tests
