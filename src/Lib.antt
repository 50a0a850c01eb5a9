-- ===== src/Lib.antt =====
-- Models of the Go library's own core logic, and theorems that make it correct. Each module says
-- which file it is about; a definition keeps the code's name in snake case.
--
-- The parts. A transcript of messages (message/) is what an agent run reads and writes: the history
-- functions check that every tool call is answered and choose cut points. A durable execution
-- (durable/backend.go) is one agent run that a Backend stores: a worker claims it under a lease with
-- a fencing token, saves checkpoints (agent/continuation.go validates the state that they carry),
-- records effect attempts, and finishes, suspends or releases it; durable/internal/testbackend is
-- the reference store. A drive (orchestration/) asks a scheduler for dispatches tick by tick, runs
-- each batch concurrently and folds the outcomes into a state. A tool call (tool/) streams updates
-- to a sink while it runs, and its terminal result must agree with them.
--
-- Files and code.
-- Message, Message/Content: message/message.go and message/content.go, the values and their content.
-- Message/History: message/history.go, with its theorems in Turns, Boundary and Matching.
-- Agent: values of agent/ that the other parts store. Agent/Analysis, Agent/Scalars, Agent/StepChecks and
-- Agent/Validation are ValidateContinuation of agent/continuation.go, Agent/Operations the operation IDs
-- that agent/agent.go prints, and Agent/Resumption the start of a resumption in agent/resume.go.
-- Provider: values of provider/; Provider/Usages is the sum of token usages of provider/provider.go, and
-- Provider/Streams and Provider/Retries are provider/retry_stream.go, Provider/Failover is
-- provider/failover.go, Provider/Resolver is provider/resolver.go, and Provider/Sse is
-- provider/shared/sse.go, where a stream is the list of its lines.
-- Durable: durable/backend.go and durable/errors.go, values, requests and errors.
-- Durable/Testbackend: the reference store of durable/internal/testbackend. Store is store.go;
-- Executions, Resumption, Lifecycle and Endings are execution.go; Attempts and Reconciliation are
-- attempt.go. Soundness is the invariant of a record, Change the abstract machine of the changes an
-- operation may make, and Calls the sequences of calls on a store.
-- Durable/Runtime: the tool calls of durable/interceptor.go with their envelopes (durable/codec.go), over
-- the reference store; Once carries the theorem.
-- Orchestration: orchestration/scheduler.go and orchestration/drive.go. Validation is the checks,
-- Batch the launch loop and the fold of its reports, Drive the loop of ticks, Valid the clean states.
-- Tool, Tool/Updates: tool/tool.go's updates and tool/update.go; Driver is its Execute, and Accepted
-- and Results carry the theorems. Tool/Interceptors is tool/interceptor.go, with any program that calls
-- the next driver as an interceptor.
-- Examples: concrete runs.
--
-- How the code is modelled. Strings and byte slices are lists of bytes, maps are association lists in
-- which the first entry of a key counts, and Go's zero value of a pointer is none. A clone of a value
-- is the value, since values are immutable. Counters of type uint64 wrap at 2^64 and ticks of type int
-- at 2^63, and the theorems that need it bound the number of steps. The store's mutex makes each call
-- one step; the order of calls is a list. Clock readings are arguments, and need not be monotonic.
-- The launch loop of a batch is a step relation in which goroutines interleave freely. The loop of a
-- drive recurs on the ticks that are left, so it needs no fuel. The rounds of a retrying stream's Recv
-- have as fuel the retries that are left and one, which a theorem shows to be enough.
--
-- Parameters. Canonical JSON with SHA-256 (Hashes), JSON validity, the JSON of tool envelopes and of
-- tool calls, the scheduler, the executors, the tools and the contexts are given from outside.
-- Errors of a provider or a tool are what the language's error functions find in them. The
-- hypotheses on all these are that a batch reports dispatches of its own, none twice, which the
-- theorems on the launch loop show of the code; that JSON reads back the envelope that it wrote;
-- and, where a theorem says so, that a tool and its interceptors use `ErrNotExecuted` only as its
-- documentation says.
--
-- Not modelled: the durable runtime but for tool calls, the engine loop, the provider drivers, the
-- bus that looks tools up, interceptors that call a tool concurrently, skills, sinks, error texts,
-- and everything that only reads or writes the outside world.
pub mod Prelude
pub mod Message
pub mod Provider
pub mod Agent
pub mod Durable
pub mod Orchestration
pub mod Tool
pub mod Examples
