-- ===== src/Lib.antt =====
-- livekit-agent-sdk-go: models of the agent SDK's own logic (pkg/agent) and their properties.
--
-- A worker of the SDK takes jobs from a LiveKit server over a WebSocket, queues them, runs them, and
-- reports their status, while the connection may break and come back and the process may shut down.
-- Each module below models a part of pkg/agent; its children hold the proofs, and its child
-- Examples the concrete runs.
--
-- Prelude: Boolean tests, lists by position, maps with text keys (Dict, Go's map[string]V), signed
--   integers (Int), the last entries of a list (Suffix), and code that may panic or runs on fuel (Exec).
-- JobQueue (pkg/agent/job_queue.go): Item has the entries and the methods of heap.Interface
--   (Less, Swap, Push, Pop), Heap the functions of Go's container/heap, and JobQueue the methods
--   Enqueue, Dequeue, DequeueWithContext, Peek, Size, Clear, Close, GetJobsByPriority, RemoveJob and
--   the two priority calculators. An index out of range and a second Close panic. The loops up and
--   down run on fuel: up on its position plus one, down on the length of the heap plus one, which
--   suffices since up halves its position and down increases it below the length.
--   DequeueWithContext runs over the turns of its environment: what other goroutines do while the
--   call is blocked, and the cancellation of the context. Priorities are the numbers 0 to 3 of the
--   constants, and a negative size limit is not modelled (Go treats it like 0).
-- RaceProtector (pkg/agent/race_protection.go): every method of RaceProtector as a function on its
--   state, Trace for sequences of calls, and RaceProtectionGuard.Execute as execute. The calls of the
--   callbacks are events.
-- ShutdownHooks (pkg/agent/shutdown_hooks.go): the methods of ShutdownHookManager. The map is
--   keyed by the text of the phase; the two loops of sortHooks are settle and sort_positions. How the
--   goroutine of a hook ends (an answer, a panic, the timeout) is given by the environment.
-- TimingManager (pkg/agent/timing_manager.go): the offset between the clocks and the deadlines that
--   it shifts, with Backpressure for BackpressureController and timing_guard_execute for TimingGuard.Execute.
--   The floating-point product of GetDelay is an argument.
-- Permissions (pkg/agent/participant_permission_manager.go): the methods of
--   ParticipantPermissionManager, with Policy for the interface of the policies and the two built-in
--   ones. A policy may panic, and the panic ends the request.
-- JobRecovery (pkg/agent/job_recovery.go): the recovery manager and the checkpoints, with
--   PartialMessages for PartialMessageBuffer. An attempt counts as a panic where the
--   loop may write the results at the same time as a goroutine, and else settles each job by itself; the
--   handler's decision and the connection are given by an Environment. Whether bytes are a JSON text
--   is an argument.
-- NetworkHandler (pkg/agent/network_handler.go): the writes with their pending message, partition
--   detection and the loop of DNS lookups, whose rounds are numbered by the failures so far; Errors for
--   isNetworkError, on texts as lists of ASCII codes. The loop runs on the number of rounds left, which
--   starts as maxDNSRetries.
--
-- LoadBatcher (pkg/agent/load_calculator.go): LoadBatcher with the time at which its timer fires, and
--   run_updates for a series of calls of Update with the timer in between. A float32 is kept as the
--   expression that computes it.
-- ResourcePool (pkg/agent/resource_pool.go): the pool with its counters; the answers of the factory and
--   of the resources are arguments. Steps is the step relation of its users, in which Acquire,
--   createAsync and Close are cut where they unlock and Acquire also at the test of the size, with counts
--   of what the clients hold and of what no counter tells. A receive of nil from the closed channel and
--   a send on it are panics.
-- ProtocolHandler (pkg/agent/protocol_handler.go): the version of the server, unknown messages, the
--   registry of message types, the choice of a version, and the upgrade by the way its function ends.
--   Versions are lists of ASCII codes, since the code compares them as texts. Calls is for series of calls.
-- TrackSubscription (pkg/agent/track_subscription_manager.go): TrackSubscriptionManager, with Quality for
--   ConnectionQualityMonitor. The qualities of a connection are the numbers 0 to 3 of the protocol.
-- QualityController (pkg/agent/quality_controller.go): updateTrackQuality for one track, with the outcomes
--   of the comparisons of floating-point numbers as TrackReadings, and CalculateOptimalQuality.
-- UniversalWorker (pkg/agent/universal_worker.go, universal_worker_websocket.go, universal_helpers.go):
--   Types has the state, the messages, the events and the environment (the connection's answers, the
--   clock, proto.Marshal and the load calculator); StatusGuard is StatusUpdateRaceProtector; Sending
--   has sendMessage (through the model of NetworkHandler), UpdateStatus, updateLoad (through that of
--   LoadBatcher), updateJobStatus and processStatusQueue; Jobs has handleAvailabilityRequest,
--   handleJobAssignment, runJobHandler and handleJobTermination, where a call that blocks on the
--   network or on the handler is cut into the part before (begin_) and after (finish_); Connection has
--   connect, waitForRegistration, sendPing, handleConnectionError, reconnect, the turns of
--   maintainConnection and handleServerMessage; Rooms has the callbacks of createRoomCallbacks that
--   change the worker, and Shutdown has Stop. JobSteps is the step relation of the goroutines. The
--   metadata objects of the handler have addresses, since the code writes through the pointer that
--   GetJobMetadata returns. The wait for the registration takes a turn of a list for each message; a
--   list without a turn that ends it is a wait without end.
--
-- Times are numbers (nanoseconds), and what time.Now() returns is an argument. A method that holds
-- its mutex is one step. Counters that grow by one in a call are unbounded. Log lines are left out.
-- The protobuf types of LiveKit keep the fields and the enum values that the code names.
pub mod Prelude
pub mod RaceProtector
pub mod JobQueue
pub mod ShutdownHooks
pub mod TimingManager
pub mod Permissions
pub mod JobRecovery
pub mod NetworkHandler
pub mod LoadBatcher
pub mod UniversalWorker
pub mod ResourcePool
pub mod ProtocolHandler
pub mod TrackSubscription
pub mod QualityController
