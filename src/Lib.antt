-- ===== src/Lib.antt =====
-- IOFlux records the I/O of a program as a trace, and replays the trace against a storage engine.
-- This library models the parts that decide what a trace means and what a replay does, and proves
-- what makes them correct.
--
-- A trace is a header and a list of ops. An importer (pkg/importer) makes one from another format:
-- its descriptor table turns descriptors into handles, and its builder orders and numbers the ops.
-- The validator (pkg/trace/validate.go) accepts or rejects a trace op by op. A transform
-- (pkg/transform) rewrites one. A replay (pkg/replay) sends each op to an engine (pkg/engine),
-- with bytes that pkg/payload makes, and checks what the engine reports.
--
-- Prelude: numbers, Go's int64 (add64 and sub64 wrap around), maps and lists.
-- Trace/Types: pkg/trace/types.go, with the source's names in snake case (MinVersionForOps is
--   min_version_for_ops). A pointer field is an Option; a string type with listed values is a data
--   type with one constructor for each and one for any other string.
-- Trace/Reader: the ops that pkg/trace/jsonl.go hands over, with their lines, and how the file
--   ends.
-- Validate: pkg/trace/validate.go. Report, Fields, OpId, Header and Loop hold the code: a check
--   takes the report and gives it back, and Loop.step is one turn of the loop of ValidateWithOps
--   over its variables (State). The other files lead to what a trace that passes satisfies:
--   Header/Tally, Verdict and Tally count the errors of each check, Step, Accept and Outcome
--   compose them over the loop, and Lifecycle, Schema, Counts and Order state the consequences.
--   The callback is a parameter.
-- Transform/SplitReads: pkg/transform/splitreads.go. Its loop runs on fuel, as many turns as bytes
--   moved, which is enough since a block is at least one byte.
-- Importer/FdTable: pkg/importer/fdtable.go. Importer/Builder: pkg/importer/build.go up to the
--   encoding of the trace; Builder/Arranged and Builder/Streams are about what the
--   builder keeps of each stream and what the merge does to it.
-- Importer/Strace: pkg/importer/strace. Scan and Quoted are scan.go, over strings whose characters
--   are bytes; Parser, Calls, Times and Lines are parse.go: a handler takes the parser and gives
--   it back, and an early return is a value (Checked). Importer/Dftracer:
--   pkg/importer/dftracer/parse.go, over decoded events (Events, Handlers, Passes). Flags and Ops
--   hold what the two importers do by the same text. Tracked states how the builder and the
--   descriptor table agree, Tracked/Moves the ways in which they change together, and
--   Tracked/Written what follows for the trace; each importer's Keeps and Lifecycles lead its
--   handlers there.
-- Engine/Types: pkg/engine/engine.go; the interface is a record of operations on the engine's
--   state, where none is a panic. Engine/Mem: pkg/engine/mem/mem.go, an instance of it, with the
--   objects on a heap that handles share.
-- Payload/Fill: pkg/payload/payload.go. Its blocks run on fuel, the count of bytes, which is
--   enough since a block is eight of them. Payload/Reference has the bytes one at a time.
-- Replay/Transfer, Replay/Stream and Replay/Dispatch: the checks, what the loop over a stream
--   keeps, and dispatchOp of pkg/replay/scheduler.go, over any engine. Replay/ObjectWrite:
--   pkg/replay/objectwrite.go. Replay/Merge: small helpers of pkg/replay/scheduler.go.
--   Replay/Caps, Replay/Extents and Replay/Executor: preparing a replay in pkg/replay/executor.go
--   (prepareInternal and its callback load_op, with WithStreams); Loaded and Assigned are about
--   what it keeps.
-- TargetMap: pkg/targetmap/targetmap.go. Cluster/Partition: of pkg/cluster/coordinator.go, how
--   streams are dealt out to workers, and what a run reports of errors and start delays.
--   Cluster/Whole puts that together with the preparation of each worker. Cluster/Session: the
--   session of pkg/cluster/worker.go, driven by a list of calls, with the engines that a call shuts
--   down; Held and Phases are about what it holds and what it refuses.
-- Prepare: of pkg/prepare/prepare.go, the extents and sizes that the ops ask for, the check of
--   targets that exist, and (Prepare/Writer) the writer of synthetic ones: its loop runs on fuel,
--   one turn for each byte of the target, which is enough since a turn writes at least one.
-- Gen/Checkpoint: pkg/gen/checkpoint/generate.go. The loop over a shard's blocks runs on fuel, one
--   turn for each byte, which is enough since a block is at least one. The bytes of
--   all WRITEs add up in an int64, as in the code.
-- Tests: concrete inputs, and the theorems at them.
--
-- Parameters stand for what is not in the repository: the hash of a target's name (FNV-1a),
-- url.Parse, the pipe and goroutine behind a coalesced Put, the texts that fmt and time make, what
-- strconv.ParseFloat makes of a duration, and the event that a line of JSON decodes to. Not
-- modelled: the encoding of JSON and gzip, the command line, the network (gRPC, S3), the local
-- file engine, the clocks and goroutines of the scheduler, the statistics in floating point, and
-- locks, since every operation runs whole.
pub mod Prelude
pub mod Trace
pub mod Validate
pub mod Transform
pub mod Importer
pub mod Engine
pub mod Payload
pub mod Replay
pub mod Prepare
pub mod TargetMap
pub mod Cluster
pub mod Gen
mod Tests
