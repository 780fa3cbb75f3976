-- ===== src/Tests/Executing.antt =====
-- The replay of the trace of one file, by one worker and by two.
use ioflux.Prelude.{
  pos, List, ℤ, none, true, ◌∷◌, some, [], ◌≡◌, refl, Option, All, ◌-ℤ◌, ◌≤ℤ◌, arith, add64, wrap64,
  ◌+ℤ◌,
}
use ioflux.Payload.Fill.{mode_unset}
use ioflux.Replay.Executor.{
  prepared, prepare_internal, Plan, Executor, executor_of, Loading, prepare_assigned, is_listed,
  prepare,
}
use ioflux.Engine.Mem.{MemEngine, mem_engine}
use ioflux.Validate.Loop.{validate}
use ioflux.Tests.Mapping.{no_url}
use ioflux.Trace.Types.{Op}
use ioflux.Tests.Traces.{
  raw_header, header, stream, open_shard, read_shard, close_shard, stat_shard,
}
use ioflux.Cluster.Partition.{
  canceled, failed_with, parse_trace_streams, partition_streams, RunError, first_run_error, skew_ns,
}
use ioflux.Replay.Executor.Assigned.{IsRestriction, prepare_assigned-IsRestriction}
use ioflux.Cluster.Partition.Errors.{RootCause, first_run_error-RootCause}
use ioflux.Cluster.Whole.{gathered, AllPrepared, workers_replay_trace}
use ioflux.Replay.Executor.Loaded.{ops_at, ops_of_stream, prepared_streams}
use ioflux.Cluster.Partition.Once.{workers_with, assigned_once}
use ioflux.Validate.Order.{ops_of}
use ioflux.Cluster.Partition.Skew.{skew_ns-bounds, Attained}
use ioflux.Replay.Caps.{check_target_containment}
use ioflux.Replay.Executor.Think.{NoDur, think_mode-dur}
use ioflux.Trace.Reader.{Stream}

abbrev plan : Plan MemEngine
plan = record {
  engine = mem_engine (λ name. pos 4156);
  check_target = none;
  engine_name = "mem";
  mode = "asap";
  target_map = none;
  bucket = "";
  fill_mode = mode_unset;
  fill_seed = pos 0;
}

abbrev loaded : List (ℤ × List Op) → Loading
loaded by_stream = record {
  ops_with_dur = 0;
  eligibility = none;
  meta = record { extents = (pos 0, pos 4156) ∷ []; handle_to_target = [] };
  by_stream = by_stream;
}

abbrev whole : Executor MemEngine
whole =
    executor_of plan header header.targets
      (loaded ((pos 7, open_shard ∷ read_shard ∷ close_shard ∷ stat_shard ∷ []) ∷ []))

abbrev idle : Executor MemEngine
idle = executor_of plan header header.targets (loaded [])

all_loaded :
    prepare_internal no_url plan (λ s. true) (some raw_header) header stream ≡ prepared whole
unfolding prepare_internal validate check_target_containment mem_engine add64 wrap64 ◌+ℤ◌
all_loaded = refl

assigned_loaded :
    prepare_internal no_url plan (is_listed (pos 7 ∷ [])) (some raw_header) header stream
    ≡ prepared whole
unfolding prepare_internal validate check_target_containment mem_engine add64 wrap64 ◌+ℤ◌
assigned_loaded = refl

none_loaded :
    prepare_internal no_url plan (is_listed []) (some raw_header) header stream ≡ prepared idle
unfolding prepare_internal validate check_target_containment mem_engine add64 wrap64 ◌+ℤ◌
none_loaded = refl

prepared_streams_example : ops_at (pos 7) whole.by_stream ≡ ops_of_stream (pos 7) stream.records
prepared_streams_example =
    prepared_streams plan (λ s. true) (some raw_header) header stream no_url whole all_loaded
      (pos 7)

prepare_assigned-IsRestriction_example :
    IsRestriction
      (pos 7 ∷ [])
      (prepare no_url plan (some raw_header) header stream)
      (prepare_assigned no_url plan (some raw_header) header stream (pos 7 ∷ []))
prepare_assigned-IsRestriction_example =
    prepare_assigned-IsRestriction no_url plan (some raw_header) header stream (pos 7 ∷ [])

found : parse_trace_streams stream ≡ some (pos 7 ∷ [])
unfolding parse_trace_streams
found = refl

assigned_once_example :
    (out : List (List ℤ)) × (partition_streams (pos 7 ∷ []) 2 ≡ some out)
    × (workers_with (pos 7) out ≡ 1)
assigned_once_example = assigned_once (pos 7) stream (pos 7 ∷ []) 2 found (omega arith)

dealt : partition_streams (pos 7 ∷ []) 2 ≡ some ((pos 7 ∷ []) ∷ [] ∷ [])
unfolding partition_streams
dealt = refl

both_prepared :
    AllPrepared no_url plan
      (some raw_header)
      header
      stream
      ((pos 7 ∷ []) ∷ [] ∷ [])
      (whole ∷ idle ∷ [])
unfolding prepare_assigned
both_prepared = (assigned_loaded, (none_loaded, tt))

workers_replay_trace_example :
    gathered (pos 7) (whole ∷ idle ∷ []) ≡ ops_of_stream (pos 7) stream.records
workers_replay_trace_example =
    workers_replay_trace no_url plan (some raw_header) header stream (pos 7 ∷ []) 2
      ((pos 7 ∷ []) ∷ [] ∷ []) (whole ∷ idle ∷ []) found (omega arith) dealt both_prepared (pos 7)

abbrev run_errors : List (Option RunError)
run_errors = none ∷ some canceled ∷ some (failed_with "disk full") ∷ []

first_run_error-RootCause_example : RootCause run_errors (first_run_error run_errors)
first_run_error-RootCause_example = first_run_error-RootCause run_errors

abbrev delays : List ℤ
delays = pos 30 ∷ pos 12 ∷ pos 45 ∷ []

skew_ns-bounds_example :
    All (λ a. All (λ b. (a -ℤ b) ≤ℤ skew_ns delays) delays) delays
    × Attained (skew_ns delays) delays
skew_ns-bounds_example =
    skew_ns-bounds delays
      ((omega arith, omega arith), ((omega arith, omega arith), ((omega arith, omega arith), tt)))

abbrev timed_close : Op
timed_close = record close_shard { dur = some (pos 5) }

abbrev timed : Stream
timed = record stream {
  records = (2, open_shard) ∷ (3, read_shard) ∷ (4, timed_close) ∷ (5, stat_shard) ∷ [];
}

abbrev think_plan : Plan MemEngine
think_plan = record plan { mode = "think" }

abbrev timed_whole : Executor MemEngine
timed_whole =
    executor_of think_plan header header.targets
      (record (loaded ((pos 7, open_shard ∷ read_shard ∷ timed_close ∷ stat_shard ∷ []) ∷ [])) {
        ops_with_dur = 1;
      })

timed_loaded :
    prepare_internal no_url think_plan (λ s. true) (some raw_header) header timed
    ≡ prepared timed_whole
unfolding prepare_internal validate check_target_containment mem_engine add64 wrap64 ◌+ℤ◌
timed_loaded = refl

think_mode-dur_example : ¬ All NoDur (ops_of timed.records)
think_mode-dur_example =
    think_mode-dur think_plan (λ s. true) (some raw_header) header timed no_url timed_whole
      timed_loaded refl
