-- ===== src/Tests/Traces.antt =====
-- A trace of one file, opened, read short, closed and looked up, and what its validation shows.
use ioflux.Prelude.{false, Option, none, some, [], ◌∷◌, ◌≡◌, refl, ℤ, pos, All, Ordered, length}
use ioflux.Trace.Types.{
  capture_import, mode_empty, mode_read, op_close, op_open, op_read, op_stat, target_file,
  trace_imported, Header, Op, OpKind, TargetInfo,
}
use ioflux.Trace.Reader.{eof, Stream}
use ioflux.Validate.Header.{raw_object, raw_other, RawHeader}
use ioflux.Validate.Loop.{validate_with_ops, validate}
use ioflux.Validate.Outcome.{Passed}
use ioflux.Validate.Lifecycle.{Lifecycle, handle-Lifecycle}
use ioflux.Validate.Order.{TimeLe, ops_of, HasId, IdNe, time_sorted, IdLt, op_ids-Ordered}
use ioflux.Validate.Schema.{FitsSchema, ops_fit_schema}
use ioflux.Validate.Counts.{partials, summary_counts}

abbrev pub bare : OpKind → ℤ → ℤ → Op
bare k t id = record {
  t = t;
  op_id = some id;
  s = pos 7;
  op = k;
  group = none;
  tgt = none;
  h = none;
  mode = mode_empty;
  flags = [];
  off = none;
  len = none;
  ret = none;
  dur = none;
}

abbrev pub open_shard : Op
open_shard = record (bare op_open (pos 10) (pos 0)) {
  tgt = some (pos 0);
  h = some (pos 1);
  mode = mode_read;
}

abbrev pub read_shard : Op
read_shard = record (bare op_read (pos 20) (pos 1)) {
  h = some (pos 1);
  off = some (pos 4096);
  len = some (pos 100);
  ret = some (pos 60);
}

abbrev pub close_shard : Op
close_shard = record (bare op_close (pos 20) (pos 2)) { h = some (pos 1) }

abbrev pub stat_shard : Op
stat_shard = record (bare op_stat (pos 35) (pos 3)) { tgt = some (pos 0) }

abbrev pub shard : TargetInfo
shard = record { id = pos 0; name = "shard"; kind = target_file; size = pos 4156 }

abbrev pub header : Header
header = record {
  version = pos 2;
  kind = trace_imported;
  profile = "";
  generated_by = "";
  created_utc = "";
  time_unit = "ns";
  capture_method = capture_import "strace";
  capture_limitations = "none";
  scrubbed = false;
  targets = shard ∷ [];
  summary = record {
    num_ops = pos 4;
    num_streams = pos 1;
    num_groups = pos 0;
    total_bytes = pos 60;
    duration_ns = pos 35;
    num_partial_reads = pos 1;
  };
  notes = "";
  transformations = [];
}

abbrev pub raw_header : RawHeader
raw_header =
    ("targets", raw_other)
    ∷ (
      "summary",
      raw_object ("num_ops" ∷ "num_streams" ∷ "num_groups" ∷ "total_bytes" ∷ "duration_ns" ∷ []),
    )
    ∷ []

abbrev pub stream : Stream
stream = record {
  records = (2, open_shard) ∷ (3, read_shard) ∷ (4, close_shard) ∷ (5, stat_shard) ∷ [];
  finish = eof;
}

abbrev pub no_callback : Op → Unit {0} → Option ⊥ × Unit {0}
no_callback op c = (none, c)

passes : Passed (validate_with_ops no_callback (some raw_header) header stream tt)
unfolding validate
passes = (refl, refl)

time_sorted_example : Ordered TimeLe (ops_of stream.records)
time_sorted_example = time_sorted no_callback (some raw_header) header stream tt passes

op_ids-Ordered_example :
    All HasId (ops_of stream.records)
    × Ordered IdNe (ops_of stream.records)
    × Ordered IdLt (ops_of stream.records)
op_ids-Ordered_example = op_ids-Ordered no_callback (some raw_header) header stream tt passes

handle-Lifecycle_example : Lifecycle [] (ops_of stream.records)
handle-Lifecycle_example = handle-Lifecycle no_callback (some raw_header) header stream tt passes

ops_fit_schema_example : All (FitsSchema header) (ops_of stream.records)
ops_fit_schema_example = ops_fit_schema no_callback (some raw_header) header stream tt passes

summary_counts_example :
    (header.summary.num_ops ≡ pos (length (ops_of stream.records)))
    × (header.summary.num_partial_reads ≡ pos (partials (ops_of stream.records)))
summary_counts_example = summary_counts no_callback (some raw_header) header stream tt passes
