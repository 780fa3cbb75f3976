-- ===== src/Importer/Builder.antt =====
-- pkg/importer/build.go. Reports' texts are not modelled. What writing a trace and reading it back gives
-- is a parameter, since the JSON encoding is the standard library's.
pub mod Order
pub mod Arranged
pub mod Streams
use ioflux.Prelude.{
  ℕ, pos, String, ℤ, [], suc, Bool, Option, List, ◌∷◌, if◌then◌else◌, some, leb_ℤ, insert, lookup,
  map, ltb_ℤ, length, sub64, none, not, string_eq, int_eq, ◌++◌, ◌==◌, leb, false, sort_stable,
}
use ioflux.Trace.Types.{
  TraceKind, Header, Op, TargetInfo, TargetKind, CaptureMethod, Summary, min_version_for_ops,
}
use ioflux.Transform.SplitReads.{sum_bytes, count_partials}

pub record HeaderMeta : Type 0 where
  pub kind : TraceKind
  pub capture_method : CaptureMethod
  pub capture_limitations : String
  pub generated_by : String
  pub notes : String
  pub created_utc : String

pub record BuildReport : Type 0 where
  pub num_ops : ℕ
  pub num_streams : ℕ
  pub num_targets : ℕ
  pub skipped_ops : ℕ
  pub timestamp_clamped : ℕ
  pub skipped_reasons : List (String × ℕ)
  pub lossy : List (String × ℕ)

pub record StreamOp : Type 0 where
  pub stream_id : ℤ
  pub local_idx : ℕ
  pub op : Op

pub record Builder : Type 0 where
  pub targets : List TargetInfo
  pub target_idx : List (String × ℕ)
  pub per_stream : List (ℤ × List StreamOp)
  pub report : BuildReport

abbrev pub empty_report : BuildReport
empty_report = record {
  num_ops = 0;
  num_streams = 0;
  num_targets = 0;
  skipped_ops = 0;
  timestamp_clamped = 0;
  skipped_reasons = [];
  lossy = [];
}

abbrev pub new_builder : Builder
new_builder = record { targets = []; target_idx = []; per_stream = []; report = empty_report }

unfoldable pub intern : Option ℕ → String → TargetKind → Builder → Builder × ℕ
intern (some id) name kind b = (b, id)
intern none name kind b =
    let id = length b.targets in
    let t : TargetInfo = record { id = pos id; name = name; kind = kind; size = pos 0 } in
    (record b { targets = b.targets ++ t ∷ []; target_idx = insert name id b.target_idx }, id)

unfoldable pub target : String → TargetKind → Builder → Builder × ℕ
unfolding intern
target name kind b = intern (lookup name b.target_idx) name kind b

abbrev pub or_empty {ℓ} : {A : Type ℓ} → Option (List A) → List A
or_empty none = []
or_empty (some xs) = xs

unfoldable pub add : Op → Builder → Builder
add op b =
    let ops = or_empty (lookup op.s b.per_stream) in
    let so : StreamOp = record { stream_id = op.s; local_idx = length ops; op = op } in
    record b { per_stream = insert op.s (ops ++ so ∷ []) b.per_stream }

abbrev pub or_zero : Option ℕ → ℕ
or_zero none = 0
or_zero (some n) = n

-- m[reason]++
abbrev pub bump_reason : String → List (String × ℕ) → List (String × ℕ)
bump_reason reason m = insert reason (suc (or_zero (lookup reason m))) m

unfoldable pub skip : String → Builder → Builder
skip reason b = record b {
  report = record b.report {
    skipped_reasons = bump_reason reason b.report.skipped_reasons;
    skipped_ops = suc b.report.skipped_ops;
  };
}

unfoldable pub note : String → Builder → Builder
note reason b = record b { report = record b.report { lossy = bump_reason reason b.report.lossy } }

unfoldable pub clamped_timestamp : Builder → Builder
clamped_timestamp b = record b {
  report = record b.report { timestamp_clamped = suc b.report.timestamp_clamped };
}

unfoldable pub stream_ids : List (ℤ × List StreamOp) → List ℤ
unfolding sort_stable
stream_ids m = sort_stable leb_ℤ (map (λ p. p.0) m)

abbrev pub min_of : Option ℤ → ℤ → Option ℤ
min_of none t = some t
min_of (some m) t = if ltb_ℤ t m then some t else some m

unfoldable pub min_ops : Option ℤ → List StreamOp → Option ℤ
min_ops m [] = m
min_ops m (so ∷ ops) = min_ops (min_of m so.op.t) ops

-- The result (min, true) is `some min`.
unfoldable pub min_timestamp : Option ℤ → List ℤ → List (ℤ × List StreamOp) → Option ℤ
unfolding min_ops
min_timestamp m [] streams = m
min_timestamp m (s ∷ ids) streams =
    min_timestamp (min_ops m (or_empty (lookup s streams))) ids streams

abbrev pub rebase : Option ℤ → ℤ → ℤ
rebase none t = t
rebase (some m) t = sub64 t m

abbrev pub at_time : StreamOp → ℤ → StreamOp
at_time so t = record so { op = record so.op { t = t } }

-- The loop over one stream's ops, with the op before where there is one, and the count of the clamped.
unfoldable pub clamp_ops : Option ℤ → Option ℤ → ℕ → List StreamOp → List StreamOp × ℕ
clamp_ops m prev n [] = ([], n)
clamp_ops m none n (so ∷ ops) =
    let t = rebase m so.op.t in
    let (rest, n') = clamp_ops m (some t) n ops in (at_time so t ∷ rest, n')
clamp_ops m (some prev) n (so ∷ ops) =
    let early = ltb_ℤ (rebase m so.op.t) prev in
    let t = if early then prev else rebase m so.op.t in
    let (rest, n') = clamp_ops m (some t) (if early then suc n else n) ops in
    (at_time so t ∷ rest, n')

unfoldable pub clamp_streams : Option ℤ → ℕ → List ℤ → List (ℤ × List StreamOp) → List StreamOp × ℕ
unfolding clamp_ops
clamp_streams m n [] streams = ([], n)
clamp_streams m n (s ∷ ids) streams =
    let (ops, n') = clamp_ops m none n (or_empty (lookup s streams)) in
    let (rest, n'') = clamp_streams m n' ids streams in (ops ++ rest, n'')

-- Sorted by time, then stream, then place in the stream.
abbrev pub stays_before : StreamOp → StreamOp → Bool
stays_before a c =
    if not (a.op.t == c.op.t)
    then leb_ℤ a.op.t c.op.t
    else if not (a.stream_id == c.stream_id)
    then leb_ℤ a.stream_id c.stream_id
    else leb a.local_idx c.local_idx

unfoldable pub assign_ids : ℕ → List StreamOp → List Op
assign_ids i [] = []
assign_ids i (so ∷ ops) = record so.op { op_id = some (pos i) } ∷ assign_ids (suc i) ops

abbrev pub last_time : List StreamOp → ℤ
last_time [] = pos 0
last_time (so ∷ []) = so.op.t
last_time (so ∷ so' ∷ ops) = last_time (so' ∷ ops)

pub record Assembled : Type 0 where
  pub header : Header
  pub ops : List Op
  pub ids : List ℤ
  pub clamped : ℕ

unfoldable pub assemble : Builder → HeaderMeta → Assembled
unfolding stream_ids min_timestamp clamp_streams sort_stable assign_ids sum_bytes count_partials
assemble b meta =
    let ids = stream_ids b.per_stream in
    let (merged, clamped) =
      clamp_streams (min_timestamp none ids b.per_stream) b.report.timestamp_clamped ids
        b.per_stream in
    let all = sort_stable stays_before merged in
    let ops = assign_ids 0 all in
    let summary : Summary = record {
      num_ops = pos (length all);
      num_streams = pos (length ids);
      num_groups = pos 0;
      total_bytes = sum_bytes (pos 0) ops;
      duration_ns = last_time all;
      num_partial_reads = pos (count_partials 0 ops);
    } in
    let header : Header = record {
      version = pos (min_version_for_ops ops);
      kind = meta.kind;
      profile = "";
      generated_by = meta.generated_by;
      created_utc = meta.created_utc;
      time_unit = "ns";
      capture_method = meta.capture_method;
      capture_limitations = meta.capture_limitations;
      scrubbed = false;
      targets = b.targets;
      summary = summary;
      notes = meta.notes;
      transformations = [];
    } in
    record { header = header; ops = ops; ids = ids; clamped = clamped }
