-- ===== src/Gen/Checkpoint.antt =====
-- pkg/gen/checkpoint/generate.go. The interval is given as what the code computes from its floating-point
-- seconds: the nanoseconds, and whether the seconds are finite and whether they are negative. Counts
-- and sizes of valid parameters are natural numbers. The name of a shard is a parameter, since fmt
-- makes it.
use ioflux.Trace.Types.{
  capture_synthetic, mode_empty, mode_write, op_close, op_fsync, op_open, op_write, target_file,
  trace_synthetic, OpKind, TargetInfo, Op, Header, Summary, trace_format_version,
}
use ioflux.Importer.Builder.{assign_ids, StreamOp, stays_before, or_empty, last_time}
use ioflux.Prelude.{
  ℕ, pos, String, List, [], Bool, Option, pos_part, if◌then◌else◌, ℤ, sort_stable, suc, leb_ℤ,
  ltb_ℤ, ◌⊎◌, some, lookup, ◌==◌, wrap64, none, ◌||◌, ◌/◌, ◌*◌, not, zero, ◌++◌, min, ◌∷◌, inl,
  ◌&&◌, ◌-◌, true, ◌+◌, false, ltb, insert, ◌%◌, string_eq, length, nat_eq, inr, add64,
}
pub mod Shards
pub mod Eligible

pub record Params : Type 0 where
  pub model_size : ℤ
  pub writer_ranks : ℤ
  pub write_block : ℤ
  pub num_checkpoints : ℤ
  pub interval_finite : Bool
  pub interval_negative : Bool
  pub interval_ns : ℤ
  pub fsync : String
  pub created_utc : String

pub data ParamsError : Type 0 where
  bad_model_size bad_writer_ranks too_many_ranks bad_write_block : ParamsError
  bad_num_checkpoints infinite_interval negative_interval bad_fsync : ParamsError

unfoldable pub validate_params : Params → Option ParamsError
validate_params p =
    if leb_ℤ p.model_size (pos 0)
    then some bad_model_size
    else if leb_ℤ p.writer_ranks (pos 0)
    then some bad_writer_ranks
    else if ltb_ℤ p.model_size p.writer_ranks
    then some too_many_ranks
    else if leb_ℤ p.write_block (pos 0)
    then some bad_write_block
    else if leb_ℤ p.num_checkpoints (pos 0)
    then some bad_num_checkpoints
    else if not p.interval_finite
    then some infinite_interval
    else if p.interval_negative
    then some negative_interval
    else if not (p.fsync == "per-file") && not (p.fsync == "final") && not (p.fsync == "none")
    then some bad_fsync
    else none

-- One rank's share of the model; the last takes the remainder too.
unfoldable pub shard_size : ℕ → ℕ → ℕ → ℕ
shard_size model ranks r = if suc r == ranks then model / ranks + model % ranks else model / ranks

module _ (shard_name : ℕ → ℕ → String) where
  abbrev pub shard_target : ℕ → ℕ → ℕ → ℕ → TargetInfo
  shard_target model ranks c r = record {
    id = pos (c * ranks + r);
    name = shard_name c r;
    kind = target_file;
    size = pos (shard_size model ranks r);
  }

  -- The shards of ranks r, r + 1, …: `n` of them.
  unfoldable pub rank_targets : ℕ → ℕ → ℕ → ℕ → ℕ → List TargetInfo
  unfolding shard_size
  rank_targets model ranks c r zero = []
  rank_targets model ranks c r (suc n) =
      shard_target model ranks c r ∷ rank_targets model ranks c (suc r) n

  unfoldable pub checkpoint_targets : ℕ → ℕ → ℕ → ℕ → List TargetInfo
  unfolding rank_targets
  checkpoint_targets model ranks c zero = []
  checkpoint_targets model ranks c (suc n) =
      rank_targets model ranks c 0 ranks ++ checkpoint_targets model ranks (suc c) n

  unfoldable pub build_targets : Params → List TargetInfo
  unfolding checkpoint_targets
  build_targets p =
      checkpoint_targets (pos_part p.model_size) (pos_part p.writer_ranks) 0
        (pos_part p.num_checkpoints)

abbrev pub plain_op : OpKind → ℤ → ℕ → ℕ → Op
plain_op k t r h = record {
  t = t;
  op_id = none;
  s = pos r;
  op = k;
  group = none;
  tgt = none;
  h = some (pos h);
  mode = mode_empty;
  flags = [];
  off = none;
  len = none;
  ret = none;
  dur = none;
}

abbrev pub shard_open : ℤ → ℕ → ℕ → ℕ → Op
shard_open t r h tgt = record (plain_op op_open t r h) {
  tgt = some (pos tgt);
  mode = mode_write;
  flags = "create" ∷ "trunc" ∷ [];
}

abbrev pub shard_write : ℤ → ℕ → ℕ → ℕ → ℕ → Op
shard_write t r h off n = record (plain_op op_write t r h) {
  off = some (pos off);
  len = some (pos n);
}

-- The loop over the shard's blocks, on fuel: as many turns as bytes.
unfoldable pub shard_writes : ℕ → ℤ → ℕ → ℕ → ℕ → ℕ → ℕ → List Op
shard_writes zero t r h block size off = []
shard_writes (suc fuel) t r h block size off =
    let n = min block (size - off) in
    let rest = shard_writes fuel t r h block size (off + n) in
    if ltb off size then shard_write t r h off n ∷ rest else []

-- The same loop, over the int64 that the lengths of all WRITEs are added to.
unfoldable pub written_bytes : ℕ → ℕ → ℕ → ℕ → ℤ → ℤ
written_bytes zero block size off total = total
written_bytes (suc fuel) block size off total =
    let n = min block (size - off) in
    let rest = written_bytes fuel block size (off + n) (add64 total (pos n)) in
    if ltb off size then rest else total

abbrev pub syncs : String → Bool → Bool
syncs fsync is_final = fsync == "per-file" || fsync == "final" && is_final

abbrev pub shard_end : Bool → ℤ → ℕ → ℕ → List Op
shard_end true t r h = plain_op op_fsync t r h ∷ plain_op op_close t r h ∷ []
shard_end false t r h = plain_op op_close t r h ∷ []

-- The ops of one rank in one checkpoint.
unfoldable pub shard_ops : ℤ → ℕ → ℕ → ℕ → ℕ → ℕ → Bool → List Op
unfolding shard_writes
shard_ops t r h tgt block size sync =
    shard_open t r h tgt ∷ shard_writes size t r h block size 0 ++ shard_end sync t r h

pub record Generation : Type 0 where
  pub per_stream : List (ℕ × List Op)
  pub stream_t : List (ℕ × ℤ)
  pub next_handle : ℕ
  pub total_bytes : ℤ

abbrev pub or_start : Option ℤ → ℤ
or_start none = pos 0
or_start (some t) = t

abbrev pub max_time : ℤ → ℤ → ℤ
max_time burst t = if ltb_ℤ burst t then t else burst

-- int64(c) * intervalNS
abbrev pub burst_ns : Params → ℕ → ℤ
burst_ns p c = wrap64 (pos (c * pos_part p.interval_ns))

unfoldable pub rank_turn : Params → ℕ → ℕ → Generation → Generation
unfolding shard_ops shard_size written_bytes
rank_turn p c r g =
    let ranks = pos_part p.writer_ranks in
    let size = shard_size (pos_part p.model_size) ranks r in
    let t = max_time (burst_ns p c) (or_start (lookup r g.stream_t)) in
    let sync = syncs p.fsync (suc c == pos_part p.num_checkpoints) in
    let block = pos_part p.write_block in
    let ops = shard_ops t r g.next_handle (c * ranks + r) block size sync in
    record {
      per_stream = insert r (or_empty (lookup r g.per_stream) ++ ops) g.per_stream;
      stream_t = insert r t g.stream_t;
      next_handle = suc g.next_handle;
      total_bytes = written_bytes size block size 0 g.total_bytes;
    }

unfoldable pub rank_turns : Params → ℕ → ℕ → ℕ → Generation → Generation
unfolding rank_turn
rank_turns p c r zero g = g
rank_turns p c r (suc n) g = rank_turns p c (suc r) n (rank_turn p c r g)

unfoldable pub checkpoint_turns : Params → ℕ → ℕ → Generation → Generation
unfolding rank_turns
checkpoint_turns p c zero g = g
checkpoint_turns p c (suc n) g =
    checkpoint_turns p (suc c) n (rank_turns p c 0 (pos_part p.writer_ranks) g)

abbrev pub no_generation : Generation
no_generation = record { per_stream = []; stream_t = []; next_handle = 1; total_bytes = pos 0 }

unfoldable pub generate_streams : Params → Generation
unfolding checkpoint_turns
generate_streams p = checkpoint_turns p 0 (pos_part p.num_checkpoints) no_generation

-- The stream ops with their places in the streams.
unfoldable pub place_ops : ℕ → ℕ → List Op → List StreamOp
place_ops r i [] = []
place_ops r i (op ∷ ops) =
    record { stream_id = pos r; local_idx = i; op = op } ∷ place_ops r (suc i) ops

unfoldable pub all_streams : List (ℕ × List Op) → List StreamOp
unfolding place_ops
all_streams [] = []
all_streams ((r, ops) ∷ rest) = place_ops r 0 ops ++ all_streams rest

unfoldable pub merge_and_sort : List (ℕ × List Op) → List StreamOp
unfolding all_streams sort_stable
merge_and_sort per_stream = sort_stable stays_before (all_streams per_stream)

-- The header and the ops that are written, or the error.
unfoldable pub generate :
    (ℕ → ℕ → String) → (Params → String) → Params → ParamsError ⊎ (Header × List Op)
unfolding generate_streams build_targets merge_and_sort validate_params assign_ids
generate shard_name notes p = elim (validate_params p) [
  | some why ↦ inl why
  | none ↦
      let g = generate_streams p in
      let all = merge_and_sort g.per_stream in
      let summary : Summary = record {
        num_ops = pos (length all);
        num_streams = p.writer_ranks;
        num_groups = pos 0;
        total_bytes = g.total_bytes;
        duration_ns = last_time all;
        num_partial_reads = pos 0;
      } in
      let header : Header = record {
        version = pos trace_format_version;
        kind = trace_synthetic;
        profile = "checkpoint-write";
        generated_by = "ioflux-gen 0.1.0";
        created_utc = p.created_utc;
        time_unit = "ns";
        capture_method = capture_synthetic;
        capture_limitations = "";
        scrubbed = false;
        targets = build_targets shard_name p;
        summary = summary;
        notes = notes p;
        transformations = [];
      } in
      inr (header, assign_ids 0 all)
]
