-- ===== src/Prepare.antt =====
-- pkg/prepare/prepare.go, the modes that need no files: what the ops say of the targets' sizes, the
-- check of targets that exist, and the writer of synthetic ones, over any engine. Whether the context
-- is cancelled is a parameter, read off the state. Map reads of a missing key give zero.
use ioflux.Engine.Types.{no_error, EngineError, Engine, ObjectInfo, is_nil_error}
use ioflux.Trace.Types.{op_open, op_read, op_write, OpKind, Op, TargetInfo, transferred_bytes}
use ioflux.Payload.Fill.{normalize, Config}
pub mod Sizes
pub mod Extents
pub mod Writer
use ioflux.Prelude.{
  ℕ, pos, Option, false, Bool, List, ℤ, String, true, if◌then◌else◌, some, none, ◌∷◌, ltb_ℤ, [],
  ◌==◌, insert, lookup, add64, ◌>>=◌, ◌||◌, suc, string_eq, int_eq, not, ◌&&◌,
}

abbrev pub or_zero_size : Option ℤ → ℤ
or_zero_size none = pos 0
or_zero_size (some n) = n

pub record Metadata : Type 0 where
  pub extents : List (ℤ × ℤ)
  pub fill_config : Config

pub record Stats : Type 0 where
  pub verified : ℕ
  pub created : ℕ
  pub copied : ℕ
  pub skipped_size_unknown : ℕ
  pub derived_size_from_ops : ℕ
  pub touched_same_data : Bool

abbrev pub no_stats : Stats
no_stats = record {
  verified = 0;
  created = 0;
  copied = 0;
  skipped_size_unknown = 0;
  derived_size_from_ops = 0;
  touched_same_data = false;
}

-- The loop's variables: the extents, and the target that each open handle is of.
pub record Scan : Type 0 where
  pub extents : List (ℤ × ℤ)
  pub handle_to_idx : List (ℤ × ℤ)

abbrev pub is_data_op : OpKind → Bool
is_data_op op_read = true
is_data_op op_write = true
is_data_op _ = false

unfoldable pub raise_extent : ℤ → ℤ → Scan → Scan
raise_extent idx end st =
    if ltb_ℤ (or_zero_size (lookup idx st.extents)) end
    then record st { extents = insert idx end st.extents }
    else st

abbrev pub scan_indexed : Option ℤ → ℤ → Op → Scan → Scan
scan_indexed none off op st = st
scan_indexed (some idx) off op st =
    raise_extent idx (add64 off (or_zero_size (transferred_bytes op))) st

unfoldable pub scan_data : Bool → Option ℤ → Option ℤ → Option ℤ → Op → Scan → Scan
unfolding raise_extent
scan_data true (some off) (some len) (some h) op st =
    scan_indexed (lookup h st.handle_to_idx) off op st
scan_data _ _ _ _ op st = st

unfoldable pub scan_open : OpKind → Option ℤ → Option ℤ → Op → Scan → Scan
unfolding scan_data
scan_open op_open (some h) (some tgt) op st = record st {
  handle_to_idx = insert h tgt st.handle_to_idx;
}
scan_open k _ _ op st = scan_data (is_data_op k) op.off op.len op.h op st

unfoldable pub scan_ops : Scan → List Op → Scan
unfolding scan_open
scan_ops st [] = st
scan_ops st (op ∷ ops) = scan_ops (scan_open op.op op.h op.tgt op st) ops

unfoldable pub metadata_from_ops : List Op → Config → Metadata
unfolding scan_ops normalize
metadata_from_ops ops fill_config = record {
  extents = (scan_ops (record { extents = []; handle_to_idx = [] }) ops).extents;
  fill_config = normalize fill_config;
}

unfoldable pub size_target : List (String × ℤ) → TargetInfo → ℤ → List (String × ℤ)
size_target sizes tgt extent =
    if ltb_ℤ (pos 0) tgt.size
    then insert tgt.name tgt.size sizes
    else if ltb_ℤ (pos 0) extent
    then insert tgt.name extent sizes
    else sizes

unfoldable pub size_targets : List (String × ℤ) → List TargetInfo → Metadata → List (String × ℤ)
unfolding size_target
size_targets sizes [] meta = sizes
size_targets sizes (tgt ∷ targets) meta =
    size_targets (size_target sizes tgt (or_zero_size (lookup tgt.id meta.extents))) targets meta

unfoldable pub compute_required_sizes : List TargetInfo → Metadata → List (String × ℤ)
unfolding size_targets
compute_required_sizes targets meta = size_targets [] targets meta

pub data PrepareError : Type 0 where
  engine_failed : EngineError → PrepareError
  size_mismatch : ℤ → ℤ → PrepareError
  size_unknown : String → PrepareError
  bad_write_count : ℤ → ℤ → PrepareError
  short_count : ℤ → ℤ → PrepareError
  out_of_fuel : PrepareError

abbrev pub failure_of : EngineError → Option PrepareError
failure_of no_error = none
failure_of err = some (engine_failed err)

unfoldable pub validate_write_count : ℤ → ℤ → EngineError → Option PrepareError
validate_write_count written requested err =
    if ltb_ℤ written (pos 0) || ltb_ℤ requested written
    then some (bad_write_count written requested)
    else if not (written == requested) && is_nil_error err
    then some (short_count written requested)
    else failure_of err

module _ {S : Type 0} (engine : Engine S) (ctx_err : S → EngineError) where
  unfoldable pub check_existing : TargetInfo → ℤ → Stats → Option PrepareError × Stats
  check_existing tgt size stats =
      if tgt.size == pos 0
      then (none, record stats { skipped_size_unknown = suc stats.skipped_size_unknown })
      else if not (size == tgt.size)
      then (some (size_mismatch size tgt.size), stats)
      else (none, record stats { verified = suc stats.verified })

  abbrev pub info_for : String → S → Option (S × ObjectInfo × EngineError)
  info_for name e = if engine.caps.object_api then engine.head name e else engine.stat name e

  abbrev pub check_info :
      EngineError → TargetInfo → ObjectInfo → Stats → Option PrepareError × Stats
  check_info no_error tgt info stats = check_existing tgt info.size stats
  check_info err tgt info stats = (some (engine_failed err), stats)

  abbrev pub stopped {ℓ} : {A : Type ℓ} → Option PrepareError → A → Option A → Option A
  stopped none a rest = rest
  stopped (some why) a rest = some a

  unfoldable pub assume_existing :
      List TargetInfo → Stats → S → Option (S × Stats × Option PrepareError)
  unfolding check_existing
  assume_existing [] stats e = some (e, stats, none)
  assume_existing (tgt ∷ targets) stats e =
      stopped (failure_of (ctx_err e)) (e, stats, failure_of (ctx_err e))
        (info_for tgt.name e >>= λ r.
          stopped (check_info r.2 tgt r.1 stats).0
            (r.0, (check_info r.2 tgt r.1 stats).1, (check_info r.2 tgt r.1 stats).0)
            (assume_existing targets (check_info r.2 tgt r.1 stats).1 r.0))
