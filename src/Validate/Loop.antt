-- ===== src/Validate/Loop.antt =====
-- pkg/trace/validate.go, `ValidateWithOps`: the loop over the ops, the warnings after it and the
-- agreement with the declared summary. The callback works on a state `C` and may fail with an `E`.
use ioflux.Prelude.{
  ℕ, suc, Bool, true, false, ◌&&◌, Option, none, some, List, [], ◌∷◌, ◌==◌, if◌then◌else◌, ℤ, pos,
  ltb_ℤ, length, lookup, insert, int_eq, not,
}
use ioflux.Trace.Types.{
  Header, Op, OpKind, op_open, op_close, op_read, op_write, op_stat, op_fsync, op_put, op_get,
  op_head, op_delete, op_other, op_kind_valid, is_partial_transfer,
}
use ioflux.Trace.Reader.{End, eof, scan_error, parse_error, Stream}
use ioflux.Validate.Report.{
  Report, add_error, add_warning, non_monotonic, unknown_op_kind, never_closed,
  declares_but_contains, ok,
}
use ioflux.Validate.Fields.{
  Handles, forbid, forbid_target, forbid_handle, forbid_positional, require_len, require_off_len,
  require_target, require_open_handle, introduce, require_mode, forbid_open_fields, validate_ret,
  check_dur, check_ret, check_ret_len, check_state, introduce_at, require_non_negative,
  require_open_handle_in, require_target_in, validate_ret_in,
}
use ioflux.Validate.OpId.{Ids, validate_op_id, check_order, check_seen, check_sign, validate_id}
use ioflux.Validate.Header.{
  RawHeader, validate_header_presence, validate_header, check_capture, check_capture_method,
  check_count, check_kind, check_raw_summary, check_raw_targets, check_summary, check_target,
  check_target_kind, check_targets, check_time_unit, check_version, has_key, raw_lookup,
  require_capture, require_raw, require_summary_key,
}

-- OPEN.
unfoldable pub check_open : ℕ → Op → Header → Handles → Report → Handles × Report
check_open line op hdr handles rep =
    let (tgt, rep1) = require_target line op hdr rep in
    let (handles', rep2) = introduce op.h tgt line op handles rep1 in
    (handles', forbid_positional line op (require_mode op.mode line op rep2))

-- `st := handles[*op.H]; st.closed = true; handles[*op.H] = st`, for a handle that is there.
unfoldable pub close_at : Option ℤ → Handles → Handles
close_at none handles = handles
close_at (some h) handles = elim (lookup h handles) [
  | none ↦ handles
  | some st ↦ insert h (record st { closed = true }) handles
]

-- FSYNC and CLOSE.
unfoldable pub check_close : Bool → ℕ → Op → Handles → Report → Handles × Report
unfolding close_at
check_close closes line op handles rep =
    let (found, rep1) = require_open_handle line op handles rep in
    (
      if found && closes then close_at op.h handles else handles,
      forbid_positional line op (forbid_target line op rep1),
    )

-- The switch on the kind of op.
unfoldable pub check_kind_fields : OpKind → ℕ → Op → Header → Handles → Report → Handles × Report
unfolding check_open check_close
check_kind_fields op_open line op hdr handles rep = check_open line op hdr handles rep
check_kind_fields op_read line op hdr handles rep = (
  handles,
  require_off_len line op (forbid_target line op (require_open_handle line op handles rep).1),
)
check_kind_fields op_write line op hdr handles rep = (
  handles,
  require_off_len line op (forbid_target line op (require_open_handle line op handles rep).1),
)
check_kind_fields op_fsync line op hdr handles rep = check_close false line op handles rep
check_kind_fields op_close line op hdr handles rep = check_close true line op handles rep
check_kind_fields op_stat line op hdr handles rep =
    (handles, forbid_positional line op (forbid_handle line op (require_target line op hdr rep).1))
check_kind_fields op_get line op hdr handles rep =
    (handles, require_off_len line op (forbid_handle line op (require_target line op hdr rep).1))
check_kind_fields op_put line op hdr handles rep = (
  handles,
  require_len line op
      (forbid "off" line op op.off (forbid_handle line op (require_target line op hdr rep).1)),
)
check_kind_fields op_head line op hdr handles rep =
    (handles, forbid_positional line op (forbid_handle line op (require_target line op hdr rep).1))
check_kind_fields op_delete line op hdr handles rep =
    (handles, forbid_positional line op (forbid_handle line op (require_target line op hdr rep).1))
check_kind_fields (op_other _) line op hdr handles rep = (handles, rep)

pub record State : Type 0 where
  pub report : Report
  pub handles : Handles
  pub ids : Ids
  pub last_t : ℤ
  pub saw_any : Bool

unfoldable pub bump : ℤ → List (ℤ × ℕ) → List (ℤ × ℕ)
bump s streams = elim (lookup s streams) [
  | none ↦ insert s 1 streams
  | some n ↦ insert s (suc n) streams
]

unfoldable pub count_op : Op → Report → Report
unfolding bump
count_op op rep = record rep {
  num_ops_read = suc rep.num_ops_read;
  streams = bump op.s rep.streams;
}

unfoldable pub check_time : ℕ → Op → State → Report → Report
check_time line op st rep =
    if st.saw_any && ltb_ℤ op.t st.last_t
    then add_error line "t" (non_monotonic op.t st.last_t) rep
    else rep

abbrev pub next_last_t : Op → State → ℤ
next_last_t op st =
    if not st.saw_any then op.t else if ltb_ℤ st.last_t op.t then op.t else st.last_t

unfoldable pub count_partial : Op → Report → Report
count_partial op rep =
    if is_partial_transfer op
    then record rep { num_partial_reads = suc rep.num_partial_reads }
    else rep

-- The part of the body that every op goes through: counting, time order and the op's id.
unfoldable pub enter : ℕ → Op → State → State
unfolding count_op check_time
enter line op st =
    let (ids', rep') =
      validate_op_id line op st.ids (check_time line op st (count_op op st.report)) in
    record {
      report = rep';
      handles = st.handles;
      ids = ids';
      last_t = next_last_t op st;
      saw_any = true;
    }

-- The rest of the body, for an op of a known kind, up to the callback.
unfoldable pub check_op : ℕ → Op → State → State
unfolding check_kind_fields count_partial
check_op line op st =
    let rep1 = forbid_open_fields line op st.report in
    let (handles', rep2) = check_kind_fields op.op line op rep1.header st.handles rep1 in
    let rep3 = count_partial op (validate_ret line op rep2) in
    record st { handles = handles'; report = check_dur op.dur line rep3 }

unfoldable pub reject_kind : ℕ → Op → State → State
reject_kind line op st = record st {
  report = add_error line "op" (unknown_op_kind op.op) st.report;
}

-- A handle that was never closed is a warning.
unfoldable pub warn_open : Handles → Report → Report
warn_open [] rep = rep
warn_open ((h, st) ∷ hs) rep =
    warn_open hs
      (if st.closed then rep else add_warning 0 "open" (never_closed h st.stream st.target) rep)

unfoldable pub validate_summary_agreement : Report → Report
validate_summary_agreement rep =
    let s = rep.header.summary in
    let rep1 =
      if s.num_ops == pos rep.num_ops_read
      then rep
      else add_error 1 "summary.num_ops" (declares_but_contains s.num_ops rep.num_ops_read) rep in
    let rep2 =
      if s.num_streams == pos (length rep.streams)
      then rep1
      else add_error 1 "summary.num_streams"
          (declares_but_contains s.num_streams (length rep.streams)) rep1 in
    if s.num_partial_reads == pos rep.num_partial_reads
    then rep2
    else add_error 1 "summary.num_partial_reads"
        (declares_but_contains s.num_partial_reads rep.num_partial_reads) rep2

-- The error that ends the iteration, or the callback's.
pub data Failure (E : Type 0) : Type 0 where
  read_failed : ℕ → Failure E
  parse_failed : ℕ → Failure E
  callback_failed : E → Failure E

abbrev pub initial : Header → State
initial h = record {
  report = record {
    header = h;
    num_ops_read = 0;
    num_partial_reads = 0;
    streams = [];
    errors = [];
    warnings = [];
  };
  handles = [];
  ids = record { seen = []; last_by_group = [] };
  last_t = pos 0;
  saw_any = false;
}

unfoldable pub start : Option RawHeader → Header → State
start raw h =
    let st = initial h in
    record st { report = validate_header h (validate_header_presence raw st.report) }

unfoldable pub conclude : State → Report
unfolding warn_open validate_summary_agreement
conclude st = validate_summary_agreement (warn_open st.handles st.report)

module _ {C E : Type 0} (on_op : Op → C → Option E × C) where
  unfoldable pub after_callback : State → Option E × C → State × C × Option (Failure E)
  after_callback st (none, c) = (st, c, none)
  after_callback st (some e, c) = (st, c, some (callback_failed e))

  -- One round of the loop.
  unfoldable pub step : ℕ → Op → State → C → State × C × Option (Failure E)
  unfolding enter check_op reject_kind after_callback
  step line op st c =
      let st1 = enter line op st in
      if not (op_kind_valid op.op)
      then (reject_kind line op st1, c, none)
      else after_callback (check_op line op st1) (on_op op c)

  unfoldable pub run : List (ℕ × Op) → State → C → State × C × Option (Failure E)
  run [] st c = (st, c, none)
  run ((line, op) ∷ rest) st c =
      let (st', c', failed) = step line op st c in
      elim failed [ some e ↦ (st', c', some e) | none ↦ run rest st' c' ]

  unfoldable pub conclude_at :
      End → State × C × Option (Failure E) → Report × C × Option (Failure E)
  conclude_at end (st, c, some e) = (st.report, c, some e)
  conclude_at eof (st, c, none) = (conclude st, c, none)
  conclude_at (scan_error l) (st, c, none) = (st.report, c, some (read_failed l))
  conclude_at (parse_error l) (st, c, none) = (st.report, c, some (parse_failed l))

  unfoldable pub validate_with_ops :
      Option RawHeader → Header → Stream → C → Report × C × Option (Failure E)
  unfolding start run conclude_at conclude
  validate_with_ops raw h stream c = conclude_at stream.finish (run stream.records (start raw h) c)

-- `Validate`: no callback.
unfoldable pub validate : Option RawHeader → Header → Stream → Report × Option (Failure ⊥)
unfolding validate_with_ops step ok add_error add_warning lookup insert require_off_len check_ret
    check_ret_len check_state forbid introduce_at require_len require_mode require_non_negative
    require_open_handle_in require_target_in validate_ret_in check_capture check_capture_method
    check_count check_kind check_raw_summary check_raw_targets check_summary check_target
    check_target_kind check_targets check_time_unit check_version has_key raw_lookup require_capture
    require_raw require_summary_key after_callback bump check_close check_kind_fields check_op
    check_open check_time close_at conclude conclude_at count_op count_partial enter reject_kind run
    start validate_summary_agreement warn_open check_order check_seen check_sign validate_id
    require_open_handle introduce require_target forbid_open_fields validate_op_id validate_header
    validate_header_presence check_dur validate_ret forbid_positional forbid_handle forbid_target
validate raw h stream =
    let (rep, _, failed) =
      validate_with_ops (λ (op : Op) (c : Unit {0}). (none, c)) raw h stream tt in
    (rep, failed)
