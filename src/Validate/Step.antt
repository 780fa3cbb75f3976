-- ===== src/Validate/Step.antt =====
-- pkg/trace/validate.go: one round of the loop, as a verdict and a change of the counts.
pub mod Ids
use mathlib.Core.Bool.{and-true, and_assoc}
use ioflux.Prelude.{ℕ, Bool, true, ◌&&◌, ◌≡◌, refl, length, is_none}
use ioflux.Validate.Verdict.{
  ok-forbid, ok-require_non_negative, ok-require_target, ok-require_open_handle, in_range,
  ok-introduce, fresh, ok-require_mode, ok-forbid_open_fields, live, ok-validate_ret, ok-check_dur,
  non_negative,
}
use ioflux.Trace.Types.{
  OpKind, Op, Header, mode_valid, op_close, op_delete, op_fsync, op_get, op_head, op_open, op_other,
  op_put, op_read, op_stat, op_write,
}
use ioflux.Validate.Loop.{check_kind_fields}
use ioflux.Validate.Fields.{
  Handles, forbid_positional, forbid_target, forbid_handle, require_len, require_off_len,
}
use ioflux.Validate.Report.{Report, ok}
use ioflux.Validate.Tally.{tally, field_tally_laws}

-- The verdict on the fields that the switch looks at.
abbrev pub fields_fit : OpKind → Op → Header → Handles → Bool
fields_fit op_open op h hs =
    in_range (length h.targets) op.tgt
    && fresh op.h hs
    && mode_valid op.mode
    && is_none op.off
    && is_none op.len
fields_fit op_read op h hs =
    live op op.h hs && is_none op.tgt && non_negative op.off && non_negative op.len
fields_fit op_write op h hs =
    live op op.h hs && is_none op.tgt && non_negative op.off && non_negative op.len
fields_fit op_fsync op h hs = live op op.h hs && is_none op.tgt && is_none op.off && is_none op.len
fields_fit op_close op h hs = live op op.h hs && is_none op.tgt && is_none op.off && is_none op.len
fields_fit op_get op h hs =
    in_range (length h.targets) op.tgt && is_none op.h && non_negative op.off && non_negative op.len
fields_fit op_put op h hs =
    in_range (length h.targets) op.tgt && is_none op.h && is_none op.off && non_negative op.len
fields_fit (op_other _) op h hs = true
fields_fit _ op h hs =
    in_range (length h.targets) op.tgt && is_none op.h && is_none op.off && is_none op.len

ruleset verdicts = (
  ok-forbid, ok-require_non_negative, ok-require_target, ok-require_open_handle, ok-introduce,
  ok-require_mode, ok-forbid_open_fields, ok-validate_ret, ok-check_dur, and_assoc,
)

module _ (line : ℕ) (op : Op) where
  pub ok-check_kind_fields :
      (k : OpKind) (h : Header) (hs : Handles) (rep : Report)
      → ok (check_kind_fields k line op h hs rep).1 ≡ (ok rep && fields_fit k op h hs)
  unfolding check_kind_fields forbid_positional forbid_target forbid_handle require_len
      require_off_len
  ok-check_kind_fields op_open h hs rep = simp verdicts
  ok-check_kind_fields op_read h hs rep = simp verdicts
  ok-check_kind_fields op_write h hs rep = simp verdicts
  ok-check_kind_fields op_fsync h hs rep = simp verdicts
  ok-check_kind_fields op_close h hs rep = simp verdicts
  ok-check_kind_fields op_get h hs rep = simp verdicts
  ok-check_kind_fields op_put h hs rep = simp verdicts
  ok-check_kind_fields op_stat h hs rep = simp verdicts
  ok-check_kind_fields op_head h hs rep = simp verdicts
  ok-check_kind_fields op_delete h hs rep = simp verdicts
  ok-check_kind_fields (op_other _) h hs rep = simp and-true

  pub tally-check_kind_fields :
      (k : OpKind) (h : Header) (hs : Handles) (rep : Report)
      → tally (check_kind_fields k line op h hs rep).1 ≡ tally rep
  unfolding check_kind_fields forbid_positional forbid_target forbid_handle require_len
      require_off_len
  tally-check_kind_fields op_open h hs rep = simp field_tally_laws
  tally-check_kind_fields op_read h hs rep = simp field_tally_laws
  tally-check_kind_fields op_write h hs rep = simp field_tally_laws
  tally-check_kind_fields op_fsync h hs rep = simp field_tally_laws
  tally-check_kind_fields op_close h hs rep = simp field_tally_laws
  tally-check_kind_fields op_get h hs rep = simp field_tally_laws
  tally-check_kind_fields op_put h hs rep = simp field_tally_laws
  tally-check_kind_fields op_stat h hs rep = simp field_tally_laws
  tally-check_kind_fields op_head h hs rep = simp field_tally_laws
  tally-check_kind_fields op_delete h hs rep = simp field_tally_laws
  tally-check_kind_fields (op_other _) h hs rep = refl
