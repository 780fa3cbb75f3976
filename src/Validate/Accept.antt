-- ===== src/Validate/Accept.antt =====
-- pkg/trace/validate.go: a run of the loop without errors, op by op. `Accepted h st records` says
-- that each op, in the state that the ops before it left, passes every check.
use mathlib.Core.Bool.{and-false, and_assoc, false-and}
use ioflux.Prelude.{
  ℕ, Bool, true, false, ◌&&◌, ◌||◌, Option, none, some, List, [], ◌∷◌, ◌≡◌, refl, ℤ, not, ltb_ℤ,
  if◌then◌else◌, ap, arith, is_nil, Bool-cases, suc, inl, inr, insert, int_eq, length, ◌∙◌, ap₂,
  sym, Option-cases,
}
use ioflux.Validate.Loop.{
  State, reject_kind, count_partial, check_time, enter, check_op, count_op, bump, check_kind_fields,
  close_at, next_last_t, run, step, after_callback,
}
use ioflux.Trace.Types.{
  Op, Header, op_kind_valid, OpKind, op_close, op_open, is_partial_transfer, op_fsync,
}
use ioflux.Validate.Tally.{
  tally, tally_laws, tally-check_dur, tally-forbid_open_fields, Tally, tally-validate_ret,
}
use ioflux.Validate.Report.{Report, ok, ok-add_error, header-add_error}
use ioflux.Validate.Fields.{
  is_open, is_mode_empty, forbid_open_fields, Handles, introduce, require_target_in, require_target,
  introduce_at,
}
use ioflux.Validate.Step.Ids.{
  id_fits, ok-validate_op_id, tally-validate_op_id, keep_id, ids-validate_op_id,
}
use ioflux.Validate.Verdict.{
  ok-error_if, ret_fits, dur_fits, ok-check_dur, ok-validate_ret, ok-forbid_open_fields,
  found-require_open_handle, in_range, fresh,
}
use ioflux.Validate.Step.{fields_fit, ok-check_kind_fields, tally-check_kind_fields}
pub mod Next
pub mod Run

abbrev pub op_fits : Header → State → Op → Bool
op_fits h st op =
    not (st.saw_any && ltb_ℤ op.t st.last_t)
    && id_fits op.op_id op st.ids
    && op_kind_valid op.op
    && (is_open op.op || is_mode_empty op.mode && is_nil op.flags)
    && fields_fit op.op op h st.handles
    && ret_fits h.version op op.ret
    && dur_fits op.dur

-- The state after one op, the callback aside.
unfoldable pub next : ℕ → Op → State → State
next line op st =
    let st1 = enter line op st in
    if not (op_kind_valid op.op) then reject_kind line op st1 else check_op line op st1

-- The handles after an op that passed its checks.
abbrev pub open_handle : Option ℤ → Option ℤ → ℕ → Op → Handles → Handles
open_handle (some h) (some t) line op hs =
    insert h (record { stream = op.s; target = t; open_line = line; closed = false }) hs
open_handle _ _ line op hs = hs

abbrev pub handles_after : OpKind → ℕ → Op → Handles → Handles
handles_after op_open line op hs = open_handle op.h op.tgt line op hs
handles_after op_close line op hs = close_at op.h hs
handles_after _ line op hs = hs

-- The counts after an op: it and its stream, and a transfer that is partial.
abbrev pub count_in : Op → Tally → Tally
count_in op t = record t { num_ops_read = suc t.num_ops_read; streams = bump op.s t.streams }

abbrev pub count_ret : Op → Tally → Tally
count_ret op t =
    if is_partial_transfer op then record t { num_partial_reads = suc t.num_partial_reads } else t

pub and_head : (a b : Bool) → (a && b) ≡ true → a ≡ true
and_head a b h = ground arith

pub and_tail : (a b : Bool) → (a && b) ≡ true → b ≡ true
and_tail a b h = ground arith

module _ (op : Op) where
  pub valid_of_fits :
      (h : Header) (st : State) → op_fits h st op ≡ true → op_kind_valid op.op ≡ true
  valid_of_fits h st e = ground arith

  pub time_of_fits :
      (h : Header) (st : State)
      → op_fits h st op ≡ true
      → not (st.saw_any && ltb_ℤ op.t st.last_t) ≡ true
  time_of_fits h st e =
      and_head _ _ (and_head _ _ (and_head _ _ (and_head _ _ (and_head _ _ (and_head _ _ e)))))

  pub open_of_fits :
      (h : Header) (st : State)
      → op_fits h st op ≡ true
      → (is_open op.op || is_mode_empty op.mode && is_nil op.flags) ≡ true
  open_of_fits h st e = and_tail _ _ (and_head _ _ (and_head _ _ (and_head _ _ e)))

  pub ret_of_fits :
      (h : Header) (st : State)
      → op_fits h st op ≡ true
      → (ret_fits h.version op op.ret ≡ true) × (dur_fits op.dur ≡ true)
  ret_of_fits h st e = (and_tail _ _ (and_head _ _ e), and_tail _ _ e)

  pub id_of_fits :
      (h : Header) (st : State) → op_fits h st op ≡ true → id_fits op.op_id op st.ids ≡ true
  id_of_fits h st e =
      and_tail _ _ (and_head _ _ (and_head _ _ (and_head _ _ (and_head _ _ (and_head _ _ e)))))

  pub fields_of_fits :
      (h : Header) (st : State) → op_fits h st op ≡ true → fields_fit op.op op h st.handles ≡ true
  fields_of_fits h st e = and_tail _ _ (and_head _ _ (and_head _ _ e))
