-- ===== src/Validate/Fields.antt =====
-- pkg/trace/validate.go: the checks of one op's fields. `rep` is the report so far, and each check
-- returns the report after it.
use ioflux.Prelude.{
  ℕ, String, Bool, true, false, ◌&&◌, ◌||◌, Option, none, some, List, ◌==◌, if◌then◌else◌, ℤ, pos,
  ltb_ℤ, leb_ℤ, length, lookup, insert, int_eq, pair_eq, not, is_nil,
}
use ioflux.Trace.Types.{
  Header, Op, OpKind, Mode, mode_empty, mode_valid, op_open, op_read, op_get, min_version,
}
use ioflux.Validate.Report.{
  Report, add_error, must_not_carry, missing_required, value_non_negative, kind_non_negative,
  duplicate_handle, invalid_mode, tgt_out_of_range, unknown_handle, closed_handle, foreign_handle,
  ret_not_representable, ret_exceeds_len, ret_requires_version,
}

pub record HandleState : Type 0 where
  pub stream : ℤ
  pub target : ℤ
  pub open_line : ℕ
  pub closed : Bool

abbrev pub Handles : Type 0
Handles = List (ℤ × HandleState)

-- An error if the field is there, as the four `forbid` functions do.
unfoldable pub forbid : String → ℕ → Op → Option ℤ → Report → Report
forbid field line op none rep = rep
forbid field line op (some v) rep = add_error line field (must_not_carry op.op) rep

unfoldable pub forbid_target : ℕ → Op → Report → Report
unfolding forbid
forbid_target line op rep = forbid "tgt" line op op.tgt rep

unfoldable pub forbid_handle : ℕ → Op → Report → Report
unfolding forbid
forbid_handle line op rep = forbid "h" line op op.h rep

unfoldable pub forbid_positional : ℕ → Op → Report → Report
unfolding forbid
forbid_positional line op rep = forbid "len" line op op.len (forbid "off" line op op.off rep)

-- An error if the field is missing or negative.
unfoldable pub require_non_negative : String → ℕ → Op → Option ℤ → Report → Report
require_non_negative field line op none rep = add_error line field (missing_required op.op) rep
require_non_negative field line op (some v) rep =
    if ltb_ℤ v (pos 0) then add_error line field (kind_non_negative op.op v) rep else rep

unfoldable pub require_len : ℕ → Op → Report → Report
unfolding require_non_negative
require_len line op rep = require_non_negative "len" line op op.len rep

unfoldable pub require_off_len : ℕ → Op → Report → Report
unfolding require_non_negative require_len
require_off_len line op rep = require_len line op (require_non_negative "off" line op op.off rep)

-- `none` is the result (0, false).
unfoldable pub require_target_in : Option ℤ → ℕ → Op → Header → Report → Option ℤ × Report
require_target_in none line op h rep = (none, add_error line "tgt" (missing_required op.op) rep)
require_target_in (some t) line op h rep =
    if ltb_ℤ t (pos 0) || leb_ℤ (pos (length h.targets)) t
    then (none, add_error line "tgt" (tgt_out_of_range t (length h.targets)) rep)
    else (some t, rep)

unfoldable pub require_target : ℕ → Op → Header → Report → Option ℤ × Report
unfolding require_target_in
require_target line op h rep = require_target_in op.tgt line op h rep

unfoldable pub check_state : Option HandleState → ℤ → ℕ → Op → Report → Bool × Report
check_state none h line op rep = (false, add_error line "h" (unknown_handle op.op h) rep)
check_state (some st) h line op rep =
    if st.closed
    then (false, add_error line "h" (closed_handle op.op h) rep)
    else if not (st.stream == op.s)
    then (false, add_error line "h" (foreign_handle op.op h st.stream op.s) rep)
    else (true, rep)

unfoldable pub require_open_handle_in : Option ℤ → ℕ → Op → Handles → Report → Bool × Report
unfolding check_state
require_open_handle_in none line op handles rep =
    (false, add_error line "h" (missing_required op.op) rep)
require_open_handle_in (some h) line op handles rep = check_state (lookup h handles) h line op rep

unfoldable pub require_open_handle : ℕ → Op → Handles → Report → Bool × Report
unfolding require_open_handle_in
require_open_handle line op handles rep = require_open_handle_in op.h line op handles rep

-- The handle of an OPEN: missing, taken, or put in the table if the target was good.
unfoldable pub introduce_at :
    Option HandleState → Option ℤ → ℤ → ℕ → Op → Handles → Report → Handles × Report
introduce_at (some prev) tgt h line op handles rep =
    (handles, add_error line "h" (duplicate_handle h prev.open_line) rep)
introduce_at none none h line op handles rep = (handles, rep)
introduce_at none (some t) h line op handles rep =
    (insert h (record { stream = op.s; target = t; open_line = line; closed = false }) handles, rep)

unfoldable pub introduce : Option ℤ → Option ℤ → ℕ → Op → Handles → Report → Handles × Report
unfolding introduce_at
introduce none tgt line op handles rep = (handles, add_error line "h" (missing_required op.op) rep)
introduce (some h) tgt line op handles rep =
    introduce_at (lookup h handles) tgt h line op handles rep

unfoldable pub require_mode : Mode → ℕ → Op → Report → Report
require_mode mode_empty line op rep = add_error line "mode" (missing_required op.op) rep
require_mode m line op rep =
    if mode_valid m then rep else add_error line "mode" (invalid_mode m) rep

abbrev pub is_open : OpKind → Bool
is_open op_open = true
is_open _ = false

abbrev pub is_mode_empty : Mode → Bool
is_mode_empty mode_empty = true
is_mode_empty _ = false

-- Only OPEN carries a mode and flags.
unfoldable pub forbid_open_fields : ℕ → Op → Report → Report
forbid_open_fields line op rep =
    if is_open op.op
    then rep
    else let rep' =
        if is_mode_empty op.mode then rep else add_error line "mode" (must_not_carry op.op) rep in
      if is_nil op.flags then rep' else add_error line "flags" (must_not_carry op.op) rep'

abbrev pub carries_ret : OpKind → Bool
carries_ret op_read = true
carries_ret op_get = true
carries_ret _ = false

unfoldable pub check_ret_len : ℤ → Option ℤ → ℕ → Report → Report
check_ret_len r none line rep = rep
check_ret_len r (some len) line rep =
    if ltb_ℤ len r then add_error line "ret" (ret_exceeds_len r len) rep else rep

unfoldable pub check_ret : ℤ → ℕ → Op → Report → Report
unfolding check_ret_len
check_ret r line op rep =
    if not (carries_ret op.op)
    then add_error line "ret" (ret_not_representable op.op) rep
    else let rep1 =
        if ltb_ℤ r (pos 0) then add_error line "ret" (value_non_negative r) rep else rep in
      let rep2 = check_ret_len r op.len line rep1 in
      if ltb_ℤ (pos 0) rep.header.version && ltb_ℤ rep.header.version (pos (min_version op))
      then add_error line "ret" (ret_requires_version (min_version op) rep.header.version) rep2
      else rep2

unfoldable pub validate_ret_in : Option ℤ → ℕ → Op → Report → Report
unfolding check_ret
validate_ret_in none line op rep = rep
validate_ret_in (some r) line op rep = check_ret r line op rep

unfoldable pub validate_ret : ℕ → Op → Report → Report
unfolding validate_ret_in
validate_ret line op rep = validate_ret_in op.ret line op rep

unfoldable pub check_dur : Option ℤ → ℕ → Report → Report
check_dur none line rep = rep
check_dur (some d) line rep =
    if ltb_ℤ d (pos 0) then add_error line "dur" (value_non_negative d) rep else rep
