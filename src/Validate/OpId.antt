-- ===== src/Validate/OpId.antt =====
-- pkg/trace/validate.go, `validateOpID`: the ids seen so far and the last id of each stream and group.
use ioflux.Prelude.{
  ℕ, Option, none, some, List, if◌then◌else◌, ℤ, pos, ltb_ℤ, leb_ℤ, lookup, insert, int_eq, pair_eq,
}
use ioflux.Trace.Types.{Op}
use ioflux.Validate.Report.{
  Report, add_error, missing_required_field, value_non_negative, duplicate_op_id, op_id_not_ordered,
}

pub record Ids : Type 0 where
  pub seen : List (ℤ × ℕ)
  pub last_by_group : List ((ℤ × ℤ) × ℤ)

abbrev pub group_of : Option ℤ → ℤ
group_of none = pos 0
group_of (some g) = g

abbrev pub stream_group : Op → ℤ × ℤ
stream_group op = (op.s, group_of op.group)

unfoldable pub check_sign : ℤ → ℕ → Report → Report
check_sign id line rep =
    if ltb_ℤ id (pos 0) then add_error line "op_id" (value_non_negative id) rep else rep

unfoldable pub check_seen : Option ℕ → ℤ → ℕ → Ids → Report → Ids × Report
check_seen (some prev) id line ids rep = (ids, add_error line "op_id" (duplicate_op_id id prev) rep)
check_seen none id line ids rep = (record ids { seen = insert id line ids.seen }, rep)

unfoldable pub check_order : Option ℤ → ℤ → ℕ → Op → Report → Report
check_order none id line op rep = rep
check_order (some last) id line op rep =
    if leb_ℤ id last
    then add_error line "op_id" (op_id_not_ordered id last op.s (group_of op.group)) rep
    else rep

unfoldable pub validate_id : Option ℤ → ℕ → Op → Ids → Report → Ids × Report
unfolding check_sign check_seen check_order
validate_id none line op ids rep = (ids, add_error line "op_id" missing_required_field rep)
validate_id (some id) line op ids rep =
    let (ids1, rep1) = check_seen (lookup id ids.seen) id line ids (check_sign id line rep) in
    (
      record ids1 { last_by_group = insert (stream_group op) id ids1.last_by_group },
      check_order (lookup (stream_group op) ids1.last_by_group) id line op rep1,
    )

unfoldable pub validate_op_id : ℕ → Op → Ids → Report → Ids × Report
unfolding validate_id
validate_op_id line op ids rep = validate_id op.op_id line op ids rep
