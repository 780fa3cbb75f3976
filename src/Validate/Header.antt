-- ===== src/Validate/Header.antt =====
-- pkg/trace/validate.go, `validateHeaderPresence` and `validateHeader`.
pub mod Tally
use ioflux.Prelude.{
  ℕ, suc, String, Bool, true, false, ◌&&◌, ◌||◌, Option, none, some, List, [], ◌∷◌, ◌==◌,
  if◌then◌else◌, ℤ, pos, ltb_ℤ, not, int_eq, string_eq,
}
use ioflux.Trace.Types.{
  Header, TargetInfo, Summary, TraceKind, CaptureMethod, TargetKind, kind_empty, trace_captured,
  trace_imported, trace_synthetic, trace_kind_valid, capture_empty, capture_synthetic,
  capture_method_valid, is_import, target_empty, target_kind_valid, trace_format_version,
  trace_format_version_max,
}
use ioflux.Validate.Report.{
  Report, add_error, missing_required_field, must_be_array, must_be_object, must_be_non_negative,
  unsupported_version, invalid_kind, unsupported_time_unit, invalid_capture_method, must_declare,
  captured_cannot_use, imported_must_use, synthetic_cannot_use, target_id_mismatch, target_missing,
  target_invalid_kind, target_negative_size,
}

-- A raw JSON value of the header line, as far as the presence checks look at it.
pub data RawValue : Type 0 where
  raw_null raw_other : RawValue
  raw_object : List String → RawValue

abbrev pub RawHeader : Type 0
RawHeader = List (String × RawValue)

unfoldable pub raw_lookup : String → RawHeader → Option RawValue
raw_lookup k [] = none
raw_lookup k ((j, v) ∷ m) = if j == k then some v else raw_lookup k m

unfoldable pub has_key : String → List String → Bool
has_key k [] = false
has_key k (j ∷ js) = (j == k) || has_key k js

unfoldable pub require_summary_key : List String → String → String → Report → Report
unfolding has_key
require_summary_key keys key field rep =
    if has_key key keys then rep else add_error 1 field missing_required_field rep

unfoldable pub check_raw_targets : Option RawValue → Report → Report
check_raw_targets (some raw_null) rep = add_error 1 "targets" must_be_array rep
check_raw_targets _ rep = rep

unfoldable pub check_raw_summary : Option RawValue → Report → Report
unfolding require_summary_key
check_raw_summary (some raw_null) rep = add_error 1 "summary" must_be_object rep
check_raw_summary (some (raw_object keys)) rep =
    let rep1 = require_summary_key keys "num_ops" "summary.num_ops" rep in
    let rep2 = require_summary_key keys "num_streams" "summary.num_streams" rep1 in
    let rep3 = require_summary_key keys "num_groups" "summary.num_groups" rep2 in
    let rep4 = require_summary_key keys "total_bytes" "summary.total_bytes" rep3 in
    require_summary_key keys "duration_ns" "summary.duration_ns" rep4
check_raw_summary _ rep = rep

unfoldable pub require_raw : Option RawValue → String → Report → Report
require_raw none field rep = add_error 1 field missing_required_field rep
require_raw (some v) field rep = rep

-- `none`: the header line does not decode into a JSON object.
unfoldable pub validate_header_presence : Option RawHeader → Report → Report
unfolding raw_lookup check_raw_targets check_raw_summary require_raw
validate_header_presence none rep = rep
validate_header_presence (some obj) rep =
    let rep1 = require_raw (raw_lookup "targets" obj) "targets" rep in
    let rep2 = require_raw (raw_lookup "summary" obj) "summary" rep1 in
    check_raw_summary (raw_lookup "summary" obj) (check_raw_targets (raw_lookup "targets" obj) rep2)

unfoldable pub check_version : ℤ → Report → Report
check_version v rep =
    if v == pos 0
    then add_error 1 "ioflux_trace_version" missing_required_field rep
    else if ltb_ℤ v (pos trace_format_version) || ltb_ℤ (pos trace_format_version_max) v
    then add_error 1 "ioflux_trace_version" (unsupported_version v) rep
    else rep

unfoldable pub check_kind : TraceKind → Report → Report
check_kind kind_empty rep = add_error 1 "kind" missing_required_field rep
check_kind k rep = if trace_kind_valid k then rep else add_error 1 "kind" (invalid_kind k) rep

unfoldable pub check_time_unit : String → Report → Report
check_time_unit u rep =
    if u == ""
    then add_error 1 "time_unit" missing_required_field rep
    else if u == "ns"
    then rep
    else add_error 1 "time_unit" (unsupported_time_unit u) rep

abbrev pub is_capture_empty : CaptureMethod → Bool
is_capture_empty capture_empty = true
is_capture_empty _ = false

abbrev pub is_capture_synthetic : CaptureMethod → Bool
is_capture_synthetic capture_synthetic = true
is_capture_synthetic _ = false

unfoldable pub check_capture_method : CaptureMethod → Report → Report
check_capture_method m rep =
    if not (is_capture_empty m) && not (capture_method_valid m)
    then add_error 1 "capture_method" (invalid_capture_method m) rep
    else rep

-- What captured and imported traces must declare.
unfoldable pub require_capture : Header → Report → Report
require_capture h rep =
    let rep1 =
      if is_capture_empty h.capture_method
      then add_error 1 "capture_method" (must_declare h.kind) rep
      else rep in
    if h.capture_limitations == ""
    then add_error 1 "capture_limitations" (must_declare h.kind) rep1
    else rep1

-- The capture methods that each kind of trace can use.
unfoldable pub check_capture : TraceKind → Header → Report → Report
unfolding require_capture
check_capture trace_captured h rep =
    let rep1 = require_capture h rep in
    if is_capture_synthetic h.capture_method || is_import h.capture_method
    then add_error 1 "capture_method" (captured_cannot_use h.capture_method) rep1
    else rep1
check_capture trace_imported h rep =
    let rep1 = require_capture h rep in
    if not (is_capture_empty h.capture_method) && not (is_import h.capture_method)
    then add_error 1 "capture_method" (imported_must_use h.capture_method) rep1
    else rep1
check_capture trace_synthetic h rep =
    if not (is_capture_empty h.capture_method) && not (is_capture_synthetic h.capture_method)
    then add_error 1 "capture_method" (synthetic_cannot_use h.capture_method) rep
    else rep
check_capture _ h rep = rep

unfoldable pub check_target_kind : TargetKind → ℕ → Report → Report
check_target_kind target_empty i rep = add_error 1 "targets.kind" (target_missing i) rep
check_target_kind k i rep =
    if target_kind_valid k then rep else add_error 1 "targets.kind" (target_invalid_kind i k) rep

unfoldable pub check_target : ℕ → TargetInfo → Report → Report
unfolding check_target_kind
check_target i t rep =
    let rep1 =
      if t.id == pos i then rep else add_error 1 "targets" (target_id_mismatch i t.id) rep in
    let rep2 = if t.name == "" then add_error 1 "targets.name" (target_missing i) rep1 else rep1 in
    let rep3 = check_target_kind t.kind i rep2 in
    if ltb_ℤ t.size (pos 0)
    then add_error 1 "targets.size" (target_negative_size i t.size) rep3
    else rep3

unfoldable pub check_targets : ℕ → List TargetInfo → Report → Report
unfolding check_target
check_targets i [] rep = rep
check_targets i (t ∷ ts) rep = check_targets (suc i) ts (check_target i t rep)

unfoldable pub check_count : String → ℤ → Report → Report
check_count field n rep =
    if ltb_ℤ n (pos 0) then add_error 1 field must_be_non_negative rep else rep

unfoldable pub check_summary : Summary → Report → Report
unfolding check_count
check_summary s rep =
    let rep1 = check_count "summary.num_ops" s.num_ops rep in
    let rep2 = check_count "summary.num_streams" s.num_streams rep1 in
    let rep3 = check_count "summary.num_groups" s.num_groups rep2 in
    let rep4 = check_count "summary.total_bytes" s.total_bytes rep3 in
    check_count "summary.duration_ns" s.duration_ns rep4

unfoldable pub validate_header : Header → Report → Report
unfolding check_version check_kind check_time_unit check_capture_method check_capture check_targets
    check_summary
validate_header h rep =
    let rep1 = check_kind h.kind (check_version h.version rep) in
    let rep2 = check_capture_method h.capture_method (check_time_unit h.time_unit rep1) in
    check_summary h.summary (check_targets 0 h.targets (check_capture h.kind h rep2))
