-- ===== src/Validate/Header/Tally.antt =====
-- pkg/trace/validate.go: the header's checks add errors and change nothing else of a report.
use ioflux.Prelude.{ℕ, suc, String, Option, none, some, List, [], ◌∷◌, ◌≡◌, refl, ℤ, ◌∙◌}
use ioflux.Trace.Types.{
  kind_empty, target_empty, trace_captured, trace_imported, trace_synthetic, TargetKind, Header,
  CaptureMethod, TargetInfo, TraceKind, Summary,
}
use ioflux.Validate.Header.{
  raw_null, raw_object, raw_other, check_version, validate_header, require_summary_key,
  check_raw_targets, check_capture_method, check_capture, validate_header_presence,
  check_raw_summary, require_raw, check_target_kind, check_summary, check_targets, check_target,
  check_kind, check_time_unit, check_count, require_capture, RawValue, RawHeader,
}
use ioflux.Validate.Report.{Report}
use ioflux.Validate.Tally.{tally, tally_laws}

tally-require_summary_key :
    (keys : List String) (k f : String) (rep : Report)
    → tally (require_summary_key keys k f rep) ≡ tally rep
unfolding require_summary_key
tally-require_summary_key keys k f rep = simp tally_laws

tally-check_raw_summary :
    (o : Option RawValue) (rep : Report) → tally (check_raw_summary o rep) ≡ tally rep
unfolding check_raw_summary
tally-check_raw_summary none rep = refl
tally-check_raw_summary (some raw_null) rep = simp tally_laws
tally-check_raw_summary (some raw_other) rep = refl
tally-check_raw_summary (some (raw_object keys)) rep = simp tally-require_summary_key

tally-check_raw_targets :
    (o : Option RawValue) (rep : Report) → tally (check_raw_targets o rep) ≡ tally rep
unfolding check_raw_targets
tally-check_raw_targets none rep = refl
tally-check_raw_targets (some raw_null) rep = simp tally_laws
tally-check_raw_targets (some raw_other) rep = refl
tally-check_raw_targets (some (raw_object keys)) rep = refl

tally-require_raw :
    (o : Option RawValue) (f : String) (rep : Report) → tally (require_raw o f rep) ≡ tally rep
unfolding require_raw
tally-require_raw none f rep = simp tally_laws
tally-require_raw (some v) f rep = refl

pub tally-validate_header_presence :
    (o : Option RawHeader) (rep : Report) → tally (validate_header_presence o rep) ≡ tally rep
unfolding validate_header_presence
tally-validate_header_presence none rep = refl
tally-validate_header_presence (some obj) rep =
    simp (tally-check_raw_summary, tally-check_raw_targets, tally-require_raw)

tally-check_version : (v : ℤ) (rep : Report) → tally (check_version v rep) ≡ tally rep
unfolding check_version
tally-check_version v rep = simp tally_laws

tally-check_kind : (k : TraceKind) (rep : Report) → tally (check_kind k rep) ≡ tally rep
unfolding check_kind
tally-check_kind kind_empty rep = simp tally_laws
tally-check_kind _ rep = simp tally_laws

tally-check_time_unit : (u : String) (rep : Report) → tally (check_time_unit u rep) ≡ tally rep
unfolding check_time_unit
tally-check_time_unit u rep = simp tally_laws

tally-check_capture_method :
    (m : CaptureMethod) (rep : Report) → tally (check_capture_method m rep) ≡ tally rep
unfolding check_capture_method
tally-check_capture_method m rep = simp tally_laws

tally-check_capture :
    (k : TraceKind) (h : Header) (rep : Report) → tally (check_capture k h rep) ≡ tally rep
unfolding check_capture require_capture
tally-check_capture trace_captured h rep = simp tally_laws
tally-check_capture trace_imported h rep = simp tally_laws
tally-check_capture trace_synthetic h rep = simp tally_laws
tally-check_capture _ h rep = refl

tally-check_target_kind :
    (k : TargetKind) (i : ℕ) (rep : Report) → tally (check_target_kind k i rep) ≡ tally rep
unfolding check_target_kind
tally-check_target_kind target_empty i rep = simp tally_laws
tally-check_target_kind _ i rep = simp tally_laws

tally-check_target :
    (i : ℕ) (t : TargetInfo) (rep : Report) → tally (check_target i t rep) ≡ tally rep
unfolding check_target
tally-check_target i t rep = simp (tally_laws, tally-check_target_kind)

tally-check_targets :
    (i : ℕ) (ts : List TargetInfo) (rep : Report) → tally (check_targets i ts rep) ≡ tally rep
unfolding check_targets
tally-check_targets i [] rep = refl
tally-check_targets i (t ∷ ts) rep =
    tally-check_targets (suc i) ts (check_target i t rep) ∙ tally-check_target i t rep

tally-check_summary : (s : Summary) (rep : Report) → tally (check_summary s rep) ≡ tally rep
unfolding check_summary check_count
tally-check_summary s rep = simp tally_laws

pub tally-validate_header : (h : Header) (rep : Report) → tally (validate_header h rep) ≡ tally rep
unfolding validate_header
tally-validate_header h rep = simp (
  tally-check_summary, tally-check_targets, tally-check_capture, tally-check_capture_method,
  tally-check_time_unit, tally-check_kind, tally-check_version,
)
