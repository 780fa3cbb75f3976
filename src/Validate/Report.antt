-- ===== src/Validate/Report.antt =====
-- pkg/trace/validate.go: `Issue`, `Report` and the two ways to add to a report. A message is a value
-- with the arguments that its format string prints.
use ioflux.Prelude.{
  ℕ, String, Bool, false, List, [], ◌∷◌, ◌++◌, ◌≡◌, refl, ℤ, is_nil, is_nil-append_cons,
}
use ioflux.Trace.Types.{OpKind, Mode, TraceKind, CaptureMethod, TargetKind, Header}

pub data Msg : Type 0 where
  non_monotonic : ℤ → ℤ → Msg
  unknown_op_kind : OpKind → Msg
  must_not_carry : OpKind → Msg
  missing_required : OpKind → Msg
  missing_required_field : Msg
  must_be_array must_be_object must_be_non_negative : Msg
  value_non_negative : ℤ → Msg
  kind_non_negative : OpKind → ℤ → Msg
  duplicate_handle : ℤ → ℕ → Msg
  invalid_mode : Mode → Msg
  duplicate_op_id : ℤ → ℕ → Msg
  op_id_not_ordered : ℤ → ℤ → ℤ → ℤ → Msg
  tgt_out_of_range : ℤ → ℕ → Msg
  unknown_handle closed_handle : OpKind → ℤ → Msg
  foreign_handle : OpKind → ℤ → ℤ → ℤ → Msg
  ret_not_representable : OpKind → Msg
  ret_exceeds_len : ℤ → ℤ → Msg
  ret_requires_version : ℕ → ℤ → Msg
  unsupported_version : ℤ → Msg
  invalid_kind : TraceKind → Msg
  unsupported_time_unit : String → Msg
  invalid_capture_method : CaptureMethod → Msg
  must_declare : TraceKind → Msg
  captured_cannot_use imported_must_use synthetic_cannot_use : CaptureMethod → Msg
  target_id_mismatch : ℕ → ℤ → Msg
  target_missing : ℕ → Msg
  target_invalid_kind : ℕ → TargetKind → Msg
  target_negative_size : ℕ → ℤ → Msg
  declares_but_contains : ℤ → ℕ → Msg
  never_closed : ℤ → ℤ → ℤ → Msg

pub record Issue : Type 0 where
  pub line : ℕ
  pub field : String
  pub msg : Msg

pub record Report : Type 0 where
  pub header : Header
  pub num_ops_read : ℕ
  pub num_partial_reads : ℕ
  pub streams : List (ℤ × ℕ)
  pub errors : List Issue
  pub warnings : List Issue

unfoldable pub ok : Report → Bool
ok rep = is_nil rep.errors

unfoldable pub add_error : ℕ → String → Msg → Report → Report
add_error line field msg rep = record rep {
  errors = rep.errors ++ record { line = line; field = field; msg = msg } ∷ [];
}

unfoldable pub add_warning : ℕ → String → Msg → Report → Report
add_warning line field msg rep = record rep {
  warnings = rep.warnings ++ record { line = line; field = field; msg = msg } ∷ [];
}

module _ (line : ℕ) (field : String) (msg : Msg) (rep : Report) where
  -- No later call takes an error back.
  pub ok-add_error : ok (add_error line field msg rep) ≡ false
  unfolding ok add_error
  ok-add_error = is_nil-append_cons rep.errors _

  pub ok-add_warning : ok (add_warning line field msg rep) ≡ ok rep
  unfolding ok add_warning
  ok-add_warning = refl

  pub header-add_error : (add_error line field msg rep).header ≡ rep.header
  unfolding add_error
  header-add_error = refl
