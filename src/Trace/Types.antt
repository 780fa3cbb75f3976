-- ===== src/Trace/Types.antt =====
-- pkg/trace/types.go. A string type with listed values is a data type with a constructor for each,
-- one for the empty string where the code tests it, and one for any other string. A pointer field is
-- an `Option`. The int64 and int fields are integers.
use ioflux.Prelude.{
  ℕ, String, Bool, true, false, Option, none, some, List, [], ◌∷◌, ltb, not, ◌==◌, if◌then◌else◌, ℤ,
  is_nil, is_some, string_eq,
}

abbrev pub trace_format_version : ℕ
trace_format_version = 1

abbrev pub trace_format_version_max : ℕ
trace_format_version_max = 3

abbrev pub version_partial_transfer : ℕ
version_partial_transfer = 2

abbrev pub version_transformed : ℕ
version_transformed = 3

pub data TraceKind : Type 0 where
  kind_empty trace_captured trace_imported trace_synthetic : TraceKind
  kind_other : String → TraceKind

abbrev pub trace_kind_valid : TraceKind → Bool
trace_kind_valid trace_captured = true
trace_kind_valid trace_imported = true
trace_kind_valid trace_synthetic = true
trace_kind_valid _ = false

-- `capture_import s` is the string "import:" followed by `s`.
pub data CaptureMethod : Type 0 where
  capture_empty capture_python_hooks capture_ebpf_syscall : CaptureMethod
  capture_mmap_aware capture_synthetic : CaptureMethod
  capture_import : String → CaptureMethod
  capture_other : String → CaptureMethod

abbrev pub is_import : CaptureMethod → Bool
is_import (capture_import s) = not (s == "")
is_import _ = false

abbrev pub capture_method_valid : CaptureMethod → Bool
capture_method_valid capture_python_hooks = true
capture_method_valid capture_ebpf_syscall = true
capture_method_valid capture_mmap_aware = true
capture_method_valid capture_synthetic = true
capture_method_valid m = is_import m

pub data Mode : Type 0 where
  mode_empty mode_read mode_write mode_read_write : Mode
  mode_other : String → Mode

abbrev pub mode_valid : Mode → Bool
mode_valid mode_read = true
mode_valid mode_write = true
mode_valid mode_read_write = true
mode_valid _ = false

pub data OpKind : Type 0 where
  op_open op_close op_read op_write op_stat op_fsync op_put op_get op_head op_delete : OpKind
  op_other : String → OpKind

abbrev pub op_kind_valid : OpKind → Bool
op_kind_valid (op_other _) = false
op_kind_valid _ = true

abbrev pub is_object_op : OpKind → Bool
is_object_op op_put = true
is_object_op op_get = true
is_object_op op_head = true
is_object_op op_delete = true
is_object_op _ = false

abbrev pub is_handle_op : OpKind → Bool
is_handle_op op_read = true
is_handle_op op_write = true
is_handle_op op_fsync = true
is_handle_op op_close = true
is_handle_op _ = false

pub data TargetKind : Type 0 where
  target_empty target_file target_object : TargetKind
  target_other : String → TargetKind

abbrev pub target_kind_valid : TargetKind → Bool
target_kind_valid target_file = true
target_kind_valid target_object = true
target_kind_valid _ = false

pub record TargetInfo : Type 0 where
  pub id : ℤ
  pub name : String
  pub kind : TargetKind
  pub size : ℤ

pub record Summary : Type 0 where
  pub num_ops : ℤ
  pub num_streams : ℤ
  pub num_groups : ℤ
  pub total_bytes : ℤ
  pub duration_ns : ℤ
  pub num_partial_reads : ℤ

pub record Transformation : Type 0 where
  pub kind : String
  pub params : List (String × String)
  pub source_digest : String
  pub applied_utc : String
  pub note : String

pub record Header : Type 0 where
  pub version : ℤ
  pub kind : TraceKind
  pub profile : String
  pub generated_by : String
  pub created_utc : String
  pub time_unit : String
  pub capture_method : CaptureMethod
  pub capture_limitations : String
  pub scrubbed : Bool
  pub targets : List TargetInfo
  pub summary : Summary
  pub notes : String
  pub transformations : List Transformation

pub min_version_for_header : Header → ℕ
min_version_for_header h =
    if not (is_nil h.transformations) then version_transformed else trace_format_version

pub is_transformed : Header → Bool
is_transformed h = not (is_nil h.transformations)

names_digest : String → List Transformation → Bool
names_digest digest [] = false
names_digest digest (t ∷ ts) =
    let rest = names_digest digest ts in if t.source_digest == digest then true else rest

pub derived_from : Header → String → Bool
unfolding names_digest
derived_from h digest = if digest == "" then false else names_digest digest h.transformations

pub record Op : Type 0 where
  pub t : ℤ
  pub op_id : Option ℤ
  pub s : ℤ
  pub op : OpKind
  pub group : Option ℤ
  pub tgt : Option ℤ
  pub h : Option ℤ
  pub mode : Mode
  pub flags : List String
  pub off : Option ℤ
  pub len : Option ℤ
  pub ret : Option ℤ
  pub dur : Option ℤ

abbrev pub version_of_ret : Option ℤ → ℕ
version_of_ret none = trace_format_version
version_of_ret (some _) = version_partial_transfer

abbrev pub min_version : Op → ℕ
min_version op = version_of_ret op.ret

max_version : ℕ → List Op → ℕ
max_version v [] = v
max_version v (op ∷ ops) = max_version (if ltb v (min_version op) then min_version op else v) ops

unfoldable pub min_version_for_ops : List Op → ℕ
unfolding max_version
min_version_for_ops ops = max_version trace_format_version ops

abbrev pub is_partial_transfer : Op → Bool
is_partial_transfer op = is_some op.ret

-- The pair (bytes, true) is `some bytes`.
abbrev pub requested_bytes : Op → Option ℤ
requested_bytes op = op.len

abbrev moved_bytes : Option ℤ → Option ℤ → Option ℤ
moved_bytes (some r) len = some r
moved_bytes none len = len

abbrev pub transferred_bytes : Op → Option ℤ
transferred_bytes op = moved_bytes op.ret (requested_bytes op)
