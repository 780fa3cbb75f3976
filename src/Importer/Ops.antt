-- ===== src/Importer/Ops.antt =====
-- pkg/importer: the ops that strace/parse.go and dftracer/parse.go add by the same text.
use ioflux.Prelude.{
  pos, ℤ, Option, String, Bool, false, none, true, if◌then◌else◌, some, leb_ℤ, ◌==◌, [], int_eq,
}
use ioflux.Trace.Types.{mode_empty, op_read, op_write, OpKind, Op}
use ioflux.Importer.Checked.{skipped, Checked, keep_if}
use ioflux.Importer.FdTable.{Entry}

abbrev pub plain_op : ℤ → ℤ → OpKind → Option ℤ → Op
plain_op t s kind dur = record {
  t = t;
  op_id = none;
  s = s;
  op = kind;
  group = none;
  tgt = none;
  h = none;
  mode = mode_empty;
  flags = [];
  off = none;
  len = none;
  ret = none;
  dur = dur;
}

-- The entry's descriptor, with its handle.
abbrev pub with_handle : Option Entry → Checked Entry
with_handle none = skipped "unresolved_fd"
with_handle (some e) = keep_if e.has_handle "unresolved_fd" e

abbrev pub is_read : OpKind → Bool
is_read op_read = true
is_read _ = false

abbrev pub is_write : OpKind → Bool
is_write op_write = true
is_write _ = false

-- What a READ that received n bytes asked for, and whether that could be observed.
abbrev pub read_request : Option ℤ → ℤ → ℤ × Bool
read_request none n = (n, false)
read_request (some c) n = (if leb_ℤ n c then c else n, true)

abbrev pub moved_op : ℤ → ℤ → OpKind → Option ℤ → Entry → ℤ → ℤ → ℤ → Op
moved_op t s kind dur e off len n = record (plain_op t s kind dur) {
  h = some (pos e.handle);
  off = some off;
  len = some len;
  ret = if len == n then none else some n;
}

abbrev pub moved_nothing : OpKind → String
moved_nothing kind = if is_read kind then "eof_read" else "failed_syscall"
