-- ===== src/Importer/Dftracer/Handlers.antt =====
-- pkg/importer/dftracer/parse.go: what each event does, and the two passes over the lines.
use ioflux.Importer.Flags.{OpenFlags, flag_names}
use ioflux.Importer.Checked.{◌>>=◌, ignored, ok, Checked, or_skip, keep_if, or_ignore, or_natural}
use ioflux.Prelude.{
  ℕ, pair_eq, int_eq, string_eq, pos, String, Bool, Option, ℤ, some, lookup, if◌then◌else◌, none,
  not, ◌∷◌, ◌==◌, true, ltb_ℤ, [], ◌+◌, false, suc, insert, ◌&&◌,
}
use ioflux.Trace.Types.{op_close, op_fsync, op_open, op_read, op_write, target_file, OpKind}
use ioflux.Importer.Strace.Lines.{is_one_of}
use ioflux.Importer.Dftracer.Events.{
  DfParser, ret_val, DfArgs, skip_event, parse_raw_flags, settle_event, raw_int, synth_fd_base,
}
use ioflux.Importer.FdTable.{Entry, FdTable, advance, set_cursor, resolve, open_fd, close_fd}
use ioflux.Importer.Builder.{add, target, note}
use ioflux.Importer.Strace.Parser.{is_negative}
use ioflux.Importer.Ops.{
  with_handle, moved_op, is_read, plain_op, read_request, moved_nothing, is_write,
}

abbrev pub synth_known : String → DfParser → Option ℤ → DfParser × ℤ
synth_known fhash p (some fd) = (p, fd)
synth_known fhash p none =
    let fd = pos (synth_fd_base + p.next_synth_fd) in
    (record p { next_synth_fd = suc p.next_synth_fd; fhash_fd = insert fhash fd p.fhash_fd }, fd)

unfoldable pub synth_fd : String → DfParser → DfParser × ℤ
synth_fd fhash p = synth_known fhash p (lookup fhash p.fhash_fd)

abbrev pub given_key : DfParser × ℤ → DfParser × Option ℤ
given_key (p, fd) = (p, some fd)

abbrev pub hashed_key : String → DfParser → DfParser × Option ℤ
hashed_key fhash p = if fhash == "" then (p, none) else given_key (synth_fd fhash p)

abbrev pub fd_or_hash : String → DfParser → Option ℤ → DfParser × Option ℤ
fd_or_hash fhash p (some fd) = (p, some fd)
fd_or_hash fhash p none = hashed_key fhash p

unfoldable pub resolve_fd_key : DfArgs → DfParser → DfParser × Option ℤ
unfolding synth_fd
resolve_fd_key a p = fd_or_hash a.fhash p a.fd

unfoldable pub resolve_path : DfArgs → DfParser → Option String
resolve_path a p =
    if not (a.fname == "")
    then some a.fname
    else if not (a.fhash == "")
    then lookup a.fhash p.fhash_to_path
    else none

abbrev pub no_path_reason : DfArgs → String
no_path_reason a = if not (a.fhash == "") then "unresolved_fhash" else "unparseable_event"

-- The descriptor of an open: the literal one, else the one returned, else that of the hash.
abbrev pub returned_or_hash : String → DfParser → Option ℤ → DfParser × Option ℤ
returned_or_hash fhash p (some rv) = (p, some rv)
returned_or_hash fhash p none = hashed_key fhash p

abbrev pub open_key_of : Option ℤ → String → Option ℤ → DfParser → DfParser × Option ℤ
open_key_of (some fd) fhash rv p = (p, some fd)
open_key_of none fhash rv p = returned_or_hash fhash p rv

unfoldable pub open_key : DfArgs → DfParser → DfParser × Option ℤ
unfolding synth_fd ret_val
open_key a p = open_key_of a.fd a.fhash (ret_val a) p

unfoldable pub open_event : ℤ → ℤ → ℤ → String → OpenFlags → Option ℤ → DfParser → DfParser
open_event s t fd path f dur p =
    let (b', tgt) = target path target_file p.b in
    let (fdt', h) = open_fd (s, fd) (pos tgt) path f.is_app p.fdt in
    let op = record (plain_op t s op_open dur) {
      tgt = some (pos tgt);
      h = some (pos h);
      mode = f.mode;
      flags = flag_names f;
    } in
    record p { b = add op b'; fdt = fdt' }

abbrev pub open_keyed :
    ℤ → ℤ → String → OpenFlags → Option ℤ → DfParser × Option ℤ → Checked DfParser
open_keyed s t path f dur (p, key) = do
  fd ← or_skip "failed_open" key
  ok (open_event s t fd path f dur p)

unfoldable pub do_open_event : ℤ → ℤ → Option ℤ → DfArgs → DfParser → DfParser
unfolding ret_val resolve_path parse_raw_flags open_key open_event
do_open_event s t dur a p = settle_event p (do
  _ ← keep_if (not (is_negative (ret_val a))) "failed_open" t
  path ← or_skip (no_path_reason a) (resolve_path a p)
  f ← if (parse_raw_flags a.flags).is_dir then ignored else ok (parse_raw_flags a.flags)
  open_keyed s t path f dur (open_key a p))

abbrev pub event_request : OpKind → DfArgs → ℤ → ℤ × Bool
event_request kind a n = if is_read kind then read_request (raw_int a.count) n else (n, true)

abbrev pub note_event : Bool → DfParser → DfParser
note_event true p = p
note_event false p = record p { b = note "requested_len_unobservable" p.b }

-- The offset of a positional event that records it.
abbrev pub explicit_offset : Bool → Option ℤ → Option ℤ
explicit_offset true offset = offset
explicit_offset false offset = none

abbrev pub moved_at : Option ℤ → ℤ → ℤ → ℤ → OpKind → Option ℤ → Entry → ℤ → ℤ → DfParser → DfParser
moved_at (some off) s t fd kind dur e len n p = record p {
  b = add (moved_op t s kind dur e off len n) p.b;
}
moved_at none s t fd kind dur e len n p = record p {
  b = add (moved_op t s kind dur e e.cursor len n) p.b;
  fdt = advance (s, fd) n p.fdt;
}

abbrev pub rw_keyed :
    ℤ → ℤ → Option ℤ → DfArgs → OpKind → Bool → DfParser → Option ℤ → Checked DfParser
rw_keyed s t dur a kind positional p key = do
  fd ← or_skip "unresolved_fd" key
  e ← with_handle (resolve (s, fd) p.fdt)
  n ← or_natural "failed_syscall" (ret_val a)
  _ ← keep_if (not (n == pos 0)) (moved_nothing kind) n
  _ ← keep_if (not (is_write kind && e.append_mode)) "append_write_unmodeled" n
  ok (
      moved_at (explicit_offset positional a.offset) s t fd kind dur e (event_request kind a n).0 n
        (note_event (event_request kind a n).1 p))

unfoldable pub do_rw_event : ℤ → ℤ → Option ℤ → DfArgs → OpKind → Bool → DfParser → DfParser
unfolding resolve_fd_key ret_val raw_int
do_rw_event s t dur a kind positional p =
    let (p', key) = resolve_fd_key a p in
    settle_event p' (rw_keyed s t dur a kind positional p' key)

abbrev pub close_event : ℤ → ℤ → Option ℤ → FdTable × Option ℕ → DfParser → DfParser
close_event s t dur (fdt', none) p = record p { fdt = fdt' }
close_event s t dur (fdt', some h) p = record p {
  fdt = fdt';
  b = add (record (plain_op t s op_close dur) { h = some (pos h) }) p.b;
}

abbrev pub close_keyed : ℤ → ℤ → Option ℤ → DfArgs → DfParser → Option ℤ → Checked DfParser
close_keyed s t dur a p key = do
  fd ← or_ignore key
  _ ← keep_if (not (is_negative (ret_val a))) "failed_syscall" fd
  ok (close_event s t dur (close_fd (s, fd) p.fdt) p)

unfoldable pub do_close_event : ℤ → ℤ → Option ℤ → DfArgs → DfParser → DfParser
unfolding resolve_fd_key ret_val
do_close_event s t dur a p =
    let (p', key) = resolve_fd_key a p in settle_event p' (close_keyed s t dur a p' key)

abbrev pub seek_keyed : ℤ → DfArgs → DfParser → Option ℤ → Checked DfParser
seek_keyed s a p key = do
  fd ← or_ignore key
  at ← or_ignore (ret_val a)
  ok (if ltb_ℤ at (pos 0) then p else record p { fdt = set_cursor (s, fd) at p.fdt })

unfoldable pub do_lseek_event : ℤ → DfArgs → DfParser → DfParser
unfolding resolve_fd_key ret_val
do_lseek_event s a p = let (p', key) = resolve_fd_key a p in settle_event p' (seek_keyed s a p' key)

abbrev pub fsync_keyed : ℤ → ℤ → Option ℤ → DfArgs → DfParser → Option ℤ → Checked DfParser
fsync_keyed s t dur a p key = do
  fd ← or_skip "unparseable_event" key
  _ ← keep_if (not (is_negative (ret_val a))) "failed_syscall" fd
  e ← with_handle (resolve (s, fd) p.fdt)
  ok (record p { b = add (record (plain_op t s op_fsync dur) { h = some (pos e.handle) }) p.b })

unfoldable pub do_fsync_event : ℤ → ℤ → Option ℤ → DfArgs → DfParser → DfParser
unfolding resolve_fd_key ret_val
do_fsync_event s t dur a p =
    let (p', key) = resolve_fd_key a p in settle_event p' (fsync_keyed s t dur a p' key)

-- The cases of the switch over the event's name.
pub data EventCase : Type 0 where
  event_open event_close event_lseek event_fsync event_other : EventCase
  event_read event_write : Bool → EventCase

unfoldable pub event_case : String → EventCase
unfolding is_one_of
event_case name =
    if is_one_of name ("open" ∷ "open64" ∷ "openat" ∷ "creat" ∷ [])
    then event_open
    else if name == "read"
    then event_read false
    else if is_one_of name ("pread64" ∷ "pread" ∷ [])
    then event_read true
    else if name == "write"
    then event_write false
    else if is_one_of name ("pwrite64" ∷ "pwrite" ∷ [])
    then event_write true
    else if name == "close"
    then event_close
    else if is_one_of name ("lseek" ∷ "lseek64" ∷ [])
    then event_lseek
    else if is_one_of name ("fsync" ∷ "fdatasync" ∷ [])
    then event_fsync
    else event_other

unfoldable pub dispatch_event : EventCase → ℤ → ℤ → Option ℤ → DfArgs → DfParser → DfParser
unfolding do_open_event do_rw_event do_close_event do_lseek_event do_fsync_event
dispatch_event event_open s t dur a p = do_open_event s t dur a p
dispatch_event (event_read positional) s t dur a p = do_rw_event s t dur a op_read positional p
dispatch_event (event_write positional) s t dur a p = do_rw_event s t dur a op_write positional p
dispatch_event event_close s t dur a p = do_close_event s t dur a p
dispatch_event event_lseek s t dur a p = do_lseek_event s a p
dispatch_event event_fsync s t dur a p = do_fsync_event s t dur a p
dispatch_event event_other s t dur a p = skip_event "unsupported_event" p
