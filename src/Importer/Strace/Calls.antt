-- ===== src/Importer/Strace/Calls.antt =====
-- pkg/importer/strace/parse.go: what each system call does. A handler that returns early counts a
-- skipped call or does nothing (Checked).
use ioflux.Importer.Checked.{◌>>=◌, ok, or_natural, keep_if, or_ignore, Checked, or_skip}
use ioflux.Importer.Flags.{OpenFlags, parse_open_flags, flag_names}
use ioflux.Prelude.{
  ℕ, pos, List, Option, String, ℤ, Bool, cut_prefix, ◌==◌, is_some, if◌then◌else◌, none, some, ◌∷◌,
  false, true, text_append, ◌||◌, [], string_eq, int_eq, nat_eq, not, ◌&&◌, ltb_ℤ,
}
use ioflux.Trace.Types.{mode_write, op_close, op_fsync, op_open, op_stat, target_file, OpKind, Mode}
use ioflux.Importer.Strace.Parser.{failed_ret, Parser, struct_field, settle, arg_at}
use ioflux.Importer.FdTable.{
  path_for, Entry, FdTable, open_dir, advance, open_fd, resolve, close_fd, set_cursor,
}
use ioflux.Importer.Strace.Scan.{parse_leading_int, trim_right}
use ioflux.Importer.Strace.Quoted.{parse_quoted, split_fd_arg}
use ioflux.Importer.Builder.{add, note, target}
use ioflux.Importer.Ops.{
  with_handle, moved_op, is_read, plain_op, moved_nothing, read_request, is_write,
}

-- parseLeadingInt(a[0])
abbrev pub first_int : List String → Option ℤ
first_int [] = none
first_int (a ∷ args) = parse_leading_int a

abbrev pub decorated_path : Option String → String → Option String
decorated_path (some path) deco = some path
decorated_path none deco = if deco == "" then none else some deco

abbrev pub path_or_deco : ℤ → FdTable → Option (ℤ × String) → Option String
path_or_deco s fdt none = none
path_or_deco s fdt (some (fd, deco)) = decorated_path (path_for (s, fd) fdt) deco

unfoldable pub fd_target : ℤ → String → FdTable → Option String
unfolding path_for split_fd_arg
fd_target s fd_arg fdt = path_or_deco s fdt (split_fd_arg fd_arg)

abbrev pub is_slash : ℕ → Bool
is_slash c = c == b'/'

abbrev pub join_path : Option String → String → Option String
join_path none path = none
join_path (some dir) path = some (text_append (trim_right is_slash dir) (text_append "/" path))

unfoldable pub resolve_at : ℤ → String → String → FdTable → Option String
unfolding fd_target cut_prefix trim_right
resolve_at s dirfd_arg path fdt =
    if is_some (cut_prefix "/" path) || is_some (cut_prefix "AT_FDCWD" dirfd_arg)
    then some path
    else join_path (fd_target s dirfd_arg fdt) path

-- p.b.Target(path, trace.TargetFile), p.fdt.Open and p.b.Add of an OPEN.
unfoldable pub open_file :
    ℤ → ℤ → ℤ → String → Mode → List String → Bool → Option ℤ → Parser → Parser
open_file s t fd path mode flags is_app dur p =
    let (b', tgt) = target path target_file p.b in
    let (fdt', h) = open_fd (s, fd) (pos tgt) path is_app p.fdt in
    let op = record (plain_op t s op_open dur) {
      tgt = some (pos tgt);
      h = some (pos h);
      mode = mode;
      flags = flags;
    } in
    record p { b = add op b'; fdt = fdt' }

unfoldable pub open_path : ℤ → ℤ → ℤ → String → OpenFlags → Option ℤ → Parser → Parser
unfolding open_file
open_path s t fd path f dur p =
    if f.is_dir
    then record p { fdt = open_dir (s, fd) path p.fdt }
    else open_file s t fd path f.mode (flag_names f) f.is_app dur p

pub record OpenArgs : Type 0 where
  pub dirfd_arg : String
  pub path_arg : String
  pub flag_str : String

abbrev pub or_no_text : Option String → String
or_no_text none = ""
or_no_text (some f) = f

abbrev pub open_args : Bool → Bool → List String → Option OpenArgs
open_args true how (d ∷ path ∷ flags ∷ _) = some (record {
  dirfd_arg = d;
  path_arg = path;
  flag_str = if how then or_no_text (struct_field flags "flags") else flags;
})
open_args true how _ = none
open_args false how (path ∷ flags ∷ _) =
    some (record { dirfd_arg = ""; path_arg = path; flag_str = flags })
open_args false how _ = none

abbrev pub path_at : Bool → ℤ → String → String → FdTable → Option String
path_at at s dirfd_arg path fdt = if at then resolve_at s dirfd_arg path fdt else some path

-- The opens: `at` for the openat family, `how` for openat2.
unfoldable pub do_open : ℤ → ℤ → List String → String → Option ℤ → Bool → Bool → Parser → Parser
unfolding parse_leading_int struct_field parse_quoted resolve_at open_path parse_open_flags
do_open s t a ret dur at how p = settle p (do
  fd ← or_natural "failed_open" (parse_leading_int ret)
  args ← or_skip "unparsed_line" (open_args at how a)
  path ← or_skip "unparsed_line" (parse_quoted args.path_arg)
  resolved ← or_skip "unresolved_dirfd" (path_at at s args.dirfd_arg path p.fdt)
  ok (open_path s t fd resolved (parse_open_flags args.flag_str) dur p))

abbrev pub first_quoted : List String → Option String
first_quoted [] = none
first_quoted (a ∷ args) = parse_quoted a

unfoldable pub do_creat : ℤ → ℤ → List String → String → Option ℤ → Parser → Parser
unfolding parse_leading_int parse_quoted open_file
do_creat s t a ret dur p = settle p (do
  fd ← or_natural "failed_open" (parse_leading_int ret)
  path ← or_skip "unparsed_line" (first_quoted a)
  ok (open_file s t fd path mode_write ("create" ∷ "trunc" ∷ []) false dur p))

abbrev pub requested : OpKind → List String → ℤ → ℤ × Bool
requested kind a n =
    if is_read kind then read_request (parse_leading_int (arg_at a 2)) n else (n, true)

abbrev pub noted : Bool → Parser → Parser
noted true p = p
noted false p = record p { b = note "requested_len_unobservable" p.b }

abbrev pub is_positional : String → Bool
is_positional name = is_some (cut_prefix "pread" name) || is_some (cut_prefix "pwrite" name)

abbrev pub fourth_int : List String → Option ℤ
fourth_int (_ ∷ _ ∷ _ ∷ a ∷ _) = parse_leading_int a
fourth_int _ = none

abbrev pub add_positional :
    ℤ → ℤ → List String → Option ℤ → OpKind → Entry → ℤ → ℤ → Parser → Checked Parser
add_positional s t a dur kind e len n p = do
  off ← or_skip "unparsed_line" (fourth_int a)
  ok (record p { b = add (moved_op t s kind dur e off len n) p.b })

-- From the offset on: a positional call names it, any other moves the cursor.
unfoldable pub add_moved :
    ℤ → ℤ → ℤ → String → List String → Option ℤ → OpKind → Entry → ℤ → ℤ → Parser → Parser
unfolding cut_prefix parse_leading_int
add_moved s t fd name a dur kind e len n p = settle p (
    if is_positional name
    then add_positional s t a dur kind e len n p
    else ok (record p {
      b = add (moved_op t s kind dur e e.cursor len n) p.b;
      fdt = advance (s, fd) n p.fdt;
    }))

unfoldable pub do_rw : ℤ → ℤ → String → List String → String → Option ℤ → OpKind → Parser → Parser
unfolding parse_leading_int add_moved
do_rw s t name a ret dur kind p = settle p (do
  fd ← or_skip "unparsed_line" (first_int a)
  e ← with_handle (resolve (s, fd) p.fdt)
  n ← or_natural "failed_syscall" (parse_leading_int ret)
  _ ← keep_if (not (n == pos 0)) (moved_nothing kind) n
  _ ← keep_if (not (is_write kind && e.append_mode)) "append_write_unmodeled" n
  ok (add_moved s t fd name a dur kind e (requested kind a n).0 n (noted (requested kind a n).1 p)))

abbrev pub add_close : ℤ → ℤ → Option ℤ → FdTable × Option ℕ → Parser → Parser
add_close s t dur (fdt', none) p = record p { fdt = fdt' }
add_close s t dur (fdt', some h) p = record p {
  fdt = fdt';
  b = add (record (plain_op t s op_close dur) { h = some (pos h) }) p.b;
}

unfoldable pub do_close : ℤ → ℤ → List String → String → Option ℤ → Parser → Parser
unfolding parse_leading_int failed_ret
do_close s t a ret dur p = settle p (do
  fd ← or_ignore (first_int a)
  _ ← keep_if (not (failed_ret ret)) "failed_syscall" fd
  ok (add_close s t dur (close_fd (s, fd) p.fdt) p))

unfoldable pub do_fsync : ℤ → ℤ → List String → String → Option ℤ → Parser → Parser
unfolding parse_leading_int failed_ret
do_fsync s t a ret dur p = settle p (do
  fd ← or_skip "unparsed_line" (first_int a)
  _ ← keep_if (not (failed_ret ret)) "failed_syscall" fd
  e ← with_handle (resolve (s, fd) p.fdt)
  ok (record p { b = add (record (plain_op t s op_fsync dur) { h = some (pos e.handle) }) p.b }))

unfoldable pub do_lseek : ℤ → List String → String → Parser → Parser
unfolding parse_leading_int
do_lseek s a ret p = settle p (do
  fd ← or_ignore (first_int a)
  at ← or_ignore (parse_leading_int ret)
  ok (if ltb_ℤ at (pos 0) then p else record p { fdt = set_cursor (s, fd) at p.fdt }))

unfoldable pub add_stat : ℤ → ℤ → String → Option ℤ → Parser → Parser
add_stat s t path dur p =
    let (b', tgt) = target path target_file p.b in
    record p { b = add (record (plain_op t s op_stat dur) { tgt = some (pos tgt) }) b' }

-- The descriptor of the directory, where the call names one, and the path.
abbrev pub stat_args : Bool → List String → Option (String × String)
stat_args true (d ∷ path ∷ _) = some (d, path)
stat_args true _ = none
stat_args false (path ∷ _) = some ("", path)
stat_args false [] = none

abbrev pub stat_path : Bool → ℤ → String → String → FdTable → Checked String
stat_path at s dirfd_arg path fdt =
    if at
    then if path == ""
      then or_skip "unresolved_fd" (fd_target s dirfd_arg fdt)
      else or_skip "unresolved_dirfd" (resolve_at s dirfd_arg path fdt)
    else ok path

unfoldable pub do_stat_path : ℤ → ℤ → String → List String → String → Option ℤ → Parser → Parser
unfolding failed_ret parse_quoted fd_target resolve_at add_stat
do_stat_path s t name a ret dur p = settle p (do
  let at = name == "statx" || name == "newfstatat"
  _ ← keep_if (not (failed_ret ret)) "failed_syscall" t
  args ← or_skip "unparsed_line" (stat_args at a)
  path ← or_skip "unparsed_line" (parse_quoted args.1)
  resolved ← stat_path at s args.0 path p.fdt
  ok (add_stat s t resolved dur p))

abbrev pub first_arg : List String → Option String
first_arg [] = none
first_arg (a ∷ args) = some a

unfoldable pub do_fstat : ℤ → ℤ → List String → String → Option ℤ → Parser → Parser
unfolding failed_ret fd_target add_stat
do_fstat s t a ret dur p = settle p (do
  _ ← keep_if (not (failed_ret ret)) "failed_syscall" t
  fd_arg ← or_skip "unparsed_line" (first_arg a)
  path ← or_skip "unresolved_fd" (fd_target s fd_arg p.fdt)
  ok (add_stat s t path dur p))
