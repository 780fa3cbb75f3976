-- ===== src/Importer/Strace/Lines.antt =====
-- pkg/importer/strace/parse.go: the lines and their processes. What strconv.ParseFloat
-- makes of a duration, as whole nanoseconds, is a parameter: none where it is an error or negative.
use ioflux.Prelude.{
  ℕ, pos, List, Bool, ℤ, String, Option, lookup, ◌==◌, none, if◌then◌else◌, [], ◌∷◌, is_some, false,
  suc, some, ◌||◌, true, insert, cut_prefix, before_first, int_eq, ◌++◌, text_append, string_eq,
  nat_eq, erase, ◌&&◌, ltb,
}
use ioflux.Trace.Types.{op_read, op_write, capture_import, trace_imported}
use ioflux.Importer.Strace.Scan.{
  Syscall, trim_space, split_args, cut_last_byte, cut_byte, split_call, trim_right,
}
use ioflux.Importer.Strace.Calls.{
  do_open, do_creat, do_rw, do_close, do_fsync, do_lseek, do_stat_path, do_fstat,
}
use ioflux.Importer.Strace.Parser.{
  Parser, Pending, unparsed_line, skip_call, after_first, new_parser,
}
use ioflux.Importer.Builder.{Builder, skip, assemble, HeaderMeta, Assembled}
use ioflux.Importer.Strace.Times.{parse_time_prefix, split_pid}

-- p.stream(pid)
abbrev pub stream_known : ℤ → Parser → Option ℕ → Parser × ℤ
stream_known pid p (some sid) = (p, pos sid)
stream_known pid p none = (
  record p {
    next_stream = suc p.next_stream;
    pid_to_stream = insert pid p.next_stream p.pid_to_stream;
    stream_order = p.stream_order ++ pid ∷ [];
  },
  pos p.next_stream,
)

unfoldable pub stream_of : ℤ → Parser → Parser × ℤ
stream_of pid p = stream_known pid p (lookup pid p.pid_to_stream)

unfoldable pub is_one_of : String → List String → Bool
is_one_of name [] = false
is_one_of name (other ∷ others) =
    let rest = is_one_of name others in if name == other then true else rest

-- The cases of the switch over the call's name: opens `at` a directory and with a struct that says
-- `how`, and the rest.
pub data Case : Type 0 where
  case_open : Bool → Bool → Case
  case_creat case_read case_write case_close case_fsync case_lseek case_stat case_fstat case_other :
      Case

unfoldable pub case_of : String → Case
unfolding is_one_of
case_of name =
    if is_one_of name ("open" ∷ "open64" ∷ [])
    then case_open false false
    else if name == "openat"
    then case_open true false
    else if name == "openat2"
    then case_open true true
    else if name == "creat"
    then case_creat
    else if is_one_of name ("read" ∷ "read64" ∷ "pread64" ∷ "pread" ∷ [])
    then case_read
    else if is_one_of name ("write" ∷ "write64" ∷ "pwrite64" ∷ "pwrite" ∷ [])
    then case_write
    else if name == "close"
    then case_close
    else if is_one_of name ("fsync" ∷ "fdatasync" ∷ [])
    then case_fsync
    else if is_one_of name ("lseek" ∷ "lseek64" ∷ "_llseek" ∷ [])
    then case_lseek
    else if is_one_of name
        ("stat" ∷ "stat64" ∷ "lstat" ∷ "lstat64" ∷ "access" ∷ "statx" ∷ "newfstatat" ∷ [])
    then case_stat
    else if is_one_of name ("fstat" ∷ "fstat64" ∷ "fstatfs" ∷ [])
    then case_fstat
    else case_other

unfoldable pub dispatch : Case → ℤ → ℤ → String → List String → String → Option ℤ → Parser → Parser
unfolding do_open do_creat do_rw do_close do_fsync do_lseek do_stat_path do_fstat
dispatch (case_open at how) s t name a ret dur p = do_open s t a ret dur at how p
dispatch case_creat s t name a ret dur p = do_creat s t a ret dur p
dispatch case_read s t name a ret dur p = do_rw s t name a ret dur op_read p
dispatch case_write s t name a ret dur p = do_rw s t name a ret dur op_write p
dispatch case_close s t name a ret dur p = do_close s t a ret dur p
dispatch case_fsync s t name a ret dur p = do_fsync s t a ret dur p
dispatch case_lseek s t name a ret dur p = do_lseek s a ret p
dispatch case_stat s t name a ret dur p = do_stat_path s t name a ret dur p
dispatch case_fstat s t name a ret dur p = do_fstat s t a ret dur p
dispatch case_other s t name a ret dur p = p

module _ (parse_seconds : String → Option ℤ) where
  abbrev pub with_duration : String → String → Option ℤ → String × Option ℤ
  with_duration ret before none = (ret, none)
  with_duration ret before (some ns) = (trim_space before, some ns)

  abbrev pub duration_cut : String → Option (String × String) → String × Option ℤ
  duration_cut ret none = (ret, none)
  duration_cut ret (some (before, raw)) = with_duration ret before (parse_seconds (trim_space raw))

  abbrev pub duration_closed : String → Option (String × String) → String × Option ℤ
  duration_closed ret none = (ret, none)
  duration_closed ret (some (inner, String.[])) = duration_cut ret (cut_last_byte b'<' inner)
  duration_closed ret (some (inner, behind)) = (ret, none)

  -- The result without the <duration> behind it, and the duration.
  unfoldable pub split_ret_duration : String → String × Option ℤ
  unfolding trim_space cut_last_byte trim_right
  split_ret_duration ret = duration_closed (trim_space ret) (cut_last_byte b'>' (trim_space ret))

  unfoldable pub handle : ℤ → ℤ → Syscall → Parser → Parser
  unfolding stream_of split_ret_duration case_of dispatch split_args
  handle pid t_ns call p =
      let (p', s) = stream_of pid (record p { parsed_syscalls = suc p.parsed_syscalls }) in
      let (ret, dur) = split_ret_duration call.ret in
      dispatch (case_of call.name) s t_ns call.name (split_args call.args) ret dur p'

  abbrev pub handle_call : ℤ → ℤ → Option Syscall → Parser → Parser
  handle_call pid t_ns none p = skip_call "unparsed_line" p
  handle_call pid t_ns (some call) p = handle pid t_ns call p

  abbrev pub suspend : ℤ → ℤ → Option (String × String) → Parser → Parser
  suspend pid t_ns none p = skip_call "unparsed_line" p
  suspend pid t_ns (some (String.[], args)) p = skip_call "unparsed_line" p
  suspend pid t_ns (some (name, args)) p = record p {
    unfinished =
        insert pid (record { name = trim_space name; args = args; t_ns = t_ns }) p.unfinished;
  }

  abbrev pub resume_pending : ℤ → String → Option Pending → Parser → Parser
  resume_pending pid tail none p = skip_call "unparsed_line" p
  resume_pending pid tail (some pend) p =
      handle_call pid pend.t_ns
        (split_call
          (text_append pend.name (text_append "(" (text_append pend.args (trim_space tail)))))
        (record p { unfinished = erase pid p.unfinished })

  abbrev pub resume : ℤ → Option String → Parser → Parser
  resume pid none p = skip_call "unparsed_line" p
  resume pid (some tail) p = resume_pending pid tail (lookup pid p.unfinished) p

  abbrev pub is_notice : String → Bool
  is_notice s = is_some (cut_prefix "---" s) || is_some (cut_prefix "+++" s)

  abbrev pub suspend_or_call : ℤ → ℤ → String → Option String → Parser → Parser
  suspend_or_call pid t_ns body (some head) p = suspend pid t_ns (cut_byte b'(' (trim_space head)) p
  suspend_or_call pid t_ns body none p =
      if is_some (cut_prefix "<..." body)
      then resume pid (after_first "resumed>" body) p
      else handle_call pid t_ns (split_call body) p

  abbrev pub timed_line : ℤ → Parser × Option (ℤ × String) → Parser
  timed_line pid (p, none) = unparsed_line p
  timed_line pid (p, some (t_ns, rest)) =
      let body = trim_space rest in
      if is_notice body
      then p
      else suspend_or_call pid t_ns body (before_first "<unfinished ...>" body) p

  abbrev pub split_line : ℤ × String → Parser → Parser
  split_line (pid, rest) p = if is_notice rest then p else timed_line pid (parse_time_prefix rest p)

  abbrev pub is_line_end : ℕ → Bool
  is_line_end c = c == 10 || c == 13

  unfoldable pub line : String → Parser → Parser
  unfolding trim_space trim_right split_pid parse_time_prefix handle cut_prefix before_first
      after_first split_call unparsed_line cut_byte
  line raw p =
      let rest = trim_space (trim_right is_line_end raw) in
      if rest == "" then p else split_line (split_pid rest) p

  unfoldable pub lines : List String → Parser → Parser
  unfolding line
  lines [] p = p
  lines (raw ∷ rest) p = lines rest (line raw p)

-- for range p.unfinished
unfoldable pub skip_each : List (ℤ × Pending) → Builder → Builder
skip_each [] b = b
skip_each (_ ∷ rest) b = skip_each rest (skip "unfinished_dropped" b)

unfoldable pub finish : Parser → Parser
unfolding skip_each
finish p = record p { b = skip_each p.unfinished p.b; unfinished = [] }

-- The header of an import; the capture's limitations and the notes are texts.
abbrev pub strace_meta : String → String → HeaderMeta
strace_meta limitations notes = record {
  kind = trace_imported;
  capture_method = capture_import "strace";
  capture_limitations = limitations;
  generated_by = "ioflux-import 0.1.0 / strace";
  notes = notes;
  created_utc = "";
}

-- Import up to the encoding of the trace: none where no line was a system call and some line was not
-- understood.
unfoldable pub import_strace :
    (String → Option ℤ) → String → (Parser → String) → List String → Option Assembled
unfolding lines finish assemble
import_strace parse_seconds limitations notes raws =
    let p = finish (lines parse_seconds raws new_parser) in
    if p.parsed_syscalls == 0 && ltb 0 p.line_unparsed
    then none
    else some (assemble p.b (strace_meta limitations (notes p)))
