-- ===== src/Importer/Strace/Imported.antt =====
-- pkg/importer/strace/parse.go: the lives of the handles in the trace that an import makes.
use ioflux.Importer.Strace.Lines.{import_strace, finish, strace_meta, skip_each}
use ioflux.Importer.Builder.{Assembled, skip, Builder}
use ioflux.Prelude.{
  pair_eq, int_eq, pos, Bool, ℤ, String, List, Option, if◌then◌else◌, ◌==◌, Option-cases, true,
  false, lookup, inl, some, inr, ltb_ℤ, none, string_eq, refl, Bool-cases, ◌&&◌, suc, ◌∷◌, is_some,
  [], erase, add64, cut_prefix, before_first, sub64, subst, sym, ◌≡◌, Ordered, ltb, nat_eq,
}
use ioflux.Importer.Strace.Lines.{
  stream_of, line, handle, suspend, case_of, lines, suspend_or_call, resume, handle_call,
  timed_line, resume_pending, is_notice, is_line_end,
}
use ioflux.Importer.Strace.Times.{
  parse_time_prefix, apply_rollover, plain_time, day_time, epoch_time, clock_time, half_day,
  split_pid,
}
use ioflux.Importer.Strace.Parser.{Parser, unparsed_line, Pending, after_first, new_parser}
use ioflux.Importer.Strace.Keeps.{Fits, skip-Fits}
use ioflux.Importer.Tracked.{Tracked}
use ioflux.Importer.Strace.Scan.{Syscall, cut_byte, trim_space, trim_right, split_call}
use ioflux.Validate.Lifecycle.{Lifecycle}
use ioflux.Validate.Order.{TimeLe}
use ioflux.Importer.Tracked.Written.{written_trace, new-Tracked}
use ioflux.Importer.Strace.Lifecycles.{dispatch-Fits}

stream_of-Fits : (pid : ℤ) (p : Parser) → Fits p → Fits (stream_of pid p).0
unfolding stream_of
stream_of-Fits pid p fit = elim (Option-cases (lookup pid p.pid_to_stream)) [
  | inl e ↦ rw e fit
  | inr (sid, e) ↦ rw e fit
]

-- What a time does to the parser is no concern of the ops.
apply_rollover-Fits : (tod : ℤ) (p : Parser) → Fits p → Fits (apply_rollover tod p).0
unfolding apply_rollover
apply_rollover-Fits tod p fit =
    elim (Bool-cases (p.have_prev && ltb_ℤ (add64 tod p.day_offset) (sub64 p.prev_abs half_day))) [
      | inl e ↦ rw e fit
      | inr e ↦ rw e fit
    ]

day_time-Fits :
    (p : Parser) (s : String) (o : Option (ℤ × String)) → Fits p → Fits (day_time p s o).0
day_time-Fits p s none fit = plain (epoch_time s)
  where
    plain : (o : Option (ℤ × String)) → Fits (plain_time p o).0
    plain none = fit
    plain (some r) = fit
day_time-Fits p s (some (tod, rest)) fit = apply_rollover-Fits tod p fit

parse_time_prefix-Fits : (s : String) (p : Parser) → Fits p → Fits (parse_time_prefix s p).0
unfolding parse_time_prefix
parse_time_prefix-Fits s p fit = day_time-Fits p s (clock_time s) fit

if-Fits : (c : Bool) (p q : Parser) → Fits p → Fits q → Fits (if c then p else q)
if-Fits true p q f g = f
if-Fits false p q f g = g

module _ (parse_seconds : String → Option ℤ) where
  handle-Fits :
      (pid t_ns : ℤ) (call : Syscall) (p : Parser)
      → Fits p
      → Fits (handle parse_seconds pid t_ns call p)
  unfolding handle
  handle-Fits pid t_ns call p fit =
      let counted = record p { parsed_syscalls = suc p.parsed_syscalls } in
      dispatch-Fits (case_of call.name) _ _ _ _ _ _ (stream_of pid counted).0
        (stream_of-Fits pid counted fit)

  handle_call-Fits :
      (pid t_ns : ℤ) (o : Option Syscall) (p : Parser)
      → Fits p
      → Fits (handle_call parse_seconds pid t_ns o p)
  handle_call-Fits pid t_ns none p fit = skip-Fits "unparsed_line" p fit
  handle_call-Fits pid t_ns (some call) p fit = handle-Fits pid t_ns call p fit

  suspend-Fits :
      (pid t_ns : ℤ) (o : Option (String × String)) (p : Parser)
      → Fits p
      → Fits (suspend parse_seconds pid t_ns o p)
  suspend-Fits pid t_ns none p fit = skip-Fits "unparsed_line" p fit
  suspend-Fits pid t_ns (some (String.[], args)) p fit = skip-Fits "unparsed_line" p fit
  suspend-Fits pid t_ns (some (String.◌∷◌ c name, args)) p fit = fit

  resume_pending-Fits :
      (pid : ℤ) (tail : String) (o : Option Pending) (p : Parser)
      → Fits p
      → Fits (resume_pending parse_seconds pid tail o p)
  resume_pending-Fits pid tail none p fit = skip-Fits "unparsed_line" p fit
  resume_pending-Fits pid tail (some pend) p fit =
      handle_call-Fits pid pend.t_ns _ (record p { unfinished = erase pid p.unfinished }) fit

  resume-Fits :
      (pid : ℤ) (o : Option String) (p : Parser) → Fits p → Fits (resume parse_seconds pid o p)
  resume-Fits pid none p fit = skip-Fits "unparsed_line" p fit
  resume-Fits pid (some tail) p fit = resume_pending-Fits pid tail (lookup pid p.unfinished) p fit

  suspend_or_call-Fits :
      (pid t_ns : ℤ) (body : String) (o : Option String) (p : Parser)
      → Fits p
      → Fits (suspend_or_call parse_seconds pid t_ns body o p)
  suspend_or_call-Fits pid t_ns body (some head) p fit =
      suspend-Fits pid t_ns (cut_byte b'(' (trim_space head)) p fit
  suspend_or_call-Fits pid t_ns body none p fit =
      if-Fits (is_some (cut_prefix "<..." body))
        (resume parse_seconds pid (after_first "resumed>" body) p)
        (handle_call parse_seconds pid t_ns (split_call body) p)
        (resume-Fits pid (after_first "resumed>" body) p fit)
        (handle_call-Fits pid t_ns (split_call body) p fit)

  timed_line-Fits :
      (pid : ℤ) (r : Parser × Option (ℤ × String))
      → Fits r.0
      → Fits (timed_line parse_seconds pid r)
  unfolding unparsed_line
  timed_line-Fits pid (p, none) fit = skip-Fits "unparsed_line" p fit
  timed_line-Fits pid (p, some (t_ns, rest)) fit =
      if-Fits (is_notice parse_seconds (trim_space rest)) p _ fit (
        suspend_or_call-Fits pid t_ns (trim_space rest)
          (before_first "<unfinished ...>" (trim_space rest)) p fit)

  line-Fits : (raw : String) (p : Parser) → Fits p → Fits (line parse_seconds raw p)
  unfolding line
  line-Fits raw p fit =
      let rest = trim_space (trim_right (is_line_end parse_seconds) raw) in
      let column = split_pid rest in
      if-Fits (rest == "") p _ fit (
        if-Fits (is_notice parse_seconds column.1) p _ fit (
          timed_line-Fits column.0 (parse_time_prefix column.1 p)
            (parse_time_prefix-Fits column.1 p fit)))

  lines-Fits : (raws : List String) (p : Parser) → Fits p → Fits (lines parse_seconds raws p)
  unfolding lines
  lines-Fits [] p fit = fit
  lines-Fits (raw ∷ raws) p fit = lines-Fits raws (line parse_seconds raw p) (line-Fits raw p fit)

skip_each-same :
    (pending : List (ℤ × Pending)) (b : Builder) → (skip_each pending b).per_stream ≡ b.per_stream
unfolding skip_each skip
skip_each-same [] b = refl
skip_each-same (x ∷ pending) b = skip_each-same pending (skip "unfinished_dropped" b)

finish-Fits : (p : Parser) → Fits p → Fits (finish p)
unfolding finish
finish-Fits p (owner, v) =
    (owner, subst (λ m. Tracked owner m p.fdt) (sym (skip_each-same p.unfinished p.b)) v)

new_parser-Fits : Fits new_parser
new_parser-Fits = (λ h. pos 0, new-Tracked)

module _ (parse_seconds : String → Option ℤ) (limitations : String) (notes : Parser → String) where
  -- Whatever lines strace prints, in the trace that an import makes of them, each READ, WRITE, FSYNC
  -- and CLOSE is on a handle that an earlier OPEN of the same stream gave and that no CLOSE has ended
  -- since, each OPEN gives a handle that no earlier OPEN gave, no other op carries a handle, and the ops
  -- are in the order of their times.
  pub import_strace-Lifecycle :
      (raws : List String) (a : Assembled)
      → import_strace parse_seconds limitations notes raws ≡ some a
      → Lifecycle [] a.ops × Ordered TimeLe a.ops
  unfolding import_strace
  import_strace-Lifecycle raws a e =
      let p = finish (lines parse_seconds raws new_parser) in
      let meta = strace_meta limitations (notes p) in
      let fit =
        finish-Fits (lines parse_seconds raws new_parser)
          (lines-Fits parse_seconds raws new_parser new_parser-Fits) in
      written_trace fit.0 p.b p.fdt meta (p.parsed_syscalls == 0 && ltb 0 p.line_unparsed) a fit.1 e
