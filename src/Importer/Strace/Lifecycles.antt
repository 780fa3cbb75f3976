-- ===== src/Importer/Strace/Lifecycles.antt =====
-- pkg/importer/strace/parse.go: every call keeps the record of handles true, by the switch over its name.
use ioflux.Importer.Strace.Lines.{case_read, case_write, case_open}
use ioflux.Importer.Builder.{target}
use ioflux.Importer.Checked.{keep_if, or_ignore, or_skip}
use ioflux.Prelude.{
  pair_eq, int_eq, pos, Bool, ℤ, String, List, Option, if◌then◌else◌, ◌==◌, true, ◌||◌, false,
  lookup, some, not, ltb_ℤ, string_eq, refl, subst, sym,
}
use ioflux.Trace.Types.{op_fsync, op_read, op_stat, op_write, target_file}
use ioflux.Importer.Strace.Lines.{
  dispatch, case_close, case_creat, case_fstat, case_fsync, case_lseek, case_open, case_other,
  case_stat, Case,
}
use ioflux.Importer.Strace.Calls.{
  add_stat, do_fstat, do_stat_path, do_fsync, do_lseek, first_int, stat_args, first_arg, fd_target,
  stat_path,
}
use ioflux.Importer.FdTable.{resolve, set_cursor}
use ioflux.Importer.Strace.Parser.{Parser, failed_ret}
use ioflux.Importer.Strace.Keeps.{
  Fits, do_open-Fits, bind-Fits, do_creat-Fits, do_rw-Fits, do_close-Fits, held-with_handle,
  per_stream-target,
}
use ioflux.Importer.Tracked.Moves.{move-Tracked, stat-Tracked}
use ioflux.Importer.Tracked.{Tracked-table, Tracked}
use ioflux.Importer.Strace.Scan.{parse_leading_int}
use ioflux.Importer.Strace.Quoted.{parse_quoted}
use ioflux.Importer.Ops.{with_handle, plain_op}
use ioflux.Importer.Tracked.Tables.{HoldsLess-self, HoldsLess-set_cursor}

do_fsync-Fits :
    (s t : ℤ) (a : List String) (ret : String) (dur : Option ℤ) (p : Parser)
    → Fits p
    → Fits (do_fsync s t a ret dur p)
unfolding do_fsync resolve
do_fsync-Fits s t a ret dur p (owner, v) =
    bind-Fits p (or_skip "unparsed_line" (first_int a)) _ (owner, v)
      (λ fd _.
        bind-Fits p (keep_if (not (failed_ret ret)) "failed_syscall" fd) _ (owner, v)
          (λ _ _.
            bind-Fits p (with_handle (lookup (s, fd) p.fdt.entries)) _ (owner, v)
              (λ e found. (
                owner,
                move-Tracked owner p.b p.fdt p.fdt
                    (record (plain_op t s op_fsync dur) { h = some (pos e.handle) }) v
                    (HoldsLess-self p.fdt v.sound) fd e.handle
                    (held-with_handle (lookup (s, fd) p.fdt.entries) e found) refl tt,
              ))))

do_lseek-Fits :
    (s : ℤ) (a : List String) (ret : String) (p : Parser) → Fits p → Fits (do_lseek s a ret p)
unfolding do_lseek
do_lseek-Fits s a ret p (owner, v) =
    bind-Fits p (or_ignore (first_int a)) _ (owner, v)
      (λ fd _.
        bind-Fits p (or_ignore (parse_leading_int ret)) _ (owner, v)
          (λ at _. sought fd at (ltb_ℤ at (pos 0))))
  where
    sought :
        (fd at : ℤ) (c : Bool)
        → Fits (if c then p else record p { fdt = set_cursor (s, fd) at p.fdt })
    sought fd at true = (owner, v)
    sought fd at false =
        let less = HoldsLess-set_cursor p.fdt (s, fd) at v.sound in
        (owner, Tracked-table owner p.b.per_stream p.fdt _ v less.0 less.1 less.2)

add_stat-Fits :
    (s t : ℤ) (path : String) (dur : Option ℤ) (p : Parser)
    → Fits p
    → Fits (add_stat s t path dur p)
unfolding add_stat
add_stat-Fits s t path dur p (owner, v) =
    let named = target path target_file p.b in
    (
      owner,
      stat-Tracked owner named.0 p.fdt p.fdt
          (record (plain_op t s op_stat dur) { tgt = some (pos named.1) })
          (subst (λ m. Tracked owner m p.fdt) (sym (per_stream-target path p.b)) v)
          (HoldsLess-self p.fdt v.sound) refl refl,
    )

do_stat_path-Fits :
    (s t : ℤ) (name : String) (a : List String) (ret : String) (dur : Option ℤ) (p : Parser)
    → Fits p
    → Fits (do_stat_path s t name a ret dur p)
unfolding do_stat_path
do_stat_path-Fits s t name a ret dur p fit =
    let at = name == "statx" || name == "newfstatat" in
    bind-Fits p (keep_if (not (failed_ret ret)) "failed_syscall" t) _ fit (λ _ _.
      bind-Fits p (or_skip "unparsed_line" (stat_args at a)) _ fit (λ args _.
        bind-Fits p (or_skip "unparsed_line" (parse_quoted args.1)) _ fit (λ path _.
          bind-Fits p (stat_path at s args.0 path p.fdt) _ fit
            (λ resolved _. add_stat-Fits s t resolved dur p fit))))

do_fstat-Fits :
    (s t : ℤ) (a : List String) (ret : String) (dur : Option ℤ) (p : Parser)
    → Fits p
    → Fits (do_fstat s t a ret dur p)
unfolding do_fstat
do_fstat-Fits s t a ret dur p fit =
    bind-Fits p (keep_if (not (failed_ret ret)) "failed_syscall" t) _ fit (λ _ _.
      bind-Fits p (or_skip "unparsed_line" (first_arg a)) _ fit (λ fd_arg _.
        bind-Fits p (or_skip "unresolved_fd" (fd_target s fd_arg p.fdt)) _ fit
          (λ path _. add_stat-Fits s t path dur p fit)))

pub dispatch-Fits :
    (c : Case) (s t : ℤ) (name : String) (a : List String) (ret : String) (dur : Option ℤ)
    (p : Parser)
    → Fits p
    → Fits (dispatch c s t name a ret dur p)
unfolding dispatch
dispatch-Fits (case_open at how) s t name a ret dur p fit = do_open-Fits s t a ret dur at how p fit
dispatch-Fits case_creat s t name a ret dur p fit = do_creat-Fits s t a ret dur p fit
dispatch-Fits case_read s t name a ret dur p fit = do_rw-Fits s t name a ret dur op_read p tt fit
dispatch-Fits case_write s t name a ret dur p fit = do_rw-Fits s t name a ret dur op_write p tt fit
dispatch-Fits case_close s t name a ret dur p fit = do_close-Fits s t a ret dur p fit
dispatch-Fits case_fsync s t name a ret dur p fit = do_fsync-Fits s t a ret dur p fit
dispatch-Fits case_lseek s t name a ret dur p fit = do_lseek-Fits s a ret p fit
dispatch-Fits case_stat s t name a ret dur p fit = do_stat_path-Fits s t name a ret dur p fit
dispatch-Fits case_fstat s t name a ret dur p fit = do_fstat-Fits s t a ret dur p fit
dispatch-Fits case_other s t name a ret dur p fit = fit
