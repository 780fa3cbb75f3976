-- ===== src/Importer/Dftracer/Lifecycles.antt =====
-- pkg/importer/dftracer/parse.go: the lives of the handles in the trace that an import makes.
use ioflux.Importer.Checked.{or_ignore, or_skip, keep_if}
use ioflux.Prelude.{
  ℕ, pair_eq, int_eq, string_eq, pos, Option, String, ℤ, Bool, if◌then◌else◌, List, some, true,
  lookup, false, ◌∷◌, none, suc, ◌≡◌, [], inl, ◌==◌, inr, Ordered, not, ltb_ℤ, ◌&&◌, ltb, refl,
  nat_eq,
}
use ioflux.Importer.Dftracer.Handlers.{
  event_close, event_fsync, event_lseek, event_open, event_other, event_read, event_write,
  dispatch_event, do_close_event, close_event, do_lseek_event, do_fsync_event, seek_keyed,
  fsync_keyed, close_keyed, EventCase, event_case, resolve_fd_key,
}
use ioflux.Trace.Types.{op_fsync, op_read, op_write}
use ioflux.Importer.Dftracer.Passes.{
  event_stream, posix_event, meta_entry, event_line, event_lines, import_dftracer, decoded_event,
  scan_metas, stream_assigned, scan_meta, is_comma, starts_object, is_frame, dftracer_meta,
}
use ioflux.Importer.FdTable.{resolve, close_fd, set_cursor}
use ioflux.Importer.Dftracer.Keeps.{
  EventFits, skip-EventFits, bind-EventFits, do_open_event-EventFits, do_rw_event-EventFits,
  resolve_fd_key-EventFits,
}
use ioflux.Importer.Dftracer.Events.{
  DfArgs, new_df_parser, DfEvent, DfParser, settle_event, ret_val, skip_event,
}
use ioflux.Importer.Tracked.Written.{new-Tracked, written_trace}
use ioflux.Importer.Strace.Scan.{trim_space, trim_right}
use ioflux.Importer.Builder.{Assembled}
use ioflux.Importer.Tracked.Moves.{close-outcome, pair_with, move-Tracked}
use ioflux.Importer.Tracked.{Tracked-table}
use ioflux.Validate.Lifecycle.{Lifecycle}
use ioflux.Validate.Order.{TimeLe}
use ioflux.Importer.Strace.Parser.{is_negative}
use ioflux.Importer.Ops.{with_handle, plain_op}
use ioflux.Importer.Strace.Keeps.{held-with_handle}
use ioflux.Importer.Tracked.Tables.{HoldsLess-self, HoldsLess-set_cursor}

close_event-EventFits :
    (s t fd : ℤ) (dur : Option ℤ) (p : DfParser)
    → EventFits p
    → EventFits (close_event s t dur (close_fd (s, fd) p.fdt) p)
close_event-EventFits s t fd dur p (owner, v) = elim (close-outcome owner p.b p.fdt s fd t dur v) [
  | inl (q, v') ↦ rw (pair_with (close_fd (s, fd) p.fdt) none q) (owner, v')
  | inr (h, q, v') ↦ rw (pair_with (close_fd (s, fd) p.fdt) (some h) q) (owner, v')
]

close_keyed-EventFits :
    (s t : ℤ) (dur : Option ℤ) (a : DfArgs) (p : DfParser) (key : Option ℤ)
    → EventFits p
    → EventFits (settle_event p (close_keyed s t dur a p key))
close_keyed-EventFits s t dur a p key fit = bind-EventFits p (or_ignore key) _ fit (λ fd _.
    bind-EventFits p (keep_if (not (is_negative (ret_val a))) "failed_syscall" fd) _ fit
      (λ _ _. close_event-EventFits s t fd dur p fit))

fsync_keyed-EventFits :
    (s t : ℤ) (dur : Option ℤ) (a : DfArgs) (p : DfParser) (key : Option ℤ)
    → EventFits p
    → EventFits (settle_event p (fsync_keyed s t dur a p key))
unfolding resolve
fsync_keyed-EventFits s t dur a p key (owner, v) =
    bind-EventFits p (or_skip "unparseable_event" key) _ (owner, v)
      (λ fd _.
        bind-EventFits p (keep_if (not (is_negative (ret_val a))) "failed_syscall" fd) _ (owner, v)
          (λ _ _.
            bind-EventFits p (with_handle (lookup (s, fd) p.fdt.entries)) _ (owner, v)
              (λ e found. (
                owner,
                move-Tracked owner p.b p.fdt p.fdt
                    (record (plain_op t s op_fsync dur) { h = some (pos e.handle) }) v
                    (HoldsLess-self p.fdt v.sound) fd e.handle
                    (held-with_handle (lookup (s, fd) p.fdt.entries) e found) refl tt,
              ))))

seek_keyed-EventFits :
    (s : ℤ) (a : DfArgs) (p : DfParser) (key : Option ℤ)
    → EventFits p
    → EventFits (settle_event p (seek_keyed s a p key))
seek_keyed-EventFits s a p key (owner, v) =
    bind-EventFits p (or_ignore key) _ (owner, v)
      (λ fd _.
        bind-EventFits p (or_ignore (ret_val a)) _ (owner, v)
          (λ at _. sought fd at (ltb_ℤ at (pos 0))))
  where
    sought :
        (fd at : ℤ) (c : Bool)
        → EventFits (if c then p else record p { fdt = set_cursor (s, fd) at p.fdt })
    sought fd at true = (owner, v)
    sought fd at false =
        let less = HoldsLess-set_cursor p.fdt (s, fd) at v.sound in
        (owner, Tracked-table owner p.b.per_stream p.fdt _ v less.0 less.1 less.2)

dispatch_event-EventFits :
    (c : EventCase) (s t : ℤ) (dur : Option ℤ) (a : DfArgs) (p : DfParser)
    → EventFits p
    → EventFits (dispatch_event c s t dur a p)
unfolding dispatch_event do_close_event do_lseek_event do_fsync_event
dispatch_event-EventFits event_open s t dur a p fit = do_open_event-EventFits s t dur a p fit
dispatch_event-EventFits (event_read positional) s t dur a p fit =
    do_rw_event-EventFits s t dur a op_read positional p tt fit
dispatch_event-EventFits (event_write positional) s t dur a p fit =
    do_rw_event-EventFits s t dur a op_write positional p tt fit
dispatch_event-EventFits event_close s t dur a p fit =
    close_keyed-EventFits s t dur a (resolve_fd_key a p).0 (resolve_fd_key a p).1
      (resolve_fd_key-EventFits a p fit)
dispatch_event-EventFits event_lseek s t dur a p fit =
    seek_keyed-EventFits s a (resolve_fd_key a p).0 (resolve_fd_key a p).1
      (resolve_fd_key-EventFits a p fit)
dispatch_event-EventFits event_fsync s t dur a p fit =
    fsync_keyed-EventFits s t dur a (resolve_fd_key a p).0 (resolve_fd_key a p).1
      (resolve_fd_key-EventFits a p fit)
dispatch_event-EventFits event_other s t dur a p fit = skip-EventFits "unsupported_event" p fit

event_stream-EventFits : (pt : ℤ × ℤ) (p : DfParser) → EventFits p → EventFits (event_stream pt p).0
unfolding event_stream
event_stream-EventFits pt p fit = assigned (lookup pt p.pt_to_stream)
  where
    assigned : (o : Option ℕ) → EventFits (stream_assigned pt p o).0
    assigned none = fit
    assigned (some sid) = fit

if-EventFits :
    (c : Bool) (p q : DfParser) → EventFits p → EventFits q → EventFits (if c then p else q)
if-EventFits true p q f g = f
if-EventFits false p q f g = g

decoded_event-EventFits :
    (o : Option DfEvent) (p : DfParser) → EventFits p → EventFits (decoded_event o p)
unfolding posix_event
decoded_event-EventFits none p fit = skip-EventFits "unparseable_event" p fit
decoded_event-EventFits (some ev) p fit =
    let counted = record p { parsed_events = suc p.parsed_events } in
    if-EventFits (ev.cat == "POSIX") (posix_event ev counted) _
      (dispatch_event-EventFits (event_case ev.name) _ _ _ _
        (event_stream (ev.pid, ev.tid) counted).0
        (event_stream-EventFits (ev.pid, ev.tid) counted fit))
      (if-EventFits (ev.cat == "dftracer") counted (skip_event "non_posix_event" counted) fit
        (skip-EventFits "non_posix_event" counted fit))

new_df_parser-EventFits : EventFits new_df_parser
new_df_parser-EventFits = (λ h. pos 0, new-Tracked)

meta_entry-EventFits :
    (o : Option DfEvent) (p : DfParser) → EventFits p → EventFits (meta_entry o p)
meta_entry-EventFits none p fit = fit
meta_entry-EventFits (some ev) p fit = if-EventFits _ _ p fit fit

module _ (decode : String → Option DfEvent) where
  event_line-EventFits :
      (raw : String) (p : DfParser) → EventFits p → EventFits (event_line decode raw p)
  unfolding event_line
  event_line-EventFits raw p fit =
      let s = trim_space (trim_right is_comma (trim_space raw)) in
      if-EventFits (is_frame (trim_space raw)) p _ fit (
        if-EventFits (is_frame s) p _ fit (
          if-EventFits (starts_object s) (decoded_event (decode s) p) _
            (decoded_event-EventFits (decode s) p fit) fit))

  event_lines-EventFits :
      (raws : List String) (p : DfParser) → EventFits p → EventFits (event_lines decode raws p)
  unfolding event_lines
  event_lines-EventFits [] p fit = fit
  event_lines-EventFits (raw ∷ raws) p fit =
      event_lines-EventFits raws (event_line decode raw p) (event_line-EventFits raw p fit)

  scan_meta-EventFits :
      (raw : String) (p : DfParser) → EventFits p → EventFits (scan_meta decode raw p)
  unfolding scan_meta
  scan_meta-EventFits raw p fit =
      let s = trim_space raw in
      let o = decode (trim_right is_comma s) in
      if-EventFits (starts_object s) (meta_entry o p) p (meta_entry-EventFits o p fit) fit

  scan_metas-EventFits :
      (raws : List String) (p : DfParser) → EventFits p → EventFits (scan_metas decode raws p)
  unfolding scan_metas
  scan_metas-EventFits [] p fit = fit
  scan_metas-EventFits (raw ∷ raws) p fit =
      scan_metas-EventFits raws (scan_meta decode raw p) (scan_meta-EventFits raw p fit)

  -- Whatever lines DFTracer wrote, in the trace that an import makes of them, each READ, WRITE, FSYNC
  -- and CLOSE is on a handle that an earlier OPEN of the same stream gave and that no CLOSE has ended
  -- since, each OPEN gives a handle that no earlier OPEN gave, no other op carries a handle, and the ops
  -- are in the order of their times.
  pub import_dftracer-Lifecycle :
      (limitations : String) (notes : DfParser → String) (raws : List String) (a : Assembled)
      → import_dftracer decode limitations notes raws ≡ some a
      → Lifecycle [] a.ops × Ordered TimeLe a.ops
  unfolding import_dftracer
  import_dftracer-Lifecycle limitations notes raws a e =
      let scanned = scan_metas decode raws new_df_parser in
      let p = event_lines decode raws scanned in
      let meta = dftracer_meta limitations (notes p) in
      let fit =
        event_lines-EventFits raws scanned
          (scan_metas-EventFits raws new_df_parser new_df_parser-EventFits) in
      written_trace fit.0 p.b p.fdt meta (p.parsed_events == 0 && ltb 0 p.line_unparsed) a fit.1 e
