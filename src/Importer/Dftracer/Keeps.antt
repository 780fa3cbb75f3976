-- ===== src/Importer/Dftracer/Keeps.antt =====
-- pkg/importer/dftracer/parse.go: every event keeps the record of handles true.
use ioflux.Importer.FdTable.Returned.{given-open_fd}
use ioflux.Importer.Flags.{OpenFlags, flag_names}
use ioflux.Importer.Checked.{◌>>=◌, ignored, ok, skipped, Checked, keep_if, or_skip, or_natural}
use ioflux.Prelude.{
  ℕ, pair_eq, int_eq, string_eq, pos, Option, ℤ, String, ◌≡◌, Bool, not, some, refl, true,
  Bool-cases, none, false, ◌==◌, inl, if◌then◌else◌, inr, lookup, subst, sym, ap, ◌∙◌, ◌&&◌,
}
use ioflux.Trace.Types.{op_open, target_file, OpKind}
use ioflux.Importer.Dftracer.Events.{
  DfParser, DfArgs, skip_event, settle_event, ret_val, parse_raw_flags,
}
use ioflux.Importer.Dftracer.Handlers.{
  synth_fd, resolve_fd_key, do_open_event, open_key, do_rw_event, open_event, open_key_of,
  fd_or_hash, hashed_key, synth_known, note_event, open_keyed, moved_at, explicit_offset,
  resolve_path, event_request, no_path_reason,
}
use ioflux.Importer.Builder.{skip, note, target}
use ioflux.Importer.Tracked.{Tracked}
use ioflux.Importer.FdTable.{resolve, Entry, open_fd, advance}
use ioflux.Importer.Tracked.Moves.{IsMoving, move-Tracked}
use ioflux.Importer.FdTable.Handles.{held}
use ioflux.Importer.Strace.Parser.{is_negative}
use ioflux.Importer.Ops.{moved_op, plain_op, with_handle, moved_nothing, is_write}
use ioflux.Importer.Strace.Keeps.{per_stream-target, held-with_handle}
use ioflux.Importer.Tracked.Opens.{owner_after, open-Tracked}
use ioflux.Importer.Tracked.Tables.{HoldsLess-self, HoldsLess-advance}

abbrev pub EventFits : DfParser → Type 0
EventFits p = (owner : ℕ → ℤ) × Tracked owner p.b.per_stream p.fdt

pub skip-EventFits :
    (reason : String) (p : DfParser) → EventFits p → EventFits (skip_event reason p)
unfolding skip
skip-EventFits reason p f = f

pub bind-EventFits {ℓ} :
    {A : Type ℓ} (p : DfParser) (m : Checked A) (f : A → Checked DfParser)
    → EventFits p
    → ((a : A) → m ≡ ok a → EventFits (settle_event p (f a)))
    → EventFits (settle_event p (m >>= f))
bind-EventFits p (ok a) f fit k = k a refl
bind-EventFits p (skipped reason) f fit k = skip-EventFits reason p fit
bind-EventFits p ignored f fit k = fit

-- A key takes nothing from the builder and the table.
pub hashed_key-EventFits :
    (fhash : String) (p : DfParser) → EventFits p → EventFits (hashed_key fhash p).0
unfolding synth_fd
hashed_key-EventFits fhash p fit = elim (Bool-cases (fhash == "")) [
  | inl e ↦ rw e fit
  | inr e ↦ rw e (known (lookup fhash p.fhash_fd))
]
  where
    known : (o : Option ℤ) → EventFits (synth_known fhash p o).0
    known none = fit
    known (some fd) = fit

pub resolve_fd_key-EventFits :
    (a : DfArgs) (p : DfParser) → EventFits p → EventFits (resolve_fd_key a p).0
unfolding resolve_fd_key
resolve_fd_key-EventFits a p fit = keyed a.fd
  where
    keyed : (o : Option ℤ) → EventFits (fd_or_hash a.fhash p o).0
    keyed none = hashed_key-EventFits a.fhash p fit
    keyed (some fd) = fit

pub open_key-EventFits : (a : DfArgs) (p : DfParser) → EventFits p → EventFits (open_key a p).0
unfolding open_key
open_key-EventFits a p fit = keyed a.fd (ret_val a)
  where
    keyed : (o rv : Option ℤ) → EventFits (open_key_of o a.fhash rv p).0
    keyed (some fd) rv = fit
    keyed none (some rv) = fit
    keyed none none = hashed_key-EventFits a.fhash p fit

pub open_event-EventFits :
    (s t fd : ℤ) (path : String) (f : OpenFlags) (dur : Option ℤ) (p : DfParser)
    → EventFits p
    → EventFits (open_event s t fd path f dur p)
unfolding open_event
open_event-EventFits s t fd path f dur p (owner, v) =
    let named = target path target_file p.b in
    let op = record (plain_op t s op_open dur) {
      tgt = some (pos named.1);
      h = some (pos (open_fd (s, fd) (pos named.1) path f.is_app p.fdt).1);
      mode = f.mode;
      flags = flag_names f;
    } in
    let v' = subst (λ m. Tracked owner m p.fdt) (sym (per_stream-target path p.b)) v in
    (
      owner_after owner p.fdt.next_handle s,
      open-Tracked owner named.0 p.fdt op fd v' refl
          (ap (λ h. some (pos h)) (given-open_fd p.fdt (s, fd) (pos named.1) path f.is_app))
          (pos named.1) path f.is_app,
    )

pub open_keyed-EventFits :
    (s t : ℤ) (path : String) (f : OpenFlags) (dur : Option ℤ) (p : DfParser)
    (r : DfParser × Option ℤ)
    → EventFits p
    → EventFits r.0
    → EventFits (settle_event p (open_keyed s t path f dur r))
open_keyed-EventFits s t path f dur p (p', none) fit fit' = skip-EventFits "failed_open" p fit
open_keyed-EventFits s t path f dur p (p', some fd) fit fit' =
    open_event-EventFits s t fd path f dur p' fit'

pub do_open_event-EventFits :
    (s t : ℤ) (dur : Option ℤ) (a : DfArgs) (p : DfParser)
    → EventFits p
    → EventFits (do_open_event s t dur a p)
unfolding do_open_event
do_open_event-EventFits s t dur a p fit =
    bind-EventFits p (keep_if (not (is_negative (ret_val a))) "failed_open" t) _ fit (λ _ _.
      bind-EventFits p (or_skip (no_path_reason a) (resolve_path a p)) _ fit (λ path _.
        bind-EventFits p
          (if (parse_raw_flags a.flags).is_dir then ignored else ok (parse_raw_flags a.flags)) _ fit
          (λ f _.
            open_keyed-EventFits s t path f dur p (open_key a p) fit (open_key-EventFits a p fit))))

pub note_event-EventFits :
    (observed : Bool) (p : DfParser)
    → ((note_event observed p).b.per_stream ≡ p.b.per_stream)
      × ((note_event observed p).fdt ≡ p.fdt)
unfolding note
note_event-EventFits true p = (refl, refl)
note_event-EventFits false p = (refl, refl)

pub moved_at-EventFits :
    (off : Option ℤ) (s t fd : ℤ) (kind : OpKind) (dur : Option ℤ) (e : Entry) (len n : ℤ)
    (p : DfParser)
    → EventFits p
    → IsMoving kind
    → held p.fdt (s, fd) ≡ some e.handle
    → EventFits (moved_at off s t fd kind dur e len n p)
moved_at-EventFits (some off) s t fd kind dur e len n p (owner, v) m was = (
  owner,
  move-Tracked owner p.b p.fdt p.fdt (moved_op t s kind dur e off len n) v
      (HoldsLess-self p.fdt v.sound) fd e.handle was refl m,
)
moved_at-EventFits none s t fd kind dur e len n p (owner, v) m was = (
  owner,
  move-Tracked owner p.b p.fdt (advance (s, fd) n p.fdt) (moved_op t s kind dur e e.cursor len n) v
      (HoldsLess-advance p.fdt (s, fd) n v.sound) fd e.handle was refl m,
)

pub do_rw_event-EventFits :
    (s t : ℤ) (dur : Option ℤ) (a : DfArgs) (kind : OpKind) (positional : Bool) (p : DfParser)
    → IsMoving kind
    → EventFits p
    → EventFits (do_rw_event s t dur a kind positional p)
unfolding do_rw_event resolve
do_rw_event-EventFits s t dur a kind positional p0 m fit0 =
    bind-EventFits p (or_skip "unresolved_fd" key) _ fit (λ fd _.
      bind-EventFits p (with_handle (lookup (s, fd) p.fdt.entries)) _ fit (λ e found.
        bind-EventFits p (or_natural "failed_syscall" (ret_val a)) _ fit (λ n _.
          bind-EventFits p (keep_if (not (n == pos 0)) (moved_nothing kind) n) _ fit (λ _ _.
            bind-EventFits p
              (keep_if (not (is_write kind && e.append_mode)) "append_write_unmodeled" n) _ fit
              (λ _ _.
                moved_or_noted fd e n (event_request kind a n).1
                  (held-with_handle (lookup (s, fd) p.fdt.entries) e found))))))
  where
    p : DfParser
    p = (resolve_fd_key a p0).0

    key : Option ℤ
    key = (resolve_fd_key a p0).1

    fit : EventFits p
    fit = resolve_fd_key-EventFits a p0 fit0

    moved_or_noted :
        (fd : ℤ) (e : Entry) (n : ℤ) (observed : Bool)
        → held p.fdt (s, fd) ≡ some e.handle
        → EventFits (
            moved_at
              (explicit_offset positional a.offset)
              s
              t
              fd
              kind
              dur
              e
              (event_request kind a n).0
              n
              (note_event observed p))
    moved_or_noted fd e n observed was =
        let same = note_event-EventFits observed p in
        moved_at-EventFits (explicit_offset positional a.offset) s t fd kind dur e
          (event_request kind a n).0 n (note_event observed p)
          (
            fit.0,
            subst (λ x. Tracked fit.0 x (note_event observed p).fdt) (sym same.0)
                (subst (Tracked fit.0 p.b.per_stream) (sym same.1) fit.1),
          )
          m (ap (λ x. held x (s, fd)) same.1 ∙ was)
