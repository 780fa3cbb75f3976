-- ===== src/Importer/Strace/Keeps.antt =====
-- pkg/importer/strace/parse.go: every call keeps the record of handles true.
use ioflux.Importer.FdTable.Returned.{given-open_fd}
use ioflux.Importer.Checked.{
  ◌>>=◌, ignored, ok, skipped, Checked, or_natural, or_skip, or_ignore, keep_if,
}
use ioflux.Importer.Flags.{OpenFlags, parse_open_flags, flag_names}
use ioflux.Prelude.{
  pair_eq, int_eq, ℕ, Option, ℤ, String, Bool, List, ◌≡◌, some, Option-cases, lookup, arith, inl,
  none, Bool-cases, inr, string_eq, pos, refl, true, false, subst, not, ◌==◌, sym, ◌&&◌, ap,
}
use ioflux.Importer.Strace.Parser.{Parser, skip_call, settle, failed_ret}
use ioflux.Trace.Types.{target_file, OpKind, mode_write, op_open, Mode}
use ioflux.Importer.Strace.Calls.{
  add_moved, is_positional, open_file, do_open, open_path, add_close, fourth_int, do_creat,
  do_close, noted, do_rw, first_int, requested, open_args, first_quoted, path_at,
}
use ioflux.Importer.Builder.{skip, target, note, intern, Builder}
use ioflux.Importer.FdTable.{Entry, resolve, close_fd, open_fd, advance}
use ioflux.Importer.Tracked.{Tracked, Tracked-table}
use ioflux.Importer.FdTable.Handles.{handle_of, held}
use ioflux.Importer.Tracked.Moves.{IsMoving, move-Tracked, close-outcome, pair_with}
use ioflux.Importer.Strace.Scan.{parse_leading_int}
use ioflux.Importer.Strace.Quoted.{parse_quoted}
use ioflux.Importer.Ops.{moved_op, with_handle, moved_nothing, plain_op, is_write}
use ioflux.Importer.Tracked.Opens.{owner_after, open-Tracked}
use ioflux.Importer.Tracked.Tables.{HoldsLess-open_dir, HoldsLess-self, HoldsLess-advance}

abbrev pub Fits : Parser → Type 0
Fits p = (owner : ℕ → ℤ) × Tracked owner p.b.per_stream p.fdt

pub skip-Fits : (reason : String) (p : Parser) → Fits p → Fits (skip_call reason p)
unfolding skip
skip-Fits reason p f = f

noted-Fits : (observed : Bool) (p : Parser) → Fits p → Fits (noted observed p)
unfolding note
noted-Fits true p f = f
noted-Fits false p f = f

pub bind-Fits {ℓ} :
    {A : Type ℓ} (p : Parser) (m : Checked A) (f : A → Checked Parser)
    → Fits p
    → ((a : A) → m ≡ ok a → Fits (settle p (f a)))
    → Fits (settle p (m >>= f))
bind-Fits p (ok a) f fit k = k a refl
bind-Fits p (skipped reason) f fit k = skip-Fits reason p fit
bind-Fits p ignored f fit k = fit

pub per_stream-target :
    (path : String) (b : Builder) → (target path target_file b).0.per_stream ≡ b.per_stream
unfolding target intern
per_stream-target path b = elim (Option-cases (lookup path b.target_idx)) [
  | inl e ↦ rw (e, intern)
  | inr (id, e) ↦ rw (e, intern)
]

pub held-with_handle :
    (o : Option Entry) (e : Entry) → with_handle o ≡ ok e → handle_of o ≡ some e.handle
held-with_handle none e q = cc
held-with_handle (some x) e q = ground (arith, q)

add_moved-Fits :
    (s t fd : ℤ) (name : String) (a : List String) (dur : Option ℤ) (kind : OpKind) (e : Entry)
    (len n : ℤ) (p : Parser)
    → Fits p
    → IsMoving kind
    → held p.fdt (s, fd) ≡ some e.handle
    → Fits (add_moved s t fd name a dur kind e len n p)
unfolding add_moved
add_moved-Fits s t fd name a dur kind e len n p (owner, v) m was =
    elim (Bool-cases (is_positional name)) [
      | inl q ↦ rw q (
          bind-Fits p (or_skip "unparsed_line" (fourth_int a)) _ (owner, v)
            (λ off _. (
              owner,
              move-Tracked owner p.b p.fdt p.fdt (moved_op t s kind dur e off len n) v
                  (HoldsLess-self p.fdt v.sound) fd e.handle was refl m,
            )))
      | inr q ↦ rw q (
        owner,
        move-Tracked owner p.b p.fdt (advance (s, fd) n p.fdt)
            (moved_op t s kind dur e e.cursor len n) v (HoldsLess-advance p.fdt (s, fd) n v.sound)
            fd e.handle was refl m,
      )
    ]

open_file-Fits :
    (s t fd : ℤ) (path : String) (mode : Mode) (flags : List String) (app : Bool) (dur : Option ℤ)
    (p : Parser)
    → Fits p
    → Fits (open_file s t fd path mode flags app dur p)
unfolding open_file
open_file-Fits s t fd path mode flags app dur p (owner, v) =
    let named = target path target_file p.b in
    let op = record (plain_op t s op_open dur) {
      tgt = some (pos named.1);
      h = some (pos (open_fd (s, fd) (pos named.1) path app p.fdt).1);
      mode = mode;
      flags = flags;
    } in
    let v' = subst (λ m. Tracked owner m p.fdt) (sym (per_stream-target path p.b)) v in
    (
      owner_after owner p.fdt.next_handle s,
      open-Tracked owner named.0 p.fdt op fd v' refl
          (ap (λ h. some (pos h)) (given-open_fd p.fdt (s, fd) (pos named.1) path app))
          (pos named.1) path app,
    )

open_path-Fits :
    (s t fd : ℤ) (path : String) (f : OpenFlags) (dur : Option ℤ) (p : Parser)
    → Fits p
    → Fits (open_path s t fd path f dur p)
unfolding open_path
open_path-Fits s t fd path f dur p (owner, v) = elim (Bool-cases f.is_dir) [
  | inl q ↦ rw q (
      let less = HoldsLess-open_dir p.fdt (s, fd) path v.sound in
      (owner, Tracked-table owner p.b.per_stream p.fdt _ v less.0 less.1 less.2))
  | inr q ↦ rw q (open_file-Fits s t fd path f.mode (flag_names f) f.is_app dur p (owner, v))
]

pub do_open-Fits :
    (s t : ℤ) (a : List String) (ret : String) (dur : Option ℤ) (at how : Bool) (p : Parser)
    → Fits p
    → Fits (do_open s t a ret dur at how p)
unfolding do_open
do_open-Fits s t a ret dur at how p fit =
    bind-Fits p (or_natural "failed_open" (parse_leading_int ret)) _ fit (λ fd _.
      bind-Fits p (or_skip "unparsed_line" (open_args at how a)) _ fit (λ args _.
        bind-Fits p (or_skip "unparsed_line" (parse_quoted args.path_arg)) _ fit (λ path _.
          bind-Fits p (or_skip "unresolved_dirfd" (path_at at s args.dirfd_arg path p.fdt)) _ fit
            (λ resolved _.
              open_path-Fits s t fd resolved (parse_open_flags args.flag_str) dur p fit))))

pub do_creat-Fits :
    (s t : ℤ) (a : List String) (ret : String) (dur : Option ℤ) (p : Parser)
    → Fits p
    → Fits (do_creat s t a ret dur p)
unfolding do_creat
do_creat-Fits s t a ret dur p fit =
    bind-Fits p (or_natural "failed_open" (parse_leading_int ret)) _ fit (λ fd _.
      bind-Fits p (or_skip "unparsed_line" (first_quoted a)) _ fit
        (λ path _. open_file-Fits s t fd path mode_write _ false dur p fit))

pub do_rw-Fits :
    (s t : ℤ) (name : String) (a : List String) (ret : String) (dur : Option ℤ) (kind : OpKind)
    (p : Parser)
    → IsMoving kind
    → Fits p
    → Fits (do_rw s t name a ret dur kind p)
unfolding do_rw resolve
do_rw-Fits s t name a ret dur kind p m fit =
    bind-Fits p (or_skip "unparsed_line" (first_int a)) _ fit (λ fd _.
      bind-Fits p (with_handle (lookup (s, fd) p.fdt.entries)) _ fit (λ e found.
        bind-Fits p (or_natural "failed_syscall" (parse_leading_int ret)) _ fit (λ n _.
          bind-Fits p (keep_if (not (n == pos 0)) (moved_nothing kind) n) _ fit (λ _ _.
            bind-Fits p (keep_if (not (is_write kind && e.append_mode)) "append_write_unmodeled" n)
              _ fit
              (λ _ _.
                moved_or_noted fd e n (requested kind a n).1
                  (held-with_handle (lookup (s, fd) p.fdt.entries) e found))))))
  where
    moved_or_noted :
        (fd : ℤ) (e : Entry) (n : ℤ) (observed : Bool)
        → held p.fdt (s, fd) ≡ some e.handle
        → Fits (add_moved s t fd name a dur kind e (requested kind a n).0 n (noted observed p))
    moved_or_noted fd e n true was =
        add_moved-Fits s t fd name a dur kind e (requested kind a n).0 n p fit m was
    moved_or_noted fd e n false was =
        add_moved-Fits s t fd name a dur kind e (requested kind a n).0 n (noted false p)
          (noted-Fits false p fit) m was

add_close-Fits :
    (s t fd : ℤ) (dur : Option ℤ) (p : Parser)
    → Fits p
    → Fits (add_close s t dur (close_fd (s, fd) p.fdt) p)
add_close-Fits s t fd dur p (owner, v) = elim (close-outcome owner p.b p.fdt s fd t dur v) [
  | inl (q, v') ↦ rw (pair_with (close_fd (s, fd) p.fdt) none q) (owner, v')
  | inr (h, q, v') ↦ rw (pair_with (close_fd (s, fd) p.fdt) (some h) q) (owner, v')
]

pub do_close-Fits :
    (s t : ℤ) (a : List String) (ret : String) (dur : Option ℤ) (p : Parser)
    → Fits p
    → Fits (do_close s t a ret dur p)
unfolding do_close
do_close-Fits s t a ret dur p fit = bind-Fits p (or_ignore (first_int a)) _ fit (λ fd _.
    bind-Fits p (keep_if (not (failed_ret ret)) "failed_syscall" fd) _ fit
      (λ _ _. add_close-Fits s t fd dur p fit))
