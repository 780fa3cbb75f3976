-- ===== src/Importer/Tracked/Opens.antt =====
-- pkg/importer: an OPEN keeps the record of handles.
use ioflux.Prelude.{
  pair_eq, int_eq, ℕ, pos, ℤ, List, Bool, ◌≡◌, if◌then◌else◌, some, ◌∷◌, sym, ◌==◌, true, ap, arith,
  false, ◌∙◌, inl, int_eq, inr, ◌<◌, nat_eq, String, pair_beq_iff, beq_refl,
}
use ioflux.Trace.Types.{op_open, Op}
use ioflux.Importer.FdTable.{FdTable, FdKey, open_fd}
use ioflux.Importer.Builder.{Builder, add}
use ioflux.Importer.FdTable.Handles.{
  IsSound, held, opening, perform-IsSound, perform, new_or_old, held-perform,
}
use ioflux.Importer.Tracked.{
  Tracked, said, Owned, Tracked-add, track-other, history-unused, said_after,
}
use ioflux.Validate.Lifecycle.{HandleFits, history, same_handle}
use ioflux.Importer.Tracked.Moves.{history-after}

-- The owners once the next handle is given to a stream.
abbrev pub owner_after : (ℕ → ℤ) → ℕ → ℤ → ℕ → ℤ
owner_after owner n s j = if j == n then s else owner j

owner_after-old :
    (owner : ℕ → ℤ) (n : ℕ) (s : ℤ) (j : ℕ) → j < n → owner_after owner n s j ≡ owner j
owner_after-old owner n s j lt = ground arith

owner_after-new : (owner : ℕ → ℤ) (n : ℕ) (s : ℤ) → owner_after owner n s n ≡ s
owner_after-new owner n s = ground arith

same_handle-old : (h n : ℕ) → h < n → same_handle (some (pos n)) (pos h) ≡ false
same_handle-old h n lt = ground arith

same_handle-new : (n : ℕ) → same_handle (some (pos n)) (pos n) ≡ true
same_handle-new n = ground arith

module _ (owner : ℕ → ℤ) (b : Builder) (t : FdTable) (op : Op) (fd : ℤ)
    (v : Tracked owner b.per_stream t) (kind : op.op ≡ op_open)
    (gives : op.h ≡ some (pos t.next_handle)) where
  opened_history :
      (earlier : List Op) → history (pos t.next_handle) (op ∷ earlier) ≡ some (op.s, false)
  opened_history earlier = rw (kind, gives, same_handle-new)

  history-opened :
      (c : Bool) (earlier : List Op)
      → c ≡ true
      → history (pos t.next_handle) (if c then op ∷ earlier else earlier) ≡ some (op.s, false)
  history-opened c earlier e = rw e (opened_history earlier)

  history-old :
      (c : Bool) (h : ℕ) (ops : List Op)
      → h < t.next_handle
      → history (pos h) (if c then op ∷ ops else ops) ≡ history (pos h) ops
  history-old c h ops lt = history-after op c (pos h) ops (
      track-other op.op op (pos h) (history (pos h) ops)
        (ap (λ o. same_handle o (pos h)) gives ∙ same_handle-old h t.next_handle lt))

  -- An OPEN with the handle that the table has given out for it.
  pub open-Tracked :
      (tgt : ℤ) (path : String) (app : Bool)
      → Tracked
          (owner_after owner t.next_handle op.s)
          (add op b).per_stream
          (open_fd (op.s, fd) tgt path app t).0
  unfolding open_fd perform
  open-Tracked tgt path app =
      Tracked-add owner (owner_after owner t.next_handle op.s) b t t' op v sound (omega arith)
        (λ j lt. owner_after-old owner t.next_handle op.s j lt) fits own opened
    where
      t' : FdTable
      t' = (open_fd (op.s, fd) tgt path app t).0

      sound : IsSound t'
      sound = perform-IsSound t (opening (op.s, fd) tgt path app) v.sound

      fits : HandleFits op.op op (said op.s b.per_stream)
      fits =
          rw (kind, gives)
            (history-unused owner t.next_handle t.next_handle (said op.s b.per_stream) (omega arith)
              (v.owned op.s))

      own : Owned (owner_after owner t.next_handle op.s) t'.next_handle op.h op.s
      own = rw gives (omega arith, owner_after-new owner t.next_handle op.s)

      opened :
          (k : FdKey) (h : ℕ)
          → held t' k ≡ some h
          → (owner_after owner t.next_handle op.s h ≡ k.0)
            × (history (pos h) (said_after op b.per_stream k.0) ≡ some (k.0, false))
      opened k h e =
          elim (new_or_old ((op.s, fd) == k) (held t k) t.next_handle h
            (pair_beq_iff (op.s, fd) k).0
            (sym (held-perform t (opening (op.s, fd) tgt path app) k) ∙ e)) [
              | inl p ↦
                  let lt = v.sound.below k h p in
                  let was = v.opened k h p in
                  (
                    owner_after-old owner t.next_handle op.s h lt ∙ was.0,
                    history-old (op.s == k.0) h (said k.0 b.per_stream) lt ∙ was.1,
                  )
              | inr (same, equal) ↦
                  rw (equal, ← same)
                    (
                      owner_after-new owner t.next_handle op.s,
                      history-opened (op.s == op.s) (said op.s b.per_stream) (beq_refl op.s),
                    )
            ]
