-- ===== src/Importer/Tracked/Moves.antt =====
-- pkg/importer: the ways in which an importer adds an op, and that each keeps the record of handles.
use ioflux.Importer.Ops.{plain_op}
use ioflux.Prelude.{
  pair_eq, int_eq, ℕ, pos, ℤ, List, Bool, Option, ◌≡◌, none, refl, if◌then◌else◌, some, ◌∷◌, ◌≢◌,
  subst, sym, ◌==◌, true, ap, arith, false, ◌∙◌, Bool-cases, inl, int_eq, inr, nat_eq, ◌⊎◌,
  Option-cases,
}
use ioflux.Trace.Types.{op_close, op_fsync, op_open, op_read, op_stat, op_write, Op, OpKind}
use ioflux.Importer.FdTable.{FdTable, FdKey, close_fd}
use ioflux.Importer.Builder.{Builder, add}
use ioflux.Importer.FdTable.Handles.{held}
use ioflux.Importer.Tracked.{Tracked, said, Owned, Tracked-add, track-other, Tracked-table}
use ioflux.Validate.Lifecycle.{HandleIsOpen, track, HandleFits, history}
use ioflux.Importer.Tracked.Tables.{HoldsLess-close, HoldsLess, back-close_fd, gone-close_fd}

-- The ops that an open handle is used for.
abbrev pub IsMoving : OpKind → Type 0
IsMoving op_read = Unit
IsMoving op_write = Unit
IsMoving op_fsync = Unit
IsMoving _ = ⊥

track-moving :
    (k : OpKind) (op : Op) (h : ℤ) (known : Option (ℤ × Bool))
    → IsMoving k
    → track k op h known ≡ known
track-moving op_read op h known m = refl
track-moving op_write op h known m = refl
track-moving op_fsync op h known m = refl
track-moving op_open op h known m = absurd m
track-moving op_close op h known m = absurd m
track-moving _ op h known m = refl

fits-moving :
    (k : OpKind) (op : Op) (earlier : List Op)
    → IsMoving k
    → HandleIsOpen op.h op.s earlier
    → HandleFits k op earlier
fits-moving op_read op earlier m o = o
fits-moving op_write op earlier m o = o
fits-moving op_fsync op earlier m o = o
fits-moving _ op earlier m o = absurd m

pub history-after :
    (op : Op) (b : Bool) (h : ℤ) (ops : List Op)
    → track op.op op h (history h ops) ≡ history h ops
    → history h (if b then op ∷ ops else ops) ≡ history h ops
history-after op true h ops e = e
history-after op false h ops e = refl

module _ (owner : ℕ → ℤ) (b : Builder) (t t' : FdTable) (op : Op) (v : Tracked owner b.per_stream t)
    (less : HoldsLess t t') where
  -- An op that ends no handle that the table still holds, and gives none.
  quiet-Tracked :
      HandleFits op.op op (said op.s b.per_stream)
      → Owned owner t.next_handle op.h op.s
      → ((k : FdKey) (h : ℕ) (known : Option (ℤ × Bool))
          → held t' k ≡ some h
          → track op.op op (pos h) known ≡ known)
      → Tracked owner (add op b).per_stream t'
  quiet-Tracked fits own quiet =
      Tracked-add owner owner b t t' op v less.0 (omega (arith, less.1)) (λ j lt. refl) fits
        (subst (λ n. Owned owner n op.h op.s) less.1 own)
        (λ k h e.
          let was = v.opened k h (less.2 k h e) in
          (
            was.0,
            history-after op (op.s == k.0) (pos h) (said k.0 b.per_stream)
                  (quiet k h (history (pos h) (said k.0 b.per_stream)) e)
                ∙ was.1,
          ))

  -- A handle that a key of the op's stream holds is open, and owned by the stream.
  pub held-HandleIsOpen :
      (fd : ℤ) (h : ℕ)
      → held t (op.s, fd) ≡ some h
      → HandleIsOpen (some (pos h)) op.s (said op.s b.per_stream)
        × Owned owner t.next_handle (some (pos h)) op.s
  held-HandleIsOpen fd h e =
      let was = v.opened (op.s, fd) h e in (was.1, (v.sound.below (op.s, fd) h e, was.0))

  pub move-Tracked :
      (fd : ℤ) (h : ℕ)
      → held t (op.s, fd) ≡ some h
      → op.h ≡ some (pos h)
      → IsMoving op.op
      → Tracked owner (add op b).per_stream t'
  move-Tracked fd h e same m =
      let was = held-HandleIsOpen fd h e in
      quiet-Tracked
        (fits-moving op.op op (said op.s b.per_stream) m
          (subst (λ o. HandleIsOpen o op.s (said op.s b.per_stream)) (sym same) was.0))
        (subst (λ o. Owned owner t.next_handle o op.s) (sym same) was.1)
        (λ k h' known e'. track-moving op.op op (pos h') known m)

  pub stat-Tracked : op.op ≡ op_stat → op.h ≡ none → Tracked owner (add op b).per_stream t'
  stat-Tracked kind none_held =
      quiet-Tracked (rw kind none_held)
        (subst (λ o. Owned owner t.next_handle o op.s) (sym none_held) tt)
        (λ k h known e. ap (λ x. track x op (pos h) known) kind)

  -- A CLOSE of a handle that the table holds no more.
  pub close-Tracked :
      (fd : ℤ) (h : ℕ)
      → held t (op.s, fd) ≡ some h
      → op.h ≡ some (pos h)
      → op.op ≡ op_close
      → ((k : FdKey) → held t' k ≢ some h)
      → Tracked owner (add op b).per_stream t'
  close-Tracked fd h e same kind gone =
      let was = held-HandleIsOpen fd h e in
      quiet-Tracked
        (rw kind (subst (λ o. HandleIsOpen o op.s (said op.s b.per_stream)) (sym same) was.0))
        (subst (λ o. Owned owner t.next_handle o op.s) (sym same) was.1)
        (λ k h' known e'.
          ap (λ x. track x op (pos h') known) kind
          ∙ track-other op_close op (pos h') known (rw same (other_handle k h' e')))
    where
      other_handle : (k : FdKey) (h' : ℕ) → held t' k ≡ some h' → (pos h == pos h') ≡ false
      other_handle k h' e' = elim (Bool-cases (pos h == pos h')) [
        | inl q ↦ let equal : h' ≡ h = ground (arith, q) in absurd (gone k (e' ∙ ap some equal))
        | inr q ↦ q
      ]

-- A descriptor of stream s closes: with no handle nothing is added, with one its CLOSE.
pub close-outcome :
    (owner : ℕ → ℤ) (b : Builder) (t : FdTable) (s fd time : ℤ) (dur : Option ℤ)
    → Tracked owner b.per_stream t
    → (((close_fd (s, fd) t).1 ≡ none) × Tracked owner b.per_stream (close_fd (s, fd) t).0)
      ⊎ ((h : ℕ) × ((close_fd (s, fd) t).1 ≡ some h)
          × Tracked owner
              (add (record (plain_op time s op_close dur) { h = some (pos h) }) b).per_stream
              (close_fd (s, fd) t).0)
close-outcome owner b t s fd time dur v = elim (Option-cases (held t (s, fd))) [
  | inl q ↦
      let less = HoldsLess-close t (s, fd) v.sound in
      inl (
        back-close_fd t (s, fd) ∙ q,
        Tracked-table owner b.per_stream t (close_fd (s, fd) t).0 v less.0 less.1 less.2,
      )
  | inr (h, q) ↦ inr (
    h,
    back-close_fd t (s, fd) ∙ q,
    close-Tracked owner b t (close_fd (s, fd) t).0
        (record (plain_op time s op_close dur) { h = some (pos h) }) v
        (HoldsLess-close t (s, fd) v.sound) fd h q refl refl
        (λ k. gone-close_fd t (s, fd) k h v.sound q),
  )
]

pub pair_with : (r : FdTable × Option ℕ) (o : Option ℕ) → r.1 ≡ o → r ≡ (r.0, o)
pair_with r o e = λ i. (r.0, e i)
