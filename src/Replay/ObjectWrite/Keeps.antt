-- ===== src/Replay/ObjectWrite/Keeps.antt =====
-- pkg/replay/objectwrite.go: one op leaves a handle that is open for writing as it is, or moved past
-- what the op writes through it.
use ioflux.Prelude.{
  ℤ, pos, Bool, Option, lookup, some, not, ◌≡◌, add64, ◌==◌, true, false, List, int_eq, Bool-cases,
  insert, arith, erase, lookup-erase, lookup-insert, ltb_ℤ, inl, none, ap, ◌∙◌, ◌&&◌, inr,
  int_beq_iff, refl,
}
use ioflux.Replay.ObjectWrite.{
  continues, ineligible, OwHandle, ObjectWriteEligibility, Observed, observe_close, observe_write,
  observe_range, write_state, close_state, set_size, observe_kind, is_write_mode, observe_open,
  extend, target_at,
}
use ioflux.Trace.Types.{
  op_close, op_delete, op_fsync, op_get, op_head, op_open, op_other, op_put, op_read, op_stat,
  op_write, Op, OpKind, Mode, TargetInfo,
}

abbrev spares_kind : ℤ → OpKind → Option ℤ → Option ℤ → Bool
spares_kind h op_open (some j) (some tgt) = not (j == h)
spares_kind h op_close (some j) tgt = not (j == h)
spares_kind h _ _ _ = true

abbrev pub spares : ℤ → Op → Bool
spares h op = spares_kind h op.op op.h op.tgt

abbrev pub next_range : ℤ → Bool → Option ℤ → Option ℤ → ℤ
next_range done true (some off) (some len) = add64 done len
next_range done _ _ _ = done

abbrev writes_kind : ℤ → OpKind → Option ℤ → Bool
writes_kind h op_write (some j) = j == h
writes_kind h _ _ = false

abbrev pub writes_to : ℤ → Op → Bool
writes_to h op = writes_kind h op.op op.h

abbrev pub Holds : ℤ → OwHandle → Observed → Type 0
Holds h st (continues e) = lookup h e.handles ≡ some st
Holds h st (ineligible why) = Unit {0}

module _ (h : ℤ) (st : OwHandle) (e : ObjectWriteEligibility)
    (a : lookup h e.handles ≡ some st) where
  abbrev moved_to : ℤ → OwHandle
  moved_to n = record st { next_off = n }

  insert-Holds :
      (j : ℤ) (x : OwHandle)
      → (j == h) ≡ false
      → Holds h st (continues (record e { handles = insert j x e.handles }))
  insert-Holds j x d = lookup-insert j h x e.handles ∙ rw d a

  erase-Holds :
      (j : ℤ) (sizes : List (ℤ × ℤ))
      → (j == h) ≡ false
      → Holds h st (continues (record { handles = erase j e.handles; sizes = sizes }))
  erase-Holds j sizes d = lookup-erase j h e.handles ∙ rw d a

  range-other :
      (j : ℤ) (x : OwHandle) (off len : Option ℤ)
      → (j == h) ≡ false
      → Holds h st (observe_range e j x off len)
  unfolding observe_range extend
  range-other j x none len d = a
  range-other j x (some o) none d = a
  range-other j x (some o) (some n) d = elim (Bool-cases (o == x.next_off)) [
    | inl p ↦ rw p (insert-Holds j _ d)
    | inr p ↦ rw p tt
  ]

  range-same :
      (j : ℤ) (off len : Option ℤ)
      → (j == h) ≡ true
      → Holds h (moved_to (next_range st.next_off true off len)) (observe_range e j st off len)
  unfolding observe_range extend
  range-same j none len p = a
  range-same j (some o) none p = a
  range-same j (some o) (some n) p = elim (Bool-cases (o == st.next_off)) [
    | inl q ↦ rw q (lookup-insert j h _ e.handles ∙ rw p refl)
    | inr q ↦ rw q tt
  ]

  write-other :
      (op : Op) (j : ℤ) (o : Option OwHandle) → (j == h) ≡ false → Holds h st (write_state e op j o)
  unfolding write_state
  write-other op j none d = a
  write-other op j (some x) d = elim (Bool-cases (is_write_mode x.mode)) [
    | inl p ↦ rw p (range-other j x op.off op.len d)
    | inr p ↦ rw p tt
  ]

  size-other :
      (j : ℤ) (x : OwHandle) (t : Option TargetInfo)
      → (j == h) ≡ false
      → Holds h st (set_size (record e { handles = erase j e.handles }) x t)
  unfolding set_size
  size-other j x none d = erase-Holds j e.sizes d
  size-other j x (some t) d =
      elim (Bool-cases (ltb_ℤ (pos 0) t.size && not (x.next_off == t.size))) [
        | inl p ↦ rw p tt
        | inr p ↦ rw p (erase-Holds j (insert x.target x.next_off e.sizes) d)
      ]

  close-other :
      (targets : List TargetInfo) (j : ℤ) (o : Option OwHandle)
      → (j == h) ≡ false
      → Holds h st (close_state e targets j o)
  unfolding close_state
  close-other targets j none d = a
  close-other targets j (some x) d = elim (Bool-cases (is_write_mode x.mode)) [
    | inl p ↦ rw p (size-other j x (target_at x.target targets) d)
    | inr p ↦ rw p (erase-Holds j e.sizes d)
  ]

  write-same :
      (op : Op) (j : ℤ) (o : Option OwHandle)
      → is_write_mode st.mode ≡ true
      → o ≡ some st
      → (j == h) ≡ true
      → Holds h (moved_to (next_range st.next_off true op.off op.len)) (write_state e op j o)
  unfolding write_state
  write-same op j o m q p = rw (q, m) (range-same j op.off op.len p)

  write-any :
      (op : Op) (oh : Option ℤ)
      → is_write_mode st.mode ≡ true
      → Holds h
          (moved_to (next_range st.next_off (writes_kind h op_write oh) op.off op.len))
          (observe_write e op oh)
  unfolding observe_write
  write-any op none m = a
  write-any op (some j) m = elim (Bool-cases (j == h)) [
    | inl p ↦ rw p (
        write-same op j (lookup j e.handles) m
          (ap (λ i. lookup i e.handles) ((int_beq_iff j h).0 p) ∙ a) p)
    | inr p ↦ rw p (write-other op j (lookup j e.handles) p)
  ]

  open-any :
      (mode : Mode) (oh tgt : Option ℤ)
      → spares_kind h op_open oh tgt ≡ true
      → Holds h st (observe_open e mode oh tgt)
  open-any mode none tgt s = a
  open-any mode (some j) none s = a
  open-any mode (some j) (some t) s = insert-Holds j _ (ground arith)

  close-any :
      (targets : List TargetInfo) (oh tgt : Option ℤ)
      → spares_kind h op_close oh tgt ≡ true
      → Holds h st (observe_close e targets oh)
  unfolding observe_close
  close-any targets none tgt s = a
  close-any targets (some j) tgt s = close-other targets j (lookup j e.handles) (ground arith)

  -- One op that spares a handle open for writing moves it past what the op writes through it.
  pub kind-Holds :
      (k : OpKind) (op : Op) (targets : List TargetInfo)
      → is_write_mode st.mode ≡ true
      → spares_kind h k op.h op.tgt ≡ true
      → Holds h
          (moved_to (next_range st.next_off (writes_kind h k op.h) op.off op.len))
          (observe_kind k e op targets)
  unfolding observe_kind
  kind-Holds op_open op targets m s = open-any op.mode op.h op.tgt s
  kind-Holds op_close op targets m s = close-any targets op.h op.tgt s
  kind-Holds op_read op targets m s = a
  kind-Holds op_write op targets m s = write-any op op.h m
  kind-Holds op_stat op targets m s = a
  kind-Holds op_fsync op targets m s = a
  kind-Holds op_put op targets m s = a
  kind-Holds op_get op targets m s = a
  kind-Holds op_head op targets m s = a
  kind-Holds op_delete op targets m s = a
  kind-Holds (op_other x) op targets m s = a

  -- A write through the handle that goes on starts where the handle's writes end.
  range-next :
      (j : ℤ) (off len : Option ℤ) (e' : ObjectWriteEligibility) (o n : ℤ)
      → observe_range e j st off len ≡ continues e'
      → off ≡ some o
      → len ≡ some n
      → o ≡ st.next_off
  unfolding observe_range
  range-next j none len e' o n c p q = absurd (ground arith)
  range-next j (some x) none e' o n c p q = absurd (ground arith)
  range-next j (some x) (some y) e' o n c p q = elim (Bool-cases (x == st.next_off)) [
    | inl r ↦ let r' = (int_beq_iff x st.next_off).0 r in ground arith
    | inr r ↦ let c' = rw r at c in absurd (ground arith)
  ]

  write-next :
      (op : Op) (j : ℤ) (u : Option OwHandle) (e' : ObjectWriteEligibility) (o n : ℤ)
      → is_write_mode st.mode ≡ true
      → u ≡ some st
      → write_state e op j u ≡ continues e'
      → op.off ≡ some o
      → op.len ≡ some n
      → o ≡ st.next_off
  unfolding write_state
  write-next op j u e' o n m q c p l = range-next j op.off op.len e' o n (rw (q, m) at c) p l

  pub kind-next :
      (k : OpKind) (op : Op) (oh : Option ℤ) (targets : List TargetInfo)
      (e' : ObjectWriteEligibility) (o n : ℤ)
      → is_write_mode st.mode ≡ true
      → op.h ≡ oh
      → observe_kind k e op targets ≡ continues e'
      → writes_kind h k oh ≡ true
      → op.off ≡ some o
      → op.len ≡ some n
      → o ≡ st.next_off
  unfolding observe_kind observe_write
  kind-next op_write op (some j) targets e' o n m q c w p l =
      write-next op j (lookup j e.handles) e' o n m
        (ap (λ i. lookup i e.handles) ((int_beq_iff j h).0 w) ∙ a) (rw q at c) p l
  kind-next op_write op none targets e' o n m q c w p l = absurd (ground arith)
  kind-next op_open op oh targets e' o n m q c w p l = absurd (ground arith)
  kind-next op_close op oh targets e' o n m q c w p l = absurd (ground arith)
  kind-next op_read op oh targets e' o n m q c w p l = absurd (ground arith)
  kind-next op_stat op oh targets e' o n m q c w p l = absurd (ground arith)
  kind-next op_fsync op oh targets e' o n m q c w p l = absurd (ground arith)
  kind-next op_put op oh targets e' o n m q c w p l = absurd (ground arith)
  kind-next op_get op oh targets e' o n m q c w p l = absurd (ground arith)
  kind-next op_head op oh targets e' o n m q c w p l = absurd (ground arith)
  kind-next op_delete op oh targets e' o n m q c w p l = absurd (ground arith)
  kind-next (op_other s) op oh targets e' o n m q c w p l = absurd (ground arith)
