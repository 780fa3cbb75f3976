-- ===== src/Replay/ObjectWrite/Coverage.antt =====
-- pkg/replay/objectwrite.go: what a lifecycle that stays eligible has written.
use ioflux.Prelude.{
  ℤ, pos, List, Bool, ◌∷◌, Option, ◌≡◌, lookup, [], some, true, not, int_eq, arith, Bool-cases,
  none, ◌==◌, ap, inl, int_beq_iff, false, All, insert, erase, ◌∙◌, lookup-insert, inr, ◌++◌, ltb_ℤ,
  refl, ◌&&◌, sym, beq_refl, ◌≤ℤ◌, ◌⊎◌,
}
use ioflux.Replay.ObjectWrite.{
  continues, ineligible, OwHandle, ObjectWriteEligibility, Observed, close_state, set_size,
  observe_close, observe_kind, observe_after, observe, is_write_mode, target_at,
}
use ioflux.Trace.Types.{op_close, op_open, Op, OpKind, Mode, TargetInfo}
use ioflux.Replay.ObjectWrite.Keeps.{next_range, spares, Holds, writes_to, kind-Holds, kind-next}

-- The bytes that the ops write through the handle, after those that are done.
pub covered : ℤ → ℤ → List Op → ℤ
covered h done [] = done
covered h done (op ∷ ops) = covered h (next_range done (writes_to h op) op.off op.len) ops

-- Every such write starts where the one before it ended.
abbrev StartsAt : ℤ → Bool → Option ℤ → Option ℤ → Type 0
StartsAt done true (some off) (some len) = off ≡ done
StartsAt done _ _ _ = Unit {0}

pub Sequential : ℤ → ℤ → List Op → Type 0
Sequential h done [] = Unit {0}
Sequential h done (op ∷ ops) =
    StartsAt done (writes_to h op) op.off op.len
    × Sequential h (next_range done (writes_to h op) op.off op.len) ops

StartsAt-of :
    (done : ℤ) (b : Bool) (off len : Option ℤ)
    → (b ≡ true → (o n : ℤ) → off ≡ some o → len ≡ some n → o ≡ done)
    → StartsAt done b off len
StartsAt-of done false off len f = tt
StartsAt-of done true none len f = tt
StartsAt-of done true (some o) none f = tt
StartsAt-of done true (some o) (some n) f = f refl o n refl refl

-- The end of a run that stays eligible, from an op's result on.
abbrev Reached :
    ℤ → OwHandle → List TargetInfo → List Op → Observed → ObjectWriteEligibility → Type 0
Reached h st targets rest o e'' =
    (e' : ObjectWriteEligibility) × (lookup h e'.handles ≡ some st)
    × (o ≡ continues e')
    × (observe_after (continues e') targets rest ≡ continues e'')

Reached-Holds :
    (h : ℤ) (st : OwHandle) (targets : List TargetInfo) (rest : List Op) (o : Observed)
    (e'' : ObjectWriteEligibility)
    → Holds h st o
    → observe_after o targets rest ≡ continues e''
    → Reached h st targets rest o e''
unfolding observe_after
Reached-Holds h st targets rest (continues e) e'' a c = (e, a, refl, c)
Reached-Holds h st targets rest (ineligible why) e'' a c = absurd (ground arith)

run-Holds :
    (h : ℤ) (ops : List Op) (st : OwHandle) (e : ObjectWriteEligibility) (targets : List TargetInfo)
    (rest : List Op) (e'' : ObjectWriteEligibility)
    → lookup h e.handles ≡ some st
    → is_write_mode st.mode ≡ true
    → All (λ op. spares h op ≡ true) ops
    → observe_after (continues e) targets (ops ++ rest) ≡ continues e''
    → ((e' : ObjectWriteEligibility) × (lookup h e'.handles
          ≡ some (record st { next_off = covered h st.next_off ops }))
        × (observe_after (continues e') targets rest ≡ continues e''))
      × Sequential h st.next_off ops
unfolding observe_after observe covered Sequential
run-Holds h [] st e targets rest e'' a m s c = ((e, a, c), tt)
run-Holds h (op ∷ ops) st e targets rest e'' a m (s, ss) c =
    let n = next_range st.next_off (writes_to h op) op.off op.len in
    let (e', a', q, c') =
      Reached-Holds h (record st { next_off = n }) targets (ops ++ rest) (observe e op targets) e''
        (kind-Holds h st e a op.op op targets m s) c in
    let (last, seq) = run-Holds h ops (record st { next_off = n }) e' targets rest e'' a' m ss c' in
    (
      last,
      (
        StartsAt-of st.next_off (writes_to h op) op.off op.len
            (λ w off len p l. kind-next h st e a op.op op op.h targets e' off len m refl q w p l),
        seq,
      ),
    )

abbrev sizes_of : Observed → List (ℤ × ℤ)
sizes_of (continues e) = e.sizes
sizes_of (ineligible why) = []

size_kept :
    (e : ObjectWriteEligibility) (st : OwHandle) (e' : ObjectWriteEligibility)
    → continues (record e { sizes = insert st.target st.next_off e.sizes }) ≡ continues e'
    → lookup st.target e'.sizes ≡ some st.next_off
size_kept e st e' c =
    ap (λ o. lookup st.target (sizes_of o)) (sym c)
    ∙ lookup-insert st.target st.target st.next_off e.sizes
    ∙ rw (beq_refl st.target) refl

sized :
    (e : ObjectWriteEligibility) (st : OwHandle) (t : TargetInfo) (e' : ObjectWriteEligibility)
    → set_size e st (some t) ≡ continues e'
    → (lookup st.target e'.sizes ≡ some st.next_off) × ((t.size ≤ℤ pos 0) ⊎ (st.next_off ≡ t.size))
unfolding set_size
sized e st t e' c = elim (Bool-cases (ltb_ℤ (pos 0) t.size && not (st.next_off == t.size))) [
  | inl p ↦ let c' = rw p at c in absurd (ground arith)
  | inr p ↦
      let c' = rw p at c in (size_kept e st e' c', ground (arith, int_beq_iff st.next_off t.size))
]

abbrev opened_at : ℤ → Mode → OwHandle
opened_at tgt mode = record { target = tgt; mode = mode; next_off = pos 0 }

observe-opening :
    (k : OpKind) (e : ObjectWriteEligibility) (op : Op) (targets : List TargetInfo) (h tgt : ℤ)
    → k ≡ op_open
    → op.h ≡ some h
    → op.tgt ≡ some tgt
    → observe_kind k e op targets
      ≡ continues (record e { handles = insert h (opened_at tgt op.mode) e.handles })
unfolding observe_kind
observe-opening k e op targets h tgt p q r = simp (p, q, r) refl

observe-closing :
    (k : OpKind) (e : ObjectWriteEligibility) (op : Op) (targets : List TargetInfo) (h : ℤ)
    (st : OwHandle) (t : TargetInfo)
    → k ≡ op_close
    → op.h ≡ some h
    → lookup h e.handles ≡ some st
    → is_write_mode st.mode ≡ true
    → target_at st.target targets ≡ some t
    → observe_kind k e op targets ≡ set_size (record e { handles = erase h e.handles }) st (some t)
unfolding observe_kind observe_close close_state
observe-closing k e op targets h st t p q a m f = simp (p, q, a, m, f) refl

after_last : (o : Observed) (targets : List TargetInfo) → observe_after o targets [] ≡ o
unfolding observe_after
after_last (continues e) targets = refl
after_last (ineligible why) targets = refl

module _ (targets : List TargetInfo) (h : ℤ) (opening closing : Op) where
  -- The ops open the handle for writing and close it.
  abbrev pub IsLifecycle : ℤ → Type 0
  IsLifecycle tgt =
      (opening.op ≡ op_open)
      × (opening.h ≡ some h)
      × (opening.tgt ≡ some tgt)
      × (is_write_mode opening.mode ≡ true)
      × (closing.op ≡ op_close)
      × (closing.h ≡ some h)

  -- A lifecycle that opens a handle for writing, and closes it after ops that neither open nor close
  -- it, and whose run finds nothing ineligible: its writes are sequential from offset 0 on, the
  -- target's coalesced size is what they cover, and that is the declared size where there is one.
  pub lifecycle_coverage :
      (e e'' : ObjectWriteEligibility) (tgt : ℤ) (t : TargetInfo) (ops : List Op)
      → IsLifecycle tgt
      → All (λ op. spares h op ≡ true) ops
      → target_at tgt targets ≡ some t
      → observe_after (continues e) targets (opening ∷ ops ++ closing ∷ []) ≡ continues e''
      → Sequential h (pos 0) ops
        × (lookup tgt e''.sizes ≡ some (covered h (pos 0) ops))
        × ((t.size ≤ℤ pos 0) ⊎ (covered h (pos 0) ops ≡ t.size))
  unfolding observe_after observe
  lifecycle_coverage e e'' tgt t ops (p, q, r, m, p', q') s f c =
      let opens = observe-opening opening.op e opening targets h tgt p q r in
      let a = lookup-insert h h (opened_at tgt opening.mode) e.handles ∙ rw (beq_refl h) refl in
      let c1 = sym (ap (λ o. observe_after o targets (ops ++ closing ∷ [])) opens) ∙ c in
      let ((e', a', c2), seq) =
        run-Holds h ops (opened_at tgt opening.mode) _ targets (closing ∷ []) e'' a m s c1 in
      let st = record (opened_at tgt opening.mode) { next_off = covered h (pos 0) ops } in
      let closes = observe-closing closing.op e' closing targets h st t p' q' a' m f in
      let (size, full) = sized _ st t e'' (sym closes ∙ sym (after_last _ targets) ∙ c2) in
      (seq, size, full)
