-- ===== src/Gen/Checkpoint/Eligible.antt =====
-- pkg/gen/checkpoint/generate.go against pkg/replay/objectwrite.go: a generated shard is one that a
-- replay may coalesce into one Put.
use ioflux.Prelude.{
  ℕ, pos, List, lookup, ℤ, ◌≡◌, ◌<◌, some, ◌^◌, int_eq, ◌+◌, ◌≤◌, insert, beq_refl, add64-pos,
  arith, lookup-insert, ◌∙◌, refl, ◌++◌, subst, suc, Bool-cases, ltb, inl, min, ◌-◌, inr, zero,
  get_elem?, Bool, false, ◌==◌, true, ap, erase, ltb_ℤ, [],
}
use ioflux.Replay.ObjectWrite.{
  continues, ObjectWriteEligibility, observe, observe_write, write_state, observe_range, extend,
  OwHandle, observe_after, observe_close, close_state, set_size, Observed,
}
use ioflux.Trace.Types.{mode_write, TargetInfo, Op, op_close}
use ioflux.Gen.Checkpoint.{shard_write, shard_writes, shard_ops, shard_end, plain_op}
use mathlib.Core.Bool.{and-false}

abbrev WritesAt : ℕ → ℕ → ℕ → ObjectWriteEligibility → Type 0
WritesAt h tgt off e =
    lookup (pos h) e.handles
    ≡ some (record { target = pos tgt; mode = mode_write; next_off = pos off })

module _ (targets : List TargetInfo) (t : ℤ) (r h tgt block size : ℕ) (room : 0 < block)
    (small : size < 2 ^ 63) where
  observe-write :
      (off n : ℕ) (e : ObjectWriteEligibility)
      → WritesAt h tgt off e
      → off + n ≤ size
      → (e' : ObjectWriteEligibility) × (observe e (shard_write t r h off n) targets ≡ continues e')
        × WritesAt h tgt (off + n) e'
  unfolding observe observe_write write_state observe_range extend
  observe-write off n e w le =
      let st : OwHandle = record { target = pos tgt; mode = mode_write; next_off = pos off } in
      let st' : OwHandle = record st { next_off = pos (off + n) } in
      (
        record e { handles = insert (pos h) st' e.handles },
        rw (w, beq_refl (pos off), add64-pos off n (omega arith)) refl,
        lookup-insert (pos h) (pos h) st' e.handles ∙ rw (beq_refl (pos h)) refl,
      )

  -- The writes of a shard leave its handle at its end.
  observe-writes :
      (fuel off : ℕ) (e : ObjectWriteEligibility) (tail : List Op)
      → WritesAt h tgt off e
      → off ≤ size
      → size ≤ off + fuel
      → (e' : ObjectWriteEligibility) × (observe_after
            (continues e)
            targets
            (shard_writes fuel t r h block size off ++ tail)
          ≡ observe_after (continues e') targets tail)
        × WritesAt h tgt size e'
  unfolding shard_writes observe_after
  observe-writes zero off e tail w le enough =
      let same : off ≡ size = omega arith in (e, refl, subst (λ (k : ℕ). WritesAt h tgt k e) same w)
  observe-writes (suc fuel) off e tail w le enough = elim (Bool-cases (ltb off size)) [
    | inl q ↦
        let lt : off < size = ground (arith, q) in
        let n = min block (size - off) in
        let (e', p, w') = observe-write off n e w (omega arith) in
        let (e'', p', w'') = observe-writes fuel (off + n) e' tail w' (omega arith) (omega arith) in
        (e'', rw (q, observe_after, p) p', w'')
    | inr q ↦
        let same : off ≡ size = ground (arith, q) in
        (e, rw q refl, subst (λ (k : ℕ). WritesAt h tgt k e) same w)
  ]

  module _ (info : TargetInfo) (known : get_elem? targets tgt ≡ some info)
      (sized : info.size ≡ pos size) where
    observe-close :
        (e : ObjectWriteEligibility)
        → WritesAt h tgt size e
        → (e' : ObjectWriteEligibility) × (observe e (plain_op op_close t r h) targets
            ≡ continues e')
          × (lookup (pos tgt) e'.sizes ≡ some (pos size))
    unfolding observe observe_close close_state set_size
    observe-close e w =
        let whole : (pos size == info.size) ≡ true =
          ap (λ (s : ℤ). pos size == s) sized ∙ beq_refl (pos size) in
        (
          record { handles = erase (pos h) e.handles; sizes = insert (pos tgt) (pos size) e.sizes },
          rw (w, known, whole, and-false (ltb_ℤ (pos 0) info.size)) refl,
          lookup-insert (pos tgt) (pos tgt) (pos size) e.sizes ∙ rw (beq_refl (pos tgt)) refl,
        )

    observe-end :
        (sync : Bool) (e : ObjectWriteEligibility)
        → WritesAt h tgt size e
        → (e' : ObjectWriteEligibility) × (observe_after
              (continues e)
              targets
              (shard_end sync t r h)
            ≡ continues e')
          × (lookup (pos tgt) e'.sizes ≡ some (pos size))
    unfolding observe_after observe
    observe-end false e w =
        let (e', p, s) = observe-close e w in
        (e', ap (λ (o : Observed). observe_after o targets []) p, s)
    observe-end true e w =
        let (e', p, s) = observe-close e w in
        (e', ap (λ (o : Observed). observe_after o targets []) p, s)

    -- The ops of a generated shard, of a size that is an int64 and that the target table gives, are
    -- accepted by the rules for coalescing writes into one Put, which then know the shard's size.
    pub shard_ops-eligible :
        (sync : Bool) (e : ObjectWriteEligibility)
        → (e' : ObjectWriteEligibility) × (observe_after
              (continues e)
              targets
              (shard_ops t r h tgt block size sync)
            ≡ continues e')
          × (lookup (pos tgt) e'.sizes ≡ some (pos size))
    unfolding shard_ops observe_after observe
    shard_ops-eligible sync e =
        let st : OwHandle = record { target = pos tgt; mode = mode_write; next_off = pos 0 } in
        let e1 : ObjectWriteEligibility = record e { handles = insert (pos h) st e.handles } in
        let w : WritesAt h tgt 0 e1 =
          lookup-insert (pos h) (pos h) st e.handles ∙ rw (beq_refl (pos h)) refl in
        let (e2, p, w2) =
          observe-writes size 0 e1 (shard_end sync t r h) w (omega arith) (omega arith) in
        let (e3, q, s) = observe-end sync e2 w2 in (e3, p ∙ q, s)
