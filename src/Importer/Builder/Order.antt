-- ===== src/Importer/Builder/Order.antt =====
-- pkg/importer/build.go: the order and the numbering of the ops that a build writes.
use ioflux.Prelude.{
  ℕ, pos, sort_stable, sort_stable-Ordered, List, ℤ, ◌≤ℤ◌, ◌≡◌, false, length, All, Ordered, true,
  ◌∷◌, arith, some, ap, [], int_beq_iff, suc, refl, zero, Option, map, none, sym,
}
use ioflux.Importer.Builder.{
  assign_ids, StreamOp, assemble, Builder, stays_before, HeaderMeta, clamp_streams, min_timestamp,
  stream_ids,
}
use ioflux.Validate.Order.{TimeLe}

abbrev StreamOpLe : StreamOp → StreamOp → Type 0
StreamOpLe a c = a.op.t ≤ℤ c.op.t

stays_before-yes : (a c : StreamOp) → stays_before a c ≡ true → StreamOpLe a c
stays_before-yes a c e = ground (arith, int_beq_iff a.op.t c.op.t)

stays_before-no : (a c : StreamOp) → stays_before a c ≡ false → StreamOpLe c a
stays_before-no a c e = ground (arith, int_beq_iff a.op.t c.op.t)

assign_ids-All :
    (t : ℤ) (i : ℕ) (xs : List StreamOp)
    → All (λ c. t ≤ℤ c.op.t) xs
    → All (λ op. t ≤ℤ op.t) (assign_ids i xs)
unfolding assign_ids
assign_ids-All t i [] a = tt
assign_ids-All t i (x ∷ xs) (p, a) = (p, assign_ids-All t (suc i) xs a)

assign_ids-Ordered :
    (i : ℕ) (xs : List StreamOp) → Ordered StreamOpLe xs → Ordered TimeLe (assign_ids i xs)
unfolding assign_ids
assign_ids-Ordered i [] o = tt
assign_ids-Ordered i (x ∷ xs) (a, o) =
    (assign_ids-All x.op.t (suc i) xs a, assign_ids-Ordered (suc i) xs o)

length-assign_ids : (i : ℕ) (xs : List StreamOp) → length (assign_ids i xs) ≡ length xs
unfolding assign_ids
length-assign_ids i [] = refl
length-assign_ids i (x ∷ xs) = ap suc (length-assign_ids (suc i) xs)

-- The ids that follow one another from i on.
pub count_up : ℕ → ℕ → List (Option ℤ)
count_up i zero = []
count_up i (suc n) = some (pos i) ∷ count_up (suc i) n

ids-assign_ids :
    (i : ℕ) (xs : List StreamOp)
    → map (λ op. op.op_id) (assign_ids i xs) ≡ count_up i (length (assign_ids i xs))
unfolding assign_ids count_up
ids-assign_ids i [] = refl
ids-assign_ids i (x ∷ xs) = ap (λ ids. some (pos i) ∷ ids) (ids-assign_ids (suc i) xs)

-- The ops that a build writes are in the order of their times, their ids count up from 0, and the
-- header's count of ops is theirs, whatever was added to the builder.
pub assemble-Ordered :
    (b : Builder) (meta : HeaderMeta)
    → Ordered TimeLe (assemble b meta).ops
      × (map (λ op. op.op_id) (assemble b meta).ops ≡ count_up 0 (length (assemble b meta).ops))
      × ((assemble b meta).header.summary.num_ops ≡ pos (length (assemble b meta).ops))
unfolding assemble
assemble-Ordered b meta =
    let ids = stream_ids b.per_stream in
    let earliest = min_timestamp none ids b.per_stream in
    let merged = (clamp_streams earliest b.report.timestamp_clamped ids b.per_stream).0 in
    let all = sort_stable stays_before merged in
    (
      assign_ids-Ordered 0 all (
          sort_stable-Ordered stays_before StreamOpLe stays_before-yes stays_before-no
            (λ a c d p q. omega arith) merged),
      ids-assign_ids 0 all,
      ap pos (sym (length-assign_ids 0 all)),
    )
