-- ===== src/Validate/Counts.antt =====
-- pkg/trace/validate.go: the counts of the summary in a trace that passes.
use ioflux.Prelude.{
  ℕ, true, Option, List, [], ◌∷◌, ◌≡◌, refl, arith, pos, length, if◌then◌else◌, ap, suc, ◌+◌, ◌∙◌,
  int_beq_iff, sym,
}
use ioflux.Trace.Types.{Header, Op, is_partial_transfer}
use ioflux.Validate.Order.{ops_of}
use ioflux.Validate.Loop.{validate_with_ops}
use ioflux.Validate.Tally.{Tally}
use ioflux.Validate.Header.{RawHeader}
use ioflux.Validate.Outcome.{count_all, agrees, Passed, no_counts, Passed-Accepted}
use ioflux.Validate.Accept.{count_ret, count_in}
use ioflux.Trace.Reader.{Stream}

-- The number of ops that record a partial transfer.
abbrev pub partials : List Op → ℕ
partials [] = 0
partials (op ∷ rest) = let n = partials rest in if is_partial_transfer op then suc n else n

count_ret-counts :
    (op : Op) (t : Tally)
    → ((count_ret op t).header ≡ t.header)
      × ((count_ret op t).num_ops_read ≡ t.num_ops_read)
      × ((count_ret op t).num_partial_reads
          ≡ (if is_partial_transfer op then suc t.num_partial_reads else t.num_partial_reads))
count_ret-counts op t = (ground arith, ground arith, ground arith)

count_all-counts :
    (recs : List (ℕ × Op)) (t : Tally)
    → ((count_all recs t).header ≡ t.header)
      × ((count_all recs t).num_ops_read ≡ t.num_ops_read + length (ops_of recs))
      × ((count_all recs t).num_partial_reads ≡ t.num_partial_reads + partials (ops_of recs))
count_all-counts [] t = (refl, omega arith, omega arith)
count_all-counts ((line, op) ∷ rest) t =
    let (same, n, m) = count_all-counts rest (count_ret op (count_in op t)) in
    let (same', n', m') = count_ret-counts op (count_in op t) in
    (same ∙ same', omega arith, m ∙ ap (λ k. k + partials (ops_of rest)) m' ∙ ground arith)

agrees_counts :
    (h : Header) (n m : ℕ) (t : Tally)
    → (t.header ≡ h) × (t.num_ops_read ≡ 0 + n) × (t.num_partial_reads ≡ 0 + m)
    → agrees t ≡ true
    → (h.summary.num_ops ≡ pos n) × (h.summary.num_partial_reads ≡ pos m)
agrees_counts h n m t (same, ops, rets) e =
    let s = t.header.summary in
    let ops' = (int_beq_iff s.num_ops (pos t.num_ops_read)).0 (ground arith) in
    let rets' = (int_beq_iff s.num_partial_reads (pos t.num_partial_reads)).0 (ground arith) in
    let n' : t.num_ops_read ≡ n = omega arith in
    let m' : t.num_partial_reads ≡ m = omega arith in
    (
      ap (λ g. g.summary.num_ops) (sym same) ∙ ops' ∙ ap pos n',
      ap (λ g. g.summary.num_partial_reads) (sym same) ∙ rets' ∙ ap pos m',
    )

module _ {C E : Type 0} (on_op : Op → C → Option E × C) where
  -- In a trace that passes, the header declares the number of ops that the trace has and the number
  -- of its partial transfers: a truncated trace does not pass.
  pub summary_counts :
      (raw : Option RawHeader) (h : Header) (stream : Stream) (c : C)
      → Passed (validate_with_ops on_op raw h stream c)
      → (h.summary.num_ops ≡ pos (length (ops_of stream.records)))
        × (h.summary.num_partial_reads ≡ pos (partials (ops_of stream.records)))
  summary_counts raw h stream c p =
      let recs = stream.records in
      agrees_counts h _ _ (count_all recs (no_counts h)) (count_all-counts recs (no_counts h))
        (Passed-Accepted on_op raw h stream c p).2
