-- ===== src/Validate/Silent.antt =====
-- pkg/trace/validate.go: a trace that passes with a callback passes without one.
use ioflux.Validate.Report.{ok}
use ioflux.Prelude.{
  ℕ, Option, List, none, ◌≡◌, Bool-cases, ◌∷◌, [], refl, ap, inl, inr, true, ◌∙◌, some, sym,
}
use ioflux.Trace.Reader.{eof, parse_error, scan_error, End, Stream}
use ioflux.Validate.Loop.{
  step, run, after_callback, State, conclude_at, validate, validate_with_ops, Failure, conclude,
  start,
}
use ioflux.Trace.Types.{Op, op_kind_valid, Header}
use ioflux.Validate.Header.{RawHeader}
use ioflux.Validate.Outcome.{Passed, conclude_at-Passed}
use ioflux.Validate.Accept.Run.{run-after}

abbrev silent : Op → Unit {0} → Option ⊥ × Unit {0}
silent op c = (none, c)

step-silent : (line : ℕ) (op : Op) (st : State) (c : Unit {0}) → (step silent line op st c).2 ≡ none
unfolding step after_callback
step-silent line op st c = elim (Bool-cases (op_kind_valid op.op)) [
  | inl e ↦ rw e refl
  | inr e ↦ rw e refl
]

run-silent : (recs : List (ℕ × Op)) (st : State) (c : Unit {0}) → (run silent recs st c).2 ≡ none
unfolding run
run-silent [] st c = refl
run-silent ((line, op) ∷ rest) st c =
    rw (step-silent line op st c, run)
      (run-silent rest (step silent line op st c).0 (step silent line op st c).1)

module _ {C E : Type 0} (on_op : Op → C → Option E × C) where
  conclude_at-silent :
      (end : End) (r : State × C × Option (Failure E)) (q : State × Unit {0} × Option (Failure ⊥))
      → Passed (conclude_at on_op end r)
      → q.2 ≡ none
      → q.0 ≡ r.0
      → Passed (conclude_at silent end q)
  unfolding conclude_at
  conclude_at-silent eof (st, c, none) (st', d, none) (e, good) f same =
      (refl, ap (λ (s : State). ok (conclude s)) same ∙ good)
  conclude_at-silent eof (st, c, none) (st', d, some x) p f same = cc
  conclude_at-silent eof (st, c, some x) q (e, good) f same = cc
  conclude_at-silent (scan_error l) (st, c, none) q (e, good) f same = cc
  conclude_at-silent (scan_error l) (st, c, some x) q (e, good) f same = cc
  conclude_at-silent (parse_error l) (st, c, none) q (e, good) f same = cc
  conclude_at-silent (parse_error l) (st, c, some x) q (e, good) f same = cc

  -- Validate reports no error and ends without a failure.
  pub Passed-validate :
      (raw : Option RawHeader) (h : Header) (stream : Stream) (c : C)
      → Passed (validate_with_ops on_op raw h stream c)
      → ((validate raw h stream).1 ≡ none) × (ok (validate raw h stream).0 ≡ true)
  unfolding validate validate_with_ops
  Passed-validate raw h stream c p =
      let st0 = start raw h in
      let r = run on_op stream.records st0 c in
      let q = run silent stream.records st0 tt in
      let whole = conclude_at-Passed on_op stream.finish r p in
      let ends = run-silent stream.records st0 tt in
      conclude_at-silent stream.finish r q p ends (
        run-after silent stream.records st0 tt ends
        ∙ sym (run-after on_op stream.records st0 c whole.0))
