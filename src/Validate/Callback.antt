-- ===== src/Validate/Callback.antt =====
-- pkg/trace/validate.go: what the callback of `ValidateWithOps` does over a run.
use ioflux.Prelude.{
  ◌∷◌, [], ℕ, Option, List, ◌≡◌, none, true, some, refl, Option-cases, inl, subst, sym, ◌∙◌, ap,
  inr, Bool-cases,
}
use ioflux.Trace.Types.{Op, Header, op_kind_valid}
use ioflux.Validate.Loop.{
  run, after_callback, step, State, enter, check_op, validate_with_ops, conclude_at, Failure, start,
  conclude,
}
use ioflux.Validate.Accept.{valid_of_fits}
use ioflux.Trace.Reader.{eof, parse_error, scan_error, End, Stream}
use ioflux.Validate.Header.{RawHeader}
use ioflux.Validate.Outcome.{Passed, Passed-Accepted}
use ioflux.Validate.Accept.Run.{Accepted, state-step}

module _ {C E : Type 0} (on_op : Op → C → Option E × C) where
  -- The callback over a list of ops, none of which it fails on.
  abbrev pub fold_ops : List (ℕ × Op) → C → C
  fold_ops [] c = c
  fold_ops ((line, op) ∷ rest) c = fold_ops rest (on_op op c).1

  abbrev pub Undisturbed : List (ℕ × Op) → C → Type 0
  Undisturbed [] c = Unit
  Undisturbed ((line, op) ∷ rest) c = ((on_op op c).0 ≡ none) × Undisturbed rest (on_op op c).1

  after_callback-none :
      (st : State) (r : Option E × C)
      → (after_callback on_op st r).2 ≡ none
      → (r.0 ≡ none) × ((after_callback on_op st r).1 ≡ r.1)
  unfolding after_callback
  after_callback-none st (none, c) e = (refl, refl)
  after_callback-none st (some x, c) e = cc

  step-none :
      (line : ℕ) (op : Op) (st : State) (c : C)
      → op_kind_valid op.op ≡ true
      → (step on_op line op st c).2 ≡ none
      → ((on_op op c).0 ≡ none) × ((step on_op line op st c).1 ≡ (on_op op c).1)
  unfolding step
  step-none line op st c v e =
      let st1 = enter line op st in
      let (f, same) = after_callback-none (check_op line op st1) (on_op op c) (rw (v, step) at e) in
      (f, rw v same)

  -- A run over accepted ops that ends without an error has called the callback on each op in turn.
  run-fold_ops :
      (h : Header) (recs : List (ℕ × Op)) (st : State) (c : C)
      → Accepted h st recs
      → (run on_op recs st c).2 ≡ none
      → Undisturbed recs c × ((run on_op recs st c).1 ≡ fold_ops recs c)
  unfolding run
  run-fold_ops h [] st c a e = (tt, refl)
  run-fold_ops h ((line, op) ∷ rest) st c (fits, a) e =
      elim (Option-cases (step on_op line op st c).2) [
        | inl p ↦
            let (f, same) = step-none line op st c (valid_of_fits op h st fits) p in
            let st' = (step on_op line op st c).0 in
            let c' = (step on_op line op st c).1 in
            let a' =
              subst (λ (s : State). Accepted h s rest) (sym (state-step on_op line op st c)) a in
            let (u, g) = run-fold_ops h rest st' c' a' (rw (p, run) at e) in
            rw (p, run)
              ((f, subst (λ (d : C). Undisturbed rest d) same u), g ∙ ap (fold_ops rest) same)
        | inr (x, p) ↦ let e' : some x ≡ none = rw (p, run) at e in cc
      ]

  conclude_at-state :
      (end : End) (r : State × C × Option (Failure E))
      → (conclude_at on_op end r).2 ≡ none
      → (r.2 ≡ none) × ((conclude_at on_op end r).1 ≡ r.1)
  unfolding conclude_at
  conclude_at-state eof (st, c, none) e = (refl, refl)
  conclude_at-state (scan_error l) (st, c, none) e = cc
  conclude_at-state (parse_error l) (st, c, none) e = cc
  conclude_at-state end (st, c, some x) e = cc

  -- A trace that passes has had the callback called on each of its ops in turn, without an error.
  pub validate_with_ops-fold_ops :
      (raw : Option RawHeader) (h : Header) (stream : Stream) (c : C)
      → Passed (validate_with_ops on_op raw h stream c)
      → Undisturbed stream.records c
        × ((validate_with_ops on_op raw h stream c).1 ≡ fold_ops stream.records c)
  unfolding validate_with_ops
  validate_with_ops-fold_ops raw h stream c p =
      let (_, a, _) = Passed-Accepted on_op raw h stream c p in
      let r = run on_op stream.records (start raw h) c in
      let (whole, same) = conclude_at-state stream.finish r p.0 in
      let (u, g) = run-fold_ops h stream.records (start raw h) c a whole in (u, same ∙ g)

-- Two callbacks that fail alike on related states make runs that end alike.
module _ {C D E : Type 0} (first : Op → C → Option E × C) (second : Op → D → Option E × D)
    (R : C → D → Type 0) where
  abbrev pub AgreeOn :
      {B : Type 0} → B × C × Option (Failure E) → B × D × Option (Failure E) → Type 0
  AgreeOn r q = (r.0 ≡ q.0) × R r.1 q.1 × (r.2 ≡ q.2)

  abbrev pub AgreeAt : Option E × C → Option E × D → Type 0
  AgreeAt r q = (r.0 ≡ q.0) × R r.1 q.1

  module _ (agree : (op : Op) (c : C) (d : D) → R c d → AgreeAt (first op c) (second op d)) where
    after_callback-AgreeOn :
        (st : State) (r : Option E × C) (q : Option E × D)
        → AgreeAt r q
        → AgreeOn (after_callback first st r) (after_callback second st q)
    unfolding after_callback
    after_callback-AgreeOn st (none, c) (none, d) (e, a) = (refl, a, refl)
    after_callback-AgreeOn st (some x, c) (some y, d) (e, a) = (refl, a, cc)
    after_callback-AgreeOn st (some x, c) (none, d) (e, a) = cc
    after_callback-AgreeOn st (none, c) (some y, d) (e, a) = cc

    step-AgreeOn :
        (line : ℕ) (op : Op) (st : State) (c : C) (d : D)
        → R c d
        → AgreeOn (step first line op st c) (step second line op st d)
    unfolding step
    step-AgreeOn line op st c d a = elim (Bool-cases (op_kind_valid op.op)) [
      | inl e ↦ rw e (
          after_callback-AgreeOn (check_op line op (enter line op st)) (first op c) (second op d)
            (agree op c d a))
      | inr e ↦ rw e (refl, a, refl)
    ]

    run-AgreeOn :
        (recs : List (ℕ × Op)) (st : State) (c : C) (d : D)
        → R c d
        → AgreeOn (run first recs st c) (run second recs st d)
    unfolding run
    run-AgreeOn [] st c d a = (refl, a, refl)
    run-AgreeOn ((line, op) ∷ rest) st c d a =
        let (same, b, e) = step-AgreeOn line op st c d a in
        elim (Option-cases (step first line op st c).2) [
          | inl p ↦
              let q : (step second line op st d).2 ≡ none = sym e ∙ p in
              let st' = (step first line op st c).0 in
              let r = run first rest st' (step first line op st c).1 in
              rw (p, q, run)
                (subst (λ (s : State). AgreeOn r (run second rest s (step second line op st d).1))
                  same (run-AgreeOn rest st' _ _ b))
          | inr (x, p) ↦
              let q : (step second line op st d).2 ≡ some x = sym e ∙ p in
              rw (p, q, run) (same, b, refl)
        ]

    conclude_at-AgreeOn :
        (end : End) (r : State × C × Option (Failure E)) (q : State × D × Option (Failure E))
        → AgreeOn r q
        → AgreeOn (conclude_at first end r) (conclude_at second end q)
    unfolding conclude_at
    conclude_at-AgreeOn eof (st, c, none) (su, d, none) (e, a, f) = (ap conclude e, a, refl)
    conclude_at-AgreeOn (scan_error l) (st, c, none) (su, d, none) (e, a, f) =
        (ap (λ s. s.report) e, a, refl)
    conclude_at-AgreeOn (parse_error l) (st, c, none) (su, d, none) (e, a, f) =
        (ap (λ s. s.report) e, a, refl)
    conclude_at-AgreeOn end (st, c, some x) (su, d, some y) (e, a, f) = (ap (λ s. s.report) e, a, f)
    conclude_at-AgreeOn end (st, c, some x) (su, d, none) (e, a, f) = cc
    conclude_at-AgreeOn end (st, c, none) (su, d, some y) (e, a, f) = cc

    pub validate_with_ops-AgreeOn :
        (raw : Option RawHeader) (h : Header) (stream : Stream) (c : C) (d : D)
        → R c d
        → AgreeOn (validate_with_ops first raw h stream c) (validate_with_ops second raw h stream d)
    unfolding validate_with_ops
    validate_with_ops-AgreeOn raw h stream c d a =
        conclude_at-AgreeOn stream.finish _ _ (run-AgreeOn stream.records (start raw h) c d a)
