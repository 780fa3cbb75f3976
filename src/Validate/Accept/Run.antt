-- ===== src/Validate/Accept/Run.antt =====
-- pkg/trace/validate.go: the records of a whole run.
use ioflux.Prelude.{
  ℕ, true, ◌&&◌, Option, none, some, List, [], ◌∷◌, ◌≡◌, refl, ap, Bool-cases, inl, inr, int_eq,
  ◌∙◌, ap₂, sym, Option-cases,
}
use ioflux.Validate.Loop.{State, enter, check_op, run, step, after_callback}
use ioflux.Trace.Types.{Op, Header, op_kind_valid}
use ioflux.Validate.Report.{ok}
use ioflux.Validate.Accept.{next, op_fits, and_head, and_tail}
use ioflux.Validate.Accept.Next.{header-next, ok-next}

-- The records of a run, one after the other.
abbrev pub Accepted : Header → State → List (ℕ × Op) → Type 0
Accepted h st [] = Unit
Accepted h st ((line, op) ∷ rest) = (op_fits h st op ≡ true) × Accepted h (next line op st) rest

abbrev pub after : State → List (ℕ × Op) → State
after st [] = st
after st ((line, op) ∷ rest) = after (next line op st) rest

pub ok-after :
    (h : Header) (recs : List (ℕ × Op)) (st : State)
    → st.report.header ≡ h
    → ok (after st recs).report ≡ true
    → (ok st.report ≡ true) × Accepted h st recs
ok-after h [] st same e = (e, tt)
ok-after h ((line, op) ∷ rest) st same e =
    let (good, a) = ok-after h rest (next line op st) (header-next line op st ∙ same) e in
    let both : (ok st.report && op_fits h st op) ≡ true =
      ap (λ g. ok st.report && op_fits g st op) (sym same) ∙ sym (ok-next line op st) ∙ good in
    (and_head _ _ both, (and_tail _ _ both, a))

pub after-ok :
    (h : Header) (recs : List (ℕ × Op)) (st : State)
    → st.report.header ≡ h
    → ok st.report ≡ true
    → Accepted h st recs
    → ok (after st recs).report ≡ true
after-ok h [] st same e a = e
after-ok h ((line, op) ∷ rest) st same e (fits, a) =
    after-ok h rest (next line op st) (header-next line op st ∙ same)
      (ok-next line op st ∙ ap₂ (λ x y. x && y) e (ap (λ g. op_fits g st op) same ∙ fits)) a

module _ {C E : Type 0} (on_op : Op → C → Option E × C) where
  -- The callback changes its own state only.
  state-after_callback : (st : State) (r : Option E × C) → (after_callback on_op st r).0 ≡ st
  unfolding after_callback
  state-after_callback st (none, c) = refl
  state-after_callback st (some e, c) = refl

  pub state-step :
      (line : ℕ) (op : Op) (st : State) (c : C) → (step on_op line op st c).0 ≡ next line op st
  unfolding step next
  state-step line op st c = elim (Bool-cases (op_kind_valid op.op)) [
    | inl e ↦ rw e (state-after_callback (check_op line op (enter line op st)) (on_op op c))
    | inr e ↦ rw e
  ]

  -- A run that no callback ends has gone through every op.
  pub run-after :
      (recs : List (ℕ × Op)) (st : State) (c : C)
      → (run on_op recs st c).2 ≡ none
      → (run on_op recs st c).0 ≡ after st recs
  unfolding run
  run-after [] st c e = refl
  run-after ((line, op) ∷ rest) st c e = elim (Option-cases (step on_op line op st c).2) [
    | inl p ↦
        rw (p, run)
          (run-after rest (step on_op line op st c).0 (step on_op line op st c).1 (rw (p, run) at e)
            ∙ ap (λ s. after s rest) (state-step line op st c))
    | inr (x, p) ↦ let e' : some x ≡ none = rw (p, run) at e in cc
  ]
