-- ===== src/Validate/Accept/Next.antt =====
-- pkg/trace/validate.go: what a record does to the state, whether or not it passes.
use mathlib.Core.Bool.{and-false, and_assoc, false-and}
use ioflux.Prelude.{
  ℕ, true, false, ◌&&◌, ◌||◌, Option, none, some, ◌≡◌, refl, ℤ, not, ltb_ℤ, ap, arith, is_nil,
  Bool-cases, inl, inr, int_eq, length, ◌∙◌,
}
use ioflux.Validate.Loop.{
  State, reject_kind, count_partial, check_time, enter, check_op, count_op, check_kind_fields,
  next_last_t,
}
use ioflux.Trace.Types.{Op, Header, op_kind_valid, OpKind, op_close, op_open, op_fsync}
use ioflux.Validate.Tally.{
  tally, tally_laws, tally-check_dur, tally-forbid_open_fields, Tally, tally-validate_ret,
}
use ioflux.Validate.Report.{Report, ok, ok-add_error, header-add_error}
use ioflux.Validate.Fields.{
  is_open, is_mode_empty, forbid_open_fields, Handles, introduce, require_target_in, require_target,
  introduce_at,
}
use ioflux.Validate.Step.Ids.{
  id_fits, ok-validate_op_id, tally-validate_op_id, keep_id, ids-validate_op_id,
}
use ioflux.Validate.Verdict.{
  ok-error_if, ret_fits, dur_fits, ok-check_dur, ok-validate_ret, ok-forbid_open_fields,
  found-require_open_handle, in_range, fresh,
}
use ioflux.Validate.Step.{fields_fit, ok-check_kind_fields, tally-check_kind_fields}
use ioflux.Validate.Accept.{
  count_ret, next, handles_after, open_handle, count_in, op_fits, valid_of_fits, fields_of_fits,
  id_of_fits,
}

module _ (line : ℕ) (op : Op) where
  ok-count_op : (rep : Report) → ok (count_op op rep) ≡ ok rep
  unfolding count_op ok
  ok-count_op rep = refl

  ok-count_partial : (rep : Report) → ok (count_partial op rep) ≡ ok rep
  unfolding count_partial ok
  ok-count_partial rep = ground arith

  ok-check_time :
      (st : State) (rep : Report)
      → ok (check_time line op st rep) ≡ (ok rep && not (st.saw_any && ltb_ℤ op.t st.last_t))
  unfolding check_time
  ok-check_time st rep = ok-error_if _ line "t" _ rep

  ok-enter :
      (st : State)
      → ok (enter line op st).report
        ≡ (ok st.report && not (st.saw_any && ltb_ℤ op.t st.last_t) && id_fits op.op_id op st.ids)
  unfolding enter
  ok-enter st = simp (ok-validate_op_id, ok-check_time, ok-count_op)

  header_of_tally : (a b : Report) → tally a ≡ tally b → a.header ≡ b.header
  unfolding tally
  header_of_tally a b e = ap (λ t. t.header) e

  header-count_partial : (rep : Report) → (count_partial op rep).header ≡ rep.header
  unfolding count_partial
  header-count_partial rep = ground arith

  tally-check_time : (st : State) (rep : Report) → tally (check_time line op st rep) ≡ tally rep
  unfolding check_time
  tally-check_time st rep = simp tally_laws

  tally-count_op : (rep : Report) → tally (count_op op rep) ≡ count_in op (tally rep)
  unfolding tally count_op
  tally-count_op rep = refl

  tally-count_partial : (rep : Report) → tally (count_partial op rep) ≡ count_ret op (tally rep)
  unfolding tally count_partial
  tally-count_partial rep = ground arith

  tally-enter : (st : State) → tally (enter line op st).report ≡ count_in op (tally st.report)
  unfolding enter
  tally-enter st = simp (tally-validate_op_id, tally-check_time, tally-count_op)

  header-forbid_open_fields : (rep : Report) → (forbid_open_fields line op rep).header ≡ rep.header
  header-forbid_open_fields rep = header_of_tally _ rep (tally-forbid_open_fields line op rep)

  header-check_kind_fields :
      (k : OpKind) (h : Header) (hs : Handles) (rep : Report)
      → (check_kind_fields k line op h hs rep).1.header ≡ rep.header
  header-check_kind_fields k h hs rep =
      header_of_tally _ rep (tally-check_kind_fields line op k h hs rep)

  header-enter : (st : State) → (enter line op st).report.header ≡ st.report.header
  unfolding tally
  header-enter st = ap (λ t. t.header) (tally-enter st)

  ok-check_op :
      (st : State)
      → ok (check_op line op st).report ≡ (
          ok st.report
          && (is_open op.op || is_mode_empty op.mode && is_nil op.flags)
          && fields_fit op.op op st.report.header st.handles
          && ret_fits st.report.header.version op op.ret
          && dur_fits op.dur)
  unfolding check_op
  ok-check_op st = simp (
    ok-check_dur, ok-count_partial, ok-validate_ret, ok-check_kind_fields, ok-forbid_open_fields,
    header-check_kind_fields, header-forbid_open_fields, and_assoc,
  )

  tally-check_op :
      (st : State) → tally (check_op line op st).report ≡ count_ret op (tally st.report)
  unfolding check_op
  tally-check_op st = simp (
    tally-check_dur, tally-count_partial, tally-validate_ret, tally-check_kind_fields,
    tally-forbid_open_fields,
  )

  handles-enter : (st : State) → (enter line op st).handles ≡ st.handles
  unfolding enter
  handles-enter st = refl

  ok-reject_kind : (st : State) → ok (reject_kind line op st).report ≡ false
  unfolding reject_kind
  ok-reject_kind st = ok-add_error line "op" _ st.report

  pub ok-next :
      (st : State) → ok (next line op st).report ≡ (ok st.report && op_fits st.report.header st op)
  unfolding next
  ok-next st = elim (Bool-cases (op_kind_valid op.op)) [
    | inl e ↦ rw e (simp (ok-check_op, ok-enter, header-enter, handles-enter, and_assoc))
    | inr e ↦ rw e (simp (ok-reject_kind, and-false, false-and))
  ]

  found-require_target_in :
      (t : Option ℤ) (h : Header) (rep : Report)
      → in_range (length h.targets) t ≡ true
      → (require_target_in t line op h rep).0 ≡ t
  unfolding require_target_in
  found-require_target_in none h rep e = cc
  found-require_target_in (some t) h rep e = ground arith

  handles-introduce :
      (o t : Option ℤ) (hs : Handles) (rep : Report)
      → fresh o hs ≡ true
      → (introduce o t line op hs rep).0 ≡ open_handle o t line op hs
  unfolding introduce introduce_at
  handles-introduce none t hs rep e = cc
  handles-introduce (some h) none hs rep e = ground arith
  handles-introduce (some h) (some t) hs rep e = ground arith

  handles-check_kind_fields :
      (k : OpKind) (h : Header) (hs : Handles) (rep : Report)
      → fields_fit k op h hs ≡ true
      → (check_kind_fields k line op h hs rep).0 ≡ handles_after k line op hs
  unfolding check_kind_fields require_target
  handles-check_kind_fields op_open h hs rep e =
      rw (found-require_target_in op.tgt h rep (ground arith))
        (handles-introduce op.h op.tgt hs _ (ground arith))
  handles-check_kind_fields op_close h hs rep e =
      rw (found-require_open_handle line op hs rep) (ground arith)
  handles-check_kind_fields op_fsync h hs rep e =
      rw (found-require_open_handle line op hs rep) (ground arith)
  handles-check_kind_fields _ h hs rep e = refl

  header-count_ret : (t : Tally) → (count_ret op t).header ≡ t.header
  header-count_ret t = ground arith

  pub tally-next :
      (h : Header) (st : State)
      → op_fits h st op ≡ true
      → tally (next line op st).report ≡ count_ret op (count_in op (tally st.report))
  unfolding next
  tally-next h st e = rw (valid_of_fits op h st e) (simp (tally-check_op, tally-enter))

  pub ids-next :
      (h : Header) (st : State)
      → op_fits h st op ≡ true
      → (next line op st).ids ≡ keep_id op.op_id line op st.ids
  unfolding next check_op enter
  ids-next h st e =
      rw (valid_of_fits op h st e) (ids-validate_op_id line op st.ids _ (id_of_fits op h st e))

  pub time-next :
      (st : State)
      → ((next line op st).last_t ≡ next_last_t op st) × ((next line op st).saw_any ≡ true)
  unfolding next check_op reject_kind enter
  time-next st = ground arith

  pub handles-next :
      (h : Header) (st : State)
      → st.report.header ≡ h
      → op_fits h st op ≡ true
      → (next line op st).handles ≡ handles_after op.op line op st.handles
  unfolding next check_op
  handles-next h st same e =
      rw (valid_of_fits op h st e, handles-enter)
        (handles-check_kind_fields op.op _ st.handles _
          (simp (header-forbid_open_fields, header-enter) (rw same (fields_of_fits op h st e))))

  header-check_op : (st : State) → (check_op line op st).report.header ≡ st.report.header
  unfolding tally
  header-check_op st = ap (λ t. t.header) (tally-check_op st) ∙ header-count_ret (tally st.report)

  pub header-next : (st : State) → (next line op st).report.header ≡ st.report.header
  unfolding next reject_kind
  header-next st = elim (Bool-cases (op_kind_valid op.op)) [
    | inl e ↦ rw e (header-check_op (enter line op st) ∙ header-enter st)
    | inr e ↦ rw e (header-add_error line "op" _ (enter line op st).report ∙ header-enter st)
  ]
