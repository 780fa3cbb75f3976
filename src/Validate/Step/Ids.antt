-- ===== src/Validate/Step/Ids.antt =====
-- pkg/trace/validate.go, `validateOpID`: its verdict and the ids that it keeps.
use mathlib.Core.Bool.{and-true, and_assoc}
use ioflux.Prelude.{
  ℕ, Bool, true, false, ◌&&◌, Option, none, some, ◌≡◌, refl, ℤ, pos, not, leb_ℤ, insert, ltb_ℤ,
  is_none, lookup, int_eq, pair_eq, arith,
}
use ioflux.Trace.Types.{Op}
use ioflux.Validate.OpId.{
  check_sign, validate_id, check_order, check_seen, Ids, validate_op_id, stream_group,
}
use ioflux.Validate.Report.{Report, ok}
use ioflux.Validate.Tally.{tally, tally_laws}
use ioflux.Validate.Verdict.{verdict_laws, ok-error_if}

abbrev pub above : ℤ → Option ℤ → Bool
above id none = true
above id (some last) = not (leb_ℤ id last)

abbrev pub id_fits : Option ℤ → Op → Ids → Bool
id_fits none op ids = false
id_fits (some id) op ids =
    not (ltb_ℤ id (pos 0))
    && is_none (lookup id ids.seen)
    && above id (lookup (stream_group op) ids.last_by_group)

-- The ids after an op whose id fits.
abbrev pub with_id : ℤ → ℕ → Op → Ids → Ids
with_id id line op ids = record {
  seen = insert id line ids.seen;
  last_by_group = insert (stream_group op) id ids.last_by_group;
}

abbrev pub keep_id : Option ℤ → ℕ → Op → Ids → Ids
keep_id none line op ids = ids
keep_id (some id) line op ids = with_id id line op ids

module _ (line : ℕ) (op : Op) where
  ok-check_order :
      (last : Option ℤ) (id : ℤ) (rep : Report)
      → ok (check_order last id line op rep) ≡ (ok rep && above id last)
  unfolding check_order
  ok-check_order none id rep = simp and-true
  ok-check_order (some last) id rep = ok-error_if _ line "op_id" _ rep

  ok-check_sign :
      (id : ℤ) (rep : Report) → ok (check_sign id line rep) ≡ (ok rep && not (ltb_ℤ id (pos 0)))
  unfolding check_sign
  ok-check_sign id rep = ok-error_if _ line "op_id" _ rep

  check_seen_verdict :
      (prev : Option ℕ) (id : ℤ) (ids : Ids) (rep : Report)
      → (ok (check_seen prev id line ids rep).1 ≡ (ok rep && is_none prev))
        × ((check_seen prev id line ids rep).0.last_by_group ≡ ids.last_by_group)
  unfolding check_seen
  check_seen_verdict none id ids rep = (simp and-true, refl)
  check_seen_verdict (some p) id ids rep = (simp verdict_laws, refl)

  validate_id_verdict :
      (o : Option ℤ) (ids : Ids) (rep : Report)
      → ok (validate_id o line op ids rep).1 ≡ (ok rep && id_fits o op ids)
  unfolding validate_id
  validate_id_verdict none ids rep = simp verdict_laws
  validate_id_verdict (some id) ids rep =
      let (fits, last) = check_seen_verdict (lookup id ids.seen) id ids (check_sign id line rep) in
      simp (ok-check_order, fits, last, ok-check_sign, and_assoc)

  pub ok-validate_op_id :
      (ids : Ids) (rep : Report)
      → ok (validate_op_id line op ids rep).1 ≡ (ok rep && id_fits op.op_id op ids)
  unfolding validate_op_id
  ok-validate_op_id ids rep = validate_id_verdict op.op_id ids rep

  check_seen_fresh :
      (prev : Option ℕ) (id : ℤ) (ids : Ids) (rep : Report)
      → is_none prev ≡ true
      → (check_seen prev id line ids rep).0 ≡ record ids { seen = insert id line ids.seen }
  unfolding check_seen
  check_seen_fresh none id ids rep h = refl
  check_seen_fresh (some p) id ids rep h = cc

  validate_id_keeps :
      (o : Option ℤ) (ids : Ids) (rep : Report)
      → id_fits o op ids ≡ true
      → (validate_id o line op ids rep).0 ≡ keep_id o line op ids
  unfolding validate_id
  validate_id_keeps none ids rep h = refl
  validate_id_keeps (some id) ids rep h =
      rw (check_seen_fresh (lookup id ids.seen) id ids (check_sign id line rep) (ground arith))

  pub ids-validate_op_id :
      (ids : Ids) (rep : Report)
      → id_fits op.op_id op ids ≡ true
      → (validate_op_id line op ids rep).0 ≡ keep_id op.op_id line op ids
  unfolding validate_op_id
  ids-validate_op_id ids rep h = validate_id_keeps op.op_id ids rep h

  tally-check_seen :
      (prev : Option ℕ) (id : ℤ) (ids : Ids) (rep : Report)
      → tally (check_seen prev id line ids rep).1 ≡ tally rep
  unfolding check_seen
  tally-check_seen none id ids rep = refl
  tally-check_seen (some p) id ids rep = simp tally_laws

  tally-check_order :
      (last : Option ℤ) (id : ℤ) (rep : Report)
      → tally (check_order last id line op rep) ≡ tally rep
  unfolding check_order
  tally-check_order none id rep = refl
  tally-check_order (some last) id rep = simp tally_laws

  tally-check_sign : (id : ℤ) (rep : Report) → tally (check_sign id line rep) ≡ tally rep
  unfolding check_sign
  tally-check_sign id rep = simp tally_laws

  tally-validate_id :
      (o : Option ℤ) (ids : Ids) (rep : Report)
      → tally (validate_id o line op ids rep).1 ≡ tally rep
  unfolding validate_id
  tally-validate_id none ids rep = simp tally_laws
  tally-validate_id (some id) ids rep = simp (tally-check_order, tally-check_seen, tally-check_sign)

  pub tally-validate_op_id :
      (ids : Ids) (rep : Report) → tally (validate_op_id line op ids rep).1 ≡ tally rep
  unfolding validate_op_id
  tally-validate_op_id ids rep = tally-validate_id op.op_id ids rep
