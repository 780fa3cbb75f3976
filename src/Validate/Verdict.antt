-- ===== src/Validate/Verdict.antt =====
-- pkg/trace/validate.go: what each check of an op's fields needs in order to add no error. A check's
-- verdict is an equation between Booleans, so that a chain of checks is read by rewriting.
use ioflux.Prelude.{
  ℕ, String, Bool, true, false, ◌&&◌, ◌||◌, Option, none, some, ◌≡◌, refl, ◌==◌, if◌then◌else◌, ℤ,
  pos, ltb_ℤ, leb_ℤ, length, lookup, int_eq, not, is_none, Bool-cases, inl, inr, is_nil,
}
use mathlib.Core.Bool.{and-true, and-false, and_assoc}
use ioflux.Trace.Types.{mode_empty, Header, Op, min_version, Mode, mode_valid}
use ioflux.Validate.Report.{Msg, Report, ok, add_error, ok-add_error}
use ioflux.Validate.Fields.{
  HandleState, Handles, forbid, require_non_negative, require_target, require_target_in,
  require_open_handle, require_open_handle_in, check_state, carries_ret, require_mode, introduce,
  validate_ret, check_ret_len, forbid_open_fields, validate_ret_in, check_dur, introduce_at,
  check_ret, is_open, is_mode_empty,
}

pub ruleset verdict_laws = (ok-add_error, and-false, and-true)

-- A test that adds an error or does not.
pub ok-error_if :
    (b : Bool) (line : ℕ) (f : String) (m : Msg) (rep : Report)
    → ok (if b then add_error line f m rep else rep) ≡ (ok rep && not b)
ok-error_if true line f m rep = simp verdict_laws
ok-error_if false line f m rep = simp verdict_laws

pub ok-error_unless :
    (b : Bool) (line : ℕ) (f : String) (m : Msg) (rep : Report)
    → ok (if b then rep else add_error line f m rep) ≡ (ok rep && b)
ok-error_unless true line f m rep = simp verdict_laws
ok-error_unless false line f m rep = simp verdict_laws

abbrev pub non_negative : Option ℤ → Bool
non_negative none = false
non_negative (some v) = not (ltb_ℤ v (pos 0))

abbrev pub in_range : ℕ → Option ℤ → Bool
in_range n none = false
in_range n (some t) = not (ltb_ℤ t (pos 0) || leb_ℤ (pos n) t)

-- The handle is open on the op's stream.
abbrev pub open_on : ℤ → Option HandleState → Bool
open_on s none = false
open_on s (some st) = not st.closed && st.stream == s

abbrev pub live : Op → Option ℤ → Handles → Bool
live op none handles = false
live op (some h) handles = open_on op.s (lookup h handles)

abbrev pub fresh : Option ℤ → Handles → Bool
fresh none handles = false
fresh (some h) handles = is_none (lookup h handles)

abbrev pub at_most : ℤ → Option ℤ → Bool
at_most r none = true
at_most r (some len) = not (ltb_ℤ len r)

abbrev pub ret_fits : ℤ → Op → Option ℤ → Bool
ret_fits version op none = true
ret_fits version op (some r) =
    carries_ret op.op
    && not (ltb_ℤ r (pos 0))
    && at_most r op.len
    && not (ltb_ℤ (pos 0) version && ltb_ℤ version (pos (min_version op)))

abbrev pub dur_fits : Option ℤ → Bool
dur_fits none = true
dur_fits (some d) = not (ltb_ℤ d (pos 0))

module _ (line : ℕ) (op : Op) where
  pub ok-forbid :
      (f : String) (o : Option ℤ) (rep : Report)
      → ok (forbid f line op o rep) ≡ (ok rep && is_none o)
  unfolding forbid
  ok-forbid f none rep = simp verdict_laws
  ok-forbid f (some v) rep = simp verdict_laws

  pub ok-require_non_negative :
      (f : String) (o : Option ℤ) (rep : Report)
      → ok (require_non_negative f line op o rep) ≡ (ok rep && non_negative o)
  unfolding require_non_negative
  ok-require_non_negative f none rep = simp verdict_laws
  ok-require_non_negative f (some v) rep = ok-error_if (ltb_ℤ v (pos 0)) line f _ rep

  ok-require_target_in :
      (t : Option ℤ) (h : Header) (rep : Report)
      → ok (require_target_in t line op h rep).1 ≡ (ok rep && in_range (length h.targets) t)
  unfolding require_target_in
  ok-require_target_in none h rep = simp verdict_laws
  ok-require_target_in (some t) h rep =
      elim (Bool-cases (ltb_ℤ t (pos 0) || leb_ℤ (pos (length h.targets)) t)) [
        | inl e ↦ rw e (simp verdict_laws)
        | inr e ↦ rw e (simp verdict_laws)
      ]

  pub ok-require_target :
      (h : Header) (rep : Report)
      → ok (require_target line op h rep).1 ≡ (ok rep && in_range (length h.targets) op.tgt)
  unfolding require_target
  ok-require_target h rep = ok-require_target_in op.tgt h rep

  check_state_verdict :
      (o : Option HandleState) (h : ℤ) (rep : Report)
      → ((check_state o h line op rep).0 ≡ open_on op.s o)
        × (ok (check_state o h line op rep).1 ≡ (ok rep && open_on op.s o))
  unfolding check_state
  check_state_verdict none h rep = (refl, simp verdict_laws)
  check_state_verdict (some st) h rep = elim (Bool-cases st.closed) [
    | inl e ↦ rw e (refl, simp verdict_laws)
    | inr e ↦ rw e (elim (Bool-cases (st.stream == op.s)) [
      | inl p ↦ rw p (refl, simp verdict_laws)
      | inr p ↦ rw p (refl, simp verdict_laws)
    ])
  ]

  require_open_handle_verdict :
      (o : Option ℤ) (handles : Handles) (rep : Report)
      → ((require_open_handle_in o line op handles rep).0 ≡ live op o handles)
        × (ok (require_open_handle_in o line op handles rep).1 ≡ (ok rep && live op o handles))
  unfolding require_open_handle_in
  require_open_handle_verdict none handles rep = (refl, simp verdict_laws)
  require_open_handle_verdict (some h) handles rep = check_state_verdict (lookup h handles) h rep

  pub found-require_open_handle :
      (handles : Handles) (rep : Report)
      → (require_open_handle line op handles rep).0 ≡ live op op.h handles
  unfolding require_open_handle
  found-require_open_handle handles rep = (require_open_handle_verdict op.h handles rep).0

  pub ok-require_open_handle :
      (handles : Handles) (rep : Report)
      → ok (require_open_handle line op handles rep).1 ≡ (ok rep && live op op.h handles)
  unfolding require_open_handle
  ok-require_open_handle handles rep = (require_open_handle_verdict op.h handles rep).1

  introduce_at_verdict :
      (o : Option HandleState) (tgt : Option ℤ) (h : ℤ) (handles : Handles) (rep : Report)
      → ok (introduce_at o tgt h line op handles rep).1 ≡ (ok rep && is_none o)
  unfolding introduce_at
  introduce_at_verdict (some st) tgt h handles rep = simp verdict_laws
  introduce_at_verdict none none h handles rep = simp verdict_laws
  introduce_at_verdict none (some t) h handles rep = simp verdict_laws

  pub ok-introduce :
      (o : Option ℤ) (tgt : Option ℤ) (handles : Handles) (rep : Report)
      → ok (introduce o tgt line op handles rep).1 ≡ (ok rep && fresh o handles)
  unfolding introduce
  ok-introduce none tgt handles rep = simp verdict_laws
  ok-introduce (some h) tgt handles rep = introduce_at_verdict (lookup h handles) tgt h handles rep

  pub ok-require_mode :
      (m : Mode) (rep : Report) → ok (require_mode m line op rep) ≡ (ok rep && mode_valid m)
  unfolding require_mode
  ok-require_mode mode_empty rep = simp verdict_laws
  ok-require_mode _ rep = simp verdict_laws

  pub ok-forbid_open_fields :
      (rep : Report)
      → ok (forbid_open_fields line op rep)
        ≡ (ok rep && (is_open op.op || is_mode_empty op.mode && is_nil op.flags))
  unfolding forbid_open_fields
  ok-forbid_open_fields rep = elim (Bool-cases (is_open op.op)) [
    | inl e ↦ rw e (simp verdict_laws)
    | inr e ↦ rw e (simp (ok-error_unless, and_assoc))
  ]

  ok-check_ret_len :
      (r : ℤ) (len : Option ℤ) (rep : Report)
      → ok (check_ret_len r len line rep) ≡ (ok rep && at_most r len)
  unfolding check_ret_len
  ok-check_ret_len r none rep = simp verdict_laws
  ok-check_ret_len r (some l) rep = ok-error_if _ line "ret" _ rep

  ok-check_ret :
      (r : ℤ) (rep : Report)
      → ok (check_ret r line op rep) ≡ (ok rep && ret_fits rep.header.version op (some r))
  unfolding check_ret
  ok-check_ret r rep = elim (Bool-cases (carries_ret op.op)) [
    | inl e ↦ rw e (simp (ok-error_if, ok-check_ret_len, and_assoc))
    | inr e ↦ rw e (simp verdict_laws)
  ]

  validate_ret_verdict :
      (r : Option ℤ) (rep : Report)
      → ok (validate_ret_in r line op rep) ≡ (ok rep && ret_fits rep.header.version op r)
  unfolding validate_ret_in
  validate_ret_verdict none rep = simp verdict_laws
  validate_ret_verdict (some r) rep = ok-check_ret r rep

  pub ok-validate_ret :
      (rep : Report)
      → ok (validate_ret line op rep) ≡ (ok rep && ret_fits rep.header.version op op.ret)
  unfolding validate_ret
  ok-validate_ret rep = validate_ret_verdict op.ret rep

  pub ok-check_dur :
      (d : Option ℤ) (rep : Report) → ok (check_dur d line rep) ≡ (ok rep && dur_fits d)
  unfolding check_dur
  ok-check_dur none rep = simp verdict_laws
  ok-check_dur (some d) rep = ok-error_if _ line "dur" _ rep
