-- ===== src/Validate/Tally.antt =====
-- pkg/trace/validate.go: the checks add errors and change nothing else of a report.
use ioflux.Prelude.{
  ℕ, String, Bool, true, false, Option, none, some, List, ◌≡◌, refl, if◌then◌else◌, ℤ, Bool-cases,
  inl, inr, lookup, ltb_ℤ, ◌==◌, pos, int_eq, ◌||◌, leb_ℤ, length,
}
use ioflux.Trace.Types.{Header, Op, Mode, mode_empty}
use ioflux.Validate.Report.{Report, add_warning, add_error, Msg}
use ioflux.Validate.Fields.{
  introduce, introduce_at, validate_ret_in, require_mode, check_state, forbid_open_fields,
  validate_ret, forbid, require_target_in, check_dur, require_open_handle_in, require_open_handle,
  check_ret_len, require_target, require_non_negative, Handles, HandleState, check_ret,
}

-- What a report holds beside its errors and warnings.
pub record Tally : Type 0 where
  pub header : Header
  pub num_ops_read : ℕ
  pub num_partial_reads : ℕ
  pub streams : List (ℤ × ℕ)

unfoldable pub tally : Report → Tally
tally rep = record {
  header = rep.header;
  num_ops_read = rep.num_ops_read;
  num_partial_reads = rep.num_partial_reads;
  streams = rep.streams;
}

pub tally-add_error :
    (line : ℕ) (f : String) (m : Msg) (rep : Report) → tally (add_error line f m rep) ≡ tally rep
unfolding tally add_error
tally-add_error line f m rep = refl

pub tally-add_warning :
    (line : ℕ) (f : String) (m : Msg) (rep : Report) → tally (add_warning line f m rep) ≡ tally rep
unfolding tally add_warning
tally-add_warning line f m rep = refl

pub tally-if :
    (b : Bool) (x y : Report) → tally (if b then x else y) ≡ (if b then tally x else tally y)
tally-if true x y = refl
tally-if false x y = refl

pub if_same : (b : Bool) (x : Tally) → (if b then x else x) ≡ x
if_same true x = refl
if_same false x = refl

pub ruleset tally_laws = (tally-add_error, tally-add_warning, tally-if, if_same)

module _ (line : ℕ) (op : Op) where
  pub tally-forbid :
      (f : String) (o : Option ℤ) (rep : Report) → tally (forbid f line op o rep) ≡ tally rep
  unfolding forbid
  tally-forbid f none rep = refl
  tally-forbid f (some v) rep = simp tally_laws

  pub tally-require_non_negative :
      (f : String) (o : Option ℤ) (rep : Report)
      → tally (require_non_negative f line op o rep) ≡ tally rep
  unfolding require_non_negative
  tally-require_non_negative f none rep = simp tally_laws
  tally-require_non_negative f (some v) rep = simp tally_laws

  tally-require_target_in :
      (t : Option ℤ) (h : Header) (rep : Report)
      → tally (require_target_in t line op h rep).1 ≡ tally rep
  unfolding require_target_in
  tally-require_target_in none h rep = simp tally_laws
  tally-require_target_in (some t) h rep =
      elim (Bool-cases (ltb_ℤ t (pos 0) || leb_ℤ (pos (length h.targets)) t)) [
        | inl e ↦ rw e (simp tally_laws)
        | inr e ↦ rw e refl
      ]

  pub tally-require_target :
      (h : Header) (rep : Report) → tally (require_target line op h rep).1 ≡ tally rep
  unfolding require_target
  tally-require_target h rep = tally-require_target_in op.tgt h rep

  tally-check_state :
      (o : Option HandleState) (h : ℤ) (rep : Report)
      → tally (check_state o h line op rep).1 ≡ tally rep
  unfolding check_state
  tally-check_state none h rep = simp tally_laws
  tally-check_state (some st) h rep = elim (Bool-cases st.closed) [
    | inl e ↦ rw e (simp tally_laws)
    | inr e ↦ rw e (elim (Bool-cases (st.stream == op.s)) [
      | inl p ↦ rw p refl
      | inr p ↦ rw p (simp tally_laws)
    ])
  ]

  tally-require_open_handle_in :
      (o : Option ℤ) (handles : Handles) (rep : Report)
      → tally (require_open_handle_in o line op handles rep).1 ≡ tally rep
  unfolding require_open_handle_in
  tally-require_open_handle_in none handles rep = simp tally_laws
  tally-require_open_handle_in (some h) handles rep = tally-check_state (lookup h handles) h rep

  pub tally-require_open_handle :
      (handles : Handles) (rep : Report)
      → tally (require_open_handle line op handles rep).1 ≡ tally rep
  unfolding require_open_handle
  tally-require_open_handle handles rep = tally-require_open_handle_in op.h handles rep

  tally-introduce_at :
      (o : Option HandleState) (tgt : Option ℤ) (h : ℤ) (handles : Handles) (rep : Report)
      → tally (introduce_at o tgt h line op handles rep).1 ≡ tally rep
  unfolding introduce_at
  tally-introduce_at (some st) tgt h handles rep = simp tally_laws
  tally-introduce_at none none h handles rep = refl
  tally-introduce_at none (some t) h handles rep = refl

  pub tally-introduce :
      (o : Option ℤ) (tgt : Option ℤ) (handles : Handles) (rep : Report)
      → tally (introduce o tgt line op handles rep).1 ≡ tally rep
  unfolding introduce
  tally-introduce none tgt handles rep = simp tally_laws
  tally-introduce (some h) tgt handles rep = tally-introduce_at (lookup h handles) tgt h handles rep

  pub tally-require_mode :
      (m : Mode) (rep : Report) → tally (require_mode m line op rep) ≡ tally rep
  unfolding require_mode
  tally-require_mode mode_empty rep = simp tally_laws
  tally-require_mode _ rep = simp tally_laws

  pub tally-forbid_open_fields : (rep : Report) → tally (forbid_open_fields line op rep) ≡ tally rep
  unfolding forbid_open_fields
  tally-forbid_open_fields rep = simp tally_laws

  tally-check_ret_len :
      (r : ℤ) (len : Option ℤ) (rep : Report) → tally (check_ret_len r len line rep) ≡ tally rep
  unfolding check_ret_len
  tally-check_ret_len r none rep = refl
  tally-check_ret_len r (some l) rep = simp tally_laws

  tally-validate_ret_in :
      (r : Option ℤ) (rep : Report) → tally (validate_ret_in r line op rep) ≡ tally rep
  unfolding validate_ret_in check_ret
  tally-validate_ret_in none rep = refl
  tally-validate_ret_in (some r) rep = simp (tally_laws, tally-check_ret_len)

  pub tally-validate_ret : (rep : Report) → tally (validate_ret line op rep) ≡ tally rep
  unfolding validate_ret
  tally-validate_ret rep = tally-validate_ret_in op.ret rep

  pub tally-check_dur : (d : Option ℤ) (rep : Report) → tally (check_dur d line rep) ≡ tally rep
  unfolding check_dur
  tally-check_dur none rep = refl
  tally-check_dur (some d) rep = simp tally_laws

pub ruleset field_tally_laws = (
  tally_laws, tally-forbid, tally-require_non_negative, tally-require_target,
  tally-require_open_handle, tally-introduce, tally-require_mode, tally-forbid_open_fields,
  tally-validate_ret, tally-check_dur,
)
