-- ===== src/Replay/ObjectWrite.antt =====
-- pkg/replay/objectwrite.go: which write handles a run may coalesce into one Put. The table of targets
-- is looked up by index; a negative or a large index has no target.
mod Keeps
pub mod Coverage
use ioflux.Trace.Types.{mode_write, op_close, op_open, op_write, OpKind, Op, Mode, TargetInfo}
use ioflux.Prelude.{
  negsuc, pos, List, [], ℤ, Option, some, add64, Bool, if◌then◌else◌, insert, erase, lookup, ◌∷◌,
  get_elem?, true, ltb_ℤ, false, none, ◌==◌, int_eq, ◌&&◌, not,
}

pub record OwHandle : Type 0 where
  pub target : ℤ
  pub mode : Mode
  pub next_off : ℤ

pub record ObjectWriteEligibility : Type 0 where
  pub handles : List (ℤ × OwHandle)
  pub sizes : List (ℤ × ℤ)

abbrev pub new_object_write_eligibility : ObjectWriteEligibility
new_object_write_eligibility = record { handles = []; sizes = [] }

-- Why a pattern of writes is not eligible: the three errors, with the values that they print.
pub data Ineligible : Type 0 where
  mode_not_write : Mode → Ineligible
  not_sequential : ℤ → ℤ → Ineligible
  partial_coverage : ℤ → ℤ → Ineligible

pub data Observed : Type 0 where
  continues : ObjectWriteEligibility → Observed
  ineligible : Ineligible → Observed

abbrev pub target_at : ℤ → List TargetInfo → Option TargetInfo
target_at (pos n) targets = get_elem? targets n
target_at (negsuc n) targets = none

abbrev pub is_write_mode : Mode → Bool
is_write_mode mode_write = true
is_write_mode _ = false

abbrev pub observe_open : ObjectWriteEligibility → Mode → Option ℤ → Option ℤ → Observed
observe_open e mode (some h) (some tgt) =
    let st : OwHandle = record { target = tgt; mode = mode; next_off = pos 0 } in
    continues (record e { handles = insert h st e.handles })
observe_open e mode _ _ = continues e

-- The handle's next offset moves past the write.
unfoldable pub extend : ObjectWriteEligibility → ℤ → OwHandle → ℤ → Observed
extend e h st n =
    let st' : OwHandle = record st { next_off = add64 st.next_off n } in
    continues (record e { handles = insert h st' e.handles })

unfoldable pub observe_range :
    ObjectWriteEligibility → ℤ → OwHandle → Option ℤ → Option ℤ → Observed
observe_range e h st (some off) (some len) =
    if off == st.next_off then extend e h st len else ineligible (not_sequential off st.next_off)
observe_range e h st _ _ = continues e

unfoldable pub write_state : ObjectWriteEligibility → Op → ℤ → Option OwHandle → Observed
unfolding observe_range
write_state e op h none = continues e
write_state e op h (some st) =
    if is_write_mode st.mode
    then observe_range e h st op.off op.len
    else ineligible (mode_not_write st.mode)

unfoldable pub observe_write : ObjectWriteEligibility → Op → Option ℤ → Observed
unfolding write_state
observe_write e op none = continues e
observe_write e op (some h) = write_state e op h (lookup h e.handles)

unfoldable pub set_size : ObjectWriteEligibility → OwHandle → Option TargetInfo → Observed
set_size e st none = continues e
set_size e st (some tgt) =
    if ltb_ℤ (pos 0) tgt.size && not (st.next_off == tgt.size)
    then ineligible (partial_coverage st.next_off tgt.size)
    else continues (record e { sizes = insert st.target st.next_off e.sizes })

unfoldable pub close_state :
    ObjectWriteEligibility → List TargetInfo → ℤ → Option OwHandle → Observed
unfolding set_size
close_state e targets h none = continues e
close_state e targets h (some st) =
    let e' : ObjectWriteEligibility = record e { handles = erase h e.handles } in
    if is_write_mode st.mode then set_size e' st (target_at st.target targets) else continues e'

unfoldable pub observe_close : ObjectWriteEligibility → List TargetInfo → Option ℤ → Observed
unfolding close_state
observe_close e targets none = continues e
observe_close e targets (some h) = close_state e targets h (lookup h e.handles)

unfoldable pub observe_kind : OpKind → ObjectWriteEligibility → Op → List TargetInfo → Observed
unfolding observe_write observe_close
observe_kind op_open e op targets = observe_open e op.mode op.h op.tgt
observe_kind op_write e op targets = observe_write e op op.h
observe_kind op_close e op targets = observe_close e targets op.h
observe_kind _ e op targets = continues e

unfoldable pub observe : ObjectWriteEligibility → Op → List TargetInfo → Observed
unfolding observe_kind
observe e op targets = observe_kind op.op e op targets

-- The ops in order, until the first error.
unfoldable pub observe_after : Observed → List TargetInfo → List Op → Observed
unfolding observe
observe_after (ineligible why) targets ops = ineligible why
observe_after (continues e) targets [] = continues e
observe_after (continues e) targets (op ∷ ops) = observe_after (observe e op targets) targets ops
