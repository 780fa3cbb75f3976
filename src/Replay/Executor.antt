-- ===== src/Replay/Executor.antt =====
-- pkg/replay/executor.go: the preparation of a replay. The map of wanted streams is a test on streams:
-- `load_all` wants each. A run, the cache controls and the texts of errors are not here.
use ioflux.Prelude.{
  ℕ, pos, String, Option, List, sort_stable, ℤ, some, Bool, inl, ◌⊎◌, if◌then◌else◌, ◌∷◌, leb_ℤ,
  insert, [], map, suc, erase, inr, is_nil, ◌&&◌, none, ltb_ℤ, ◌==◌, add64, false, lookup, true,
  int_eq, not, ◌||◌, ◌++◌, string_eq, nat_eq,
}
pub mod Loaded
pub mod Assigned
pub mod Think
use ioflux.Replay.ObjectWrite.{
  continues, ineligible, Observed, Ineligible, observe, ObjectWriteEligibility,
  new_object_write_eligibility,
}
use ioflux.TargetMap.{
  mapped, rejected, RewriteResult, RewriteError, Url, TargetMap, rewrite, EngineContext,
}
use ioflux.Engine.Types.{no_error, Engine, Capabilities, EngineError}
use ioflux.Trace.Types.{
  op_close, op_get, op_open, op_put, op_read, op_write, OpKind, Header, Op, TargetInfo,
  transferred_bytes,
}
use ioflux.Validate.Loop.{Failure, validate_with_ops}
use ioflux.Prepare.{Metadata, Stats, or_zero_size, no_stats}
use ioflux.Validate.Report.{Issue, Report, ok}
use ioflux.Validate.Header.{RawHeader}
use ioflux.Importer.Builder.{or_empty}
use ioflux.Replay.Caps.{check_op_caps, CapsError, check_target_containment}
use ioflux.Trace.Reader.{Stream}
use ioflux.Payload.Fill.{PayloadMode, normalize}
use ioflux.Replay.Extents.{update_prep_metadata, Extents}

pub record Plan (S : Type 0) : Type 0 where
  pub engine : Engine S
  pub check_target : Option (String → EngineError)
  pub engine_name : String
  pub mode : String
  pub target_map : Option TargetMap
  pub bucket : String
  pub fill_mode : PayloadMode
  pub fill_seed : ℤ

pub data PrepareFailure : Type 0 where
  target_map_failed : RewriteError → PrepareFailure
  containment_failed : EngineError → PrepareFailure
  unsupported_group : ℤ → PrepareFailure
  caps_failed : CapsError → PrepareFailure
  not_eligible : Ineligible → PrepareFailure

pub data LoadError : Type 0 where
  before_loading : PrepareFailure → LoadError
  while_validating : Failure PrepareFailure → LoadError
  invalid_trace : List Issue → LoadError
  no_durations : LoadError

pub record Loading : Type 0 where
  pub ops_with_dur : ℕ
  pub eligibility : Option ObjectWriteEligibility
  pub meta : Extents
  pub by_stream : List (ℤ × List Op)

abbrev pub is_default_group : Option ℤ → Bool
is_default_group none = true
is_default_group (some g) = g == pos 0

abbrev pub group_of : Option ℤ → ℤ
group_of none = pos 0
group_of (some g) = g

abbrev pub count_dur : Option ℤ → ℕ → ℕ
count_dur none n = n
count_dur (some d) n = suc n

unfoldable pub append_op : Op → List (ℤ × List Op) → List (ℤ × List Op)
append_op op by_stream = insert op.s (or_empty (lookup op.s by_stream) ++ op ∷ []) by_stream

-- The error of the eligibility rules, or their new state.
abbrev pub Ruled : Type 0
Ruled = Ineligible ⊎ Option ObjectWriteEligibility

abbrev pub of_observed : Observed → Ruled
of_observed (ineligible why) = inl why
of_observed (continues e) = inr (some e)

unfoldable pub observe_if : Option ObjectWriteEligibility → Op → List TargetInfo → Ruled
unfolding observe
observe_if none op targets = inr none
observe_if (some e) op targets = of_observed (observe e op targets)

module _ (caps : Capabilities) (targets : List TargetInfo) (wanted : ℤ → Bool) where
  abbrev pub keep_op : Op → Loading → Loading
  keep_op op st = record st {
    meta = update_prep_metadata op st.meta;
    by_stream = if wanted op.s then append_op op st.by_stream else st.by_stream;
  }

  abbrev pub load_ruled : Op → Loading → Ruled → Option PrepareFailure × Loading
  load_ruled op st (inl why) = (some (not_eligible why), st)
  load_ruled op st (inr e) = (none, keep_op op (record st { eligibility = e }))

  abbrev pub load_caps : Op → Loading → Option CapsError → Option PrepareFailure × Loading
  load_caps op st (some why) = (some (caps_failed why), st)
  load_caps op st none = load_ruled op st (observe_if st.eligibility op targets)

  -- The callback of ValidateWithOps.
  unfoldable pub load_op : Op → Loading → Option PrepareFailure × Loading
  unfolding check_op_caps observe_if update_prep_metadata append_op
  load_op op st0 =
      let st : Loading = record st0 { ops_with_dur = count_dur op.dur st0.ops_with_dur } in
      if not (is_default_group op.group)
      then (some (unsupported_group (group_of op.group)), st)
      else load_caps op st (check_op_caps op caps)

abbrev pub no_loading : Capabilities → Loading
no_loading caps = record {
  ops_with_dur = 0;
  eligibility =
      if caps.object_api && not caps.partial_write then some new_object_write_eligibility else none;
  meta = record { extents = []; handle_to_target = [] };
  by_stream = [];
}

pub record Executor (S : Type 0) : Type 0 where
  pub plan : Plan S
  pub hdr : Header
  pub by_stream : List (ℤ × List Op)
  pub prep_meta : Metadata
  pub original_targets : List TargetInfo
  pub prep_stats : Stats
  pub materialized : Bool
  pub object_write_sizes : List (ℤ × ℤ)

pub data Prepared (S : Type 0) : Type 0 where
  prepared : Executor S → Prepared S
  load_failed : LoadError → Prepared S

abbrev pub sizes_of : Option ObjectWriteEligibility → List (ℤ × ℤ)
sizes_of none = []
sizes_of (some e) = e.sizes

abbrev pub targets_of : RewriteResult → PrepareFailure ⊎ List TargetInfo
targets_of (mapped out unmatched) = inr out
targets_of (rejected why) = inl (target_map_failed why)

abbrev pub contained :
    PrepareFailure ⊎ List TargetInfo → EngineError → PrepareFailure ⊎ List TargetInfo
contained (inl why) err = inl why
contained (inr targets) no_error = inr targets
contained (inr targets) err = inl (containment_failed err)

abbrev pub is_listed : List ℤ → ℤ → Bool
is_listed [] s = false
is_listed (sid ∷ ids) s = sid == s || is_listed ids s

module _ {S : Type 0} where
  abbrev pub checked_targets :
      Plan S → PrepareFailure ⊎ List TargetInfo → PrepareFailure ⊎ List TargetInfo
  checked_targets plan (inl why) = inl why
  checked_targets plan (inr targets) =
      contained (inr targets) (check_target_containment plan.check_target targets)

  abbrev pub executor_of : Plan S → Header → List TargetInfo → Loading → Executor S
  executor_of plan hdr targets st = record {
    plan = plan;
    hdr = record hdr { targets = targets };
    by_stream = st.by_stream;
    prep_meta = record {
      extents = st.meta.extents;
      fill_config = normalize (record { mode = plan.fill_mode; seed = plan.fill_seed });
    };
    original_targets = hdr.targets;
    prep_stats = no_stats;
    materialized = false;
    object_write_sizes = sizes_of st.eligibility;
  }

  abbrev pub finish_load : Plan S → Header → List TargetInfo → Loading → Prepared S
  finish_load plan hdr targets st =
      if plan.mode == "think" && st.ops_with_dur == 0
      then load_failed no_durations
      else prepared (executor_of plan hdr targets st)

  unfoldable pub after_validation :
      Plan S
      → Header
      → List TargetInfo
      → Report × Loading × Option (Failure PrepareFailure)
      → Prepared S
  after_validation plan hdr targets (rep, st, some why) = load_failed (while_validating why)
  after_validation plan hdr targets (rep, st, none) =
      if not (ok rep)
      then load_failed (invalid_trace rep.errors)
      else finish_load plan hdr targets st

  unfoldable pub load_trace :
      Plan S
      → (ℤ → Bool)
      → Option RawHeader
      → Header
      → Stream
      → PrepareFailure ⊎ List TargetInfo
      → Prepared S
  unfolding load_op after_validation
  load_trace plan wanted raw hdr stream (inl why) = load_failed (before_loading why)
  load_trace plan wanted raw hdr stream (inr targets) = after_validation plan hdr targets (
      validate_with_ops (load_op plan.engine.caps targets wanted) raw hdr stream
        (no_loading plan.engine.caps))

module _ {S : Type 0} (parse_url : String → Option Url) where
  unfoldable pub rewrite_targets : Plan S → List TargetInfo → PrepareFailure ⊎ List TargetInfo
  unfolding rewrite
  rewrite_targets plan targets = elim plan.target_map [
    | none ↦ inr targets
    | some m ↦
        let ec : EngineContext = record { engine_kind = plan.engine_name; bucket = plan.bucket } in
        targets_of (rewrite parse_url ec m targets)
  ]

  unfoldable pub prepare_internal :
      Plan S → (ℤ → Bool) → Option RawHeader → Header → Stream → Prepared S
  unfolding load_trace rewrite_targets
  prepare_internal plan wanted raw hdr stream =
      load_trace plan wanted raw hdr stream
        (checked_targets plan (rewrite_targets plan hdr.targets))

  unfoldable pub prepare : Plan S → Option RawHeader → Header → Stream → Prepared S
  unfolding prepare_internal
  prepare plan raw hdr stream = prepare_internal plan (λ s. true) raw hdr stream

  unfoldable pub prepare_assigned :
      Plan S → Option RawHeader → Header → Stream → List ℤ → Prepared S
  unfolding prepare_internal
  prepare_assigned plan raw hdr stream ids = prepare_internal plan (is_listed ids) raw hdr stream

abbrev pub put_found : ℤ → Option (List Op) → List (ℤ × List Op) → List (ℤ × List Op)
put_found sid none sub = sub
put_found sid (some ops) sub = insert sid ops sub

-- The entries of the listed streams.
unfoldable pub restrict_streams :
    List (ℤ × List Op) → List ℤ → List (ℤ × List Op) → List (ℤ × List Op)
restrict_streams by_stream [] sub = sub
restrict_streams by_stream (sid ∷ ids) sub =
    restrict_streams by_stream ids (put_found sid (lookup sid by_stream) sub)

module _ {S : Type 0} where
  unfoldable pub with_streams : Executor S → List ℤ → Executor S
  unfolding restrict_streams
  with_streams e ids = record e { by_stream = restrict_streams e.by_stream ids [] }

  unfoldable pub executor_stream_ids : Executor S → List ℤ
  unfolding sort_stable
  executor_stream_ids e = sort_stable leb_ℤ (map (λ p. p.0) e.by_stream)

  unfoldable pub replay_equivalence : Executor S → String
  replay_equivalence e = if is_nil e.object_write_sizes then "syscall-level" else "object-level"
