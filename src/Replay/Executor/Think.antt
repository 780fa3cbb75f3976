-- ===== src/Replay/Executor/Think.antt =====
-- pkg/replay/executor.go: think mode needs the durations of the source's ops.
use ioflux.Prelude.{
  ℕ, ◌≡◌, ℤ, List, none, Bool, Option, All, Bool-cases, ◌==◌, inl, ◌⊎◌, String, inr, Option-cases,
  true, ◌∷◌, [], ◌<◌, refl, ◌∙◌, arith, some, ap, string_eq, nat_eq,
}
use ioflux.Replay.Executor.{
  invalid_trace, load_failed, no_durations, prepared, Plan, after_validation, load_op, Loading,
  Ruled, Executor, count_dur, load_ruled, finish_load, load_trace, is_default_group, PrepareFailure,
  prepare_internal, no_loading, checked_targets, rewrite_targets,
}
use ioflux.Engine.Types.{Capabilities}
use ioflux.Trace.Types.{Op, Header, TargetInfo}
use ioflux.Validate.Report.{Report, ok}
use ioflux.Validate.Header.{RawHeader}
use ioflux.Validate.Order.{ops_of}
use ioflux.Validate.Loop.{Failure}
use ioflux.Trace.Reader.{Stream}
use ioflux.Validate.Callback.{fold_ops, validate_with_ops-fold_ops}
use ioflux.Validate.Outcome.{Passed}
use ioflux.Replay.Caps.{check_op_caps}
use ioflux.TargetMap.{Url}
use ioflux.Replay.Executor.Loaded.{validated}

abbrev pub NoDur : Op → Type 0
NoDur op = op.dur ≡ none

module _ (caps : Capabilities) (targets : List TargetInfo) (wanted : ℤ → Bool) where
  load_ruled-dur :
      (op : Op) (st : Loading) (r : Ruled)
      → (load_ruled caps targets wanted op st r).1.ops_with_dur ≡ st.ops_with_dur
  load_ruled-dur op st (inl why) = refl
  load_ruled-dur op st (inr e) = refl

  load_op-dur :
      (op : Op) (st : Loading)
      → (load_op caps targets wanted op st).1.ops_with_dur ≡ count_dur op.dur st.ops_with_dur
  unfolding load_op
  load_op-dur op st = elim (Bool-cases (is_default_group op.group)) [
    | inl g ↦ elim (Option-cases (check_op_caps op caps)) [
      | inl c ↦ rw (g, c) (load_ruled-dur op _ _)
      | inr (why, c) ↦ rw (g, c) refl
    ]
    | inr g ↦ rw g refl
  ]

  -- Without a duration among the ops, none is counted.
  fold_ops-dur :
      (recs : List (ℕ × Op)) (st : Loading)
      → All NoDur (ops_of recs)
      → (fold_ops (load_op caps targets wanted) recs st).ops_with_dur ≡ st.ops_with_dur
  fold_ops-dur [] st a = refl
  fold_ops-dur ((line, op) ∷ rest) st (d, a) =
      fold_ops-dur rest (load_op caps targets wanted op st).1 a
      ∙ load_op-dur op st
      ∙ ap (λ (o : Option ℤ). count_dur o st.ops_with_dur) d

module _ {S : Type 0} (plan : Plan S) (hdr : Header) (targets : List TargetInfo) where
  finish_load-dur :
      (st : Loading) (e : Executor S)
      → finish_load plan hdr targets st ≡ prepared e
      → (plan.mode == "think") ≡ true
      → 0 < st.ops_with_dur
  finish_load-dur st e p m = elim (Bool-cases (st.ops_with_dur == 0)) [
    | inl z ↦ let q : load_failed no_durations ≡ prepared e = rw (m, z) at p in cc
    | inr z ↦ ground arith
  ]

  after_validation-dur :
      (r : Report × Loading × Option (Failure PrepareFailure)) (e : Executor S)
      → after_validation plan hdr targets r ≡ prepared e
      → (plan.mode == "think") ≡ true
      → Passed r × (0 < r.1.ops_with_dur)
  unfolding after_validation
  after_validation-dur (rep, st, some why) e p m = cc
  after_validation-dur (rep, st, none) e p m = elim (Bool-cases (ok rep)) [
    | inl o ↦ ((refl, o), finish_load-dur st e (rw o at p) m)
    | inr o ↦ let q : load_failed (invalid_trace rep.errors) ≡ prepared e = rw o at p in cc
  ]

module _ {S : Type 0} (plan : Plan S) (wanted : ℤ → Bool) (raw : Option RawHeader) (hdr : Header)
    (stream : Stream) where
  load_trace-dur :
      (table : PrepareFailure ⊎ List TargetInfo) (e : Executor S)
      → load_trace plan wanted raw hdr stream table ≡ prepared e
      → (plan.mode == "think") ≡ true
      → ¬ All NoDur (ops_of stream.records)
  unfolding load_trace
  load_trace-dur (inl why) e p m a = cc
  load_trace-dur (inr targets) e p m a =
      let on_op = load_op plan.engine.caps targets wanted in
      let start_at = no_loading plan.engine.caps in
      let (good, some_dur) =
        after_validation-dur plan hdr targets (validated plan wanted raw hdr stream targets) e p
          m in
      let (_, g) = validate_with_ops-fold_ops on_op raw hdr stream start_at good in
      let none_counted = fold_ops-dur plan.engine.caps targets wanted stream.records start_at a in
      let total = ap (λ (x : Loading). x.ops_with_dur) g ∙ none_counted in omega (arith, total)

  -- In think mode a replay is prepared only where some op of the trace records its duration: a trace
  -- without any is refused and not replayed without its gaps.
  pub think_mode-dur :
      (parse_url : String → Option Url) (e : Executor S)
      → prepare_internal parse_url plan wanted raw hdr stream ≡ prepared e
      → (plan.mode == "think") ≡ true
      → ¬ All NoDur (ops_of stream.records)
  unfolding prepare_internal
  think_mode-dur parse_url e p m =
      load_trace-dur (checked_targets plan (rewrite_targets parse_url plan hdr.targets)) e p m
