-- ===== src/Replay/Executor/Loaded.antt =====
-- pkg/replay/executor.go: what a prepared replay holds.
use ioflux.Prelude.{
  ℕ, ℤ, List, ◌∷◌, [], Bool, ◌≡◌, lookup, if◌then◌else◌, true, ◌==◌, int_eq, none, Bool-cases, inl,
  inr, Option-cases, refl, some, ◌++◌, lookup-insert, sym, ap, ◌&&◌, append_assoc, int_beq_iff,
  append-nil, ◌∙◌, Option, string_eq, nat_eq, ◌⊎◌, String,
}
use ioflux.Replay.Executor.{
  caps_failed, unsupported_group, is_default_group, load_op, Loading, Ruled, append_op, load_ruled,
  group_of, invalid_trace, load_failed, no_durations, prepared, Plan, Executor, after_validation,
  finish_load, PrepareFailure, executor_of, load_trace, no_loading, prepare_internal,
  checked_targets, rewrite_targets,
}
use ioflux.Engine.Types.{Capabilities}
use ioflux.Trace.Types.{Op, TargetInfo, Header}
use ioflux.Importer.Builder.{or_empty}
use ioflux.Replay.Caps.{check_op_caps}
use ioflux.Validate.Callback.{Undisturbed, fold_ops, validate_with_ops-fold_ops}
use mathlib.Core.Bool.{and-false}
use ioflux.Validate.Report.{Report, ok}
use ioflux.Validate.Loop.{Failure, validate_with_ops}
use ioflux.Validate.Outcome.{Passed}
use ioflux.Validate.Header.{RawHeader}
use ioflux.Trace.Reader.{Stream}
use ioflux.TargetMap.{Url}

-- The default group, and nothing that the engine does not offer.
abbrev pub Replayable : Capabilities → Op → Type 0
Replayable caps op = (is_default_group op.group ≡ true) × (check_op_caps op caps ≡ none)

abbrev pub ops_of_stream : ℤ → List (ℕ × Op) → List Op
ops_of_stream s [] = []
ops_of_stream s ((line, op) ∷ rest) =
    let ops = ops_of_stream s rest in if op.s == s then op ∷ ops else ops

abbrev pub ops_at : ℤ → List (ℤ × List Op) → List Op
ops_at s by_stream = or_empty (lookup s by_stream)

module _ (caps : Capabilities) (targets : List TargetInfo) (wanted : ℤ → Bool) where
  load_ruled-none :
      (op : Op) (st : Loading) (r : Ruled)
      → (load_ruled caps targets wanted op st r).0 ≡ none
      → (load_ruled caps targets wanted op st r).1.by_stream
        ≡ (if wanted op.s then append_op op st.by_stream else st.by_stream)
  load_ruled-none op st (inl why) e = cc
  load_ruled-none op st (inr elig) e = refl

  load_op-none :
      (op : Op) (st : Loading)
      → (load_op caps targets wanted op st).0 ≡ none
      → Replayable caps op
        × ((load_op caps targets wanted op st).1.by_stream
            ≡ (if wanted op.s then append_op op st.by_stream else st.by_stream))
  unfolding load_op
  load_op-none op st e = elim (Bool-cases (is_default_group op.group)) [
    | inl g ↦ elim (Option-cases (check_op_caps op caps)) [
      | inl c ↦ rw (g, c) ((refl, refl), load_ruled-none op _ _ (rw (g, c, load_op) at e))
      | inr (why, c) ↦ let e' : some (caps_failed why) ≡ none = rw (g, c, load_op) at e in cc
    ]
    | inr g ↦
        let e' : some (unsupported_group (group_of op.group)) ≡ none = rw (g, load_op) at e in cc
  ]

  ops_at-append_op :
      (s : ℤ) (op : Op) (by_stream : List (ℤ × List Op))
      → ops_at s (append_op op by_stream)
        ≡ ops_at s by_stream ++ (if op.s == s then op ∷ [] else [])
  unfolding append_op
  ops_at-append_op s op by_stream = elim (Bool-cases (op.s == s)) [
    | inl e ↦
        rw (lookup-insert op.s s (or_empty (lookup op.s by_stream) ++ op ∷ []) by_stream, e)
          (ap (λ (k : ℤ). ops_at k by_stream ++ op ∷ []) ((int_beq_iff op.s s).0 e))
    | inr e ↦
        rw (lookup-insert op.s s (or_empty (lookup op.s by_stream) ++ op ∷ []) by_stream, e)
          (sym (append-nil (ops_at s by_stream)))
  ]

  ops_at-keep :
      (s : ℤ) (op : Op) (by_stream : List (ℤ × List Op))
      → ops_at s (if wanted op.s then append_op op by_stream else by_stream)
        ≡ ops_at s by_stream ++ (if wanted s && op.s == s then op ∷ [] else [])
  ops_at-keep s op by_stream = elim (Bool-cases (op.s == s)) [
    | inl e ↦
        let same = (int_beq_iff op.s s).0 e in
        elim (Bool-cases (wanted s)) [
          | inl w ↦ rw (ap wanted same ∙ w, w, ops_at-append_op s op by_stream, e) refl
          | inr w ↦ rw (ap wanted same ∙ w, w) (sym (append-nil (ops_at s by_stream)))
        ]
    | inr e ↦ elim (Bool-cases (wanted op.s)) [
      | inl w ↦ rw (w, ops_at-append_op s op by_stream, e, and-false (wanted s)) refl
      | inr w ↦ rw (w, e, and-false (wanted s)) (sym (append-nil (ops_at s by_stream)))
    ]
  ]

  gather_cons :
      (s : ℤ) (line : ℕ) (op : Op) (rest : List (ℕ × Op)) (before : List Op)
      → (before ++ (if wanted s && op.s == s then op ∷ [] else []))
          ++ (if wanted s then ops_of_stream s rest else [])
        ≡ before ++ (if wanted s then ops_of_stream s ((line, op) ∷ rest) else [])
  gather_cons s line op rest before = elim (Bool-cases (wanted s)) [
    | inl w ↦ elim (Bool-cases (op.s == s)) [
      | inl e ↦ rw (w, e) (append_assoc before (op ∷ []) (ops_of_stream s rest))
      | inr e ↦ rw (w, e) (append_assoc before [] (ops_of_stream s rest))
    ]
    | inr w ↦ rw w (append_assoc before [] [])
  ]

  -- What a stream has gathered is what it had and its ops, in order.
  fold_ops-ops_at :
      (s : ℤ) (recs : List (ℕ × Op)) (st : Loading)
      → Undisturbed (load_op caps targets wanted) recs st
      → ops_at s (fold_ops (load_op caps targets wanted) recs st).by_stream
        ≡ ops_at s st.by_stream ++ (if wanted s then ops_of_stream s recs else [])
  fold_ops-ops_at s [] st u = elim (Bool-cases (wanted s)) [
    | inl w ↦ rw w (sym (append-nil (ops_at s st.by_stream)))
    | inr w ↦ rw w (sym (append-nil (ops_at s st.by_stream)))
  ]
  fold_ops-ops_at s ((line, op) ∷ rest) st (e, u) =
      let (_, kept) = load_op-none op st e in
      let rest_ops = if wanted s then ops_of_stream s rest else [] in
      fold_ops-ops_at s rest (load_op caps targets wanted op st).1 u
      ∙ ap (λ (xs : List Op). xs ++ rest_ops) (ap (ops_at s) kept ∙ ops_at-keep s op st.by_stream)
      ∙ gather_cons s line op rest (ops_at s st.by_stream)

module _ {S : Type 0} (plan : Plan S) (hdr : Header) (targets : List TargetInfo) where
  finish_load-prepared :
      (st : Loading) (e : Executor S)
      → finish_load plan hdr targets st ≡ prepared e
      → e ≡ executor_of plan hdr targets st
  finish_load-prepared st e p = elim (Bool-cases (plan.mode == "think" && st.ops_with_dur == 0)) [
    | inl t ↦ let q : load_failed no_durations ≡ prepared e = rw t at p in cc
    | inr t ↦ let q : prepared (executor_of plan hdr targets st) ≡ prepared e = rw t at p in cc
  ]

  after_validation-prepared :
      (r : Report × Loading × Option (Failure PrepareFailure)) (e : Executor S)
      → after_validation plan hdr targets r ≡ prepared e
      → Passed r × (e ≡ executor_of plan hdr targets r.1)
  unfolding after_validation
  after_validation-prepared (rep, st, some why) e p = cc
  after_validation-prepared (rep, st, none) e p = elim (Bool-cases (ok rep)) [
    | inl o ↦ ((refl, o), finish_load-prepared st e (rw o at p))
    | inr o ↦ let q : load_failed (invalid_trace rep.errors) ≡ prepared e = rw o at p in cc
  ]

module _ {S : Type 0} (plan : Plan S) (wanted : ℤ → Bool) (raw : Option RawHeader) (hdr : Header)
    (stream : Stream) where
  -- The run of the validator that a prepared replay comes from.
  abbrev pub validated : List TargetInfo → Report × Loading × Option (Failure PrepareFailure)
  validated targets =
      validate_with_ops (load_op plan.engine.caps targets wanted) raw hdr stream
        (no_loading plan.engine.caps)

  load_trace-prepared :
      (table : PrepareFailure ⊎ List TargetInfo) (e : Executor S)
      → load_trace plan wanted raw hdr stream table ≡ prepared e
      → (targets : List TargetInfo) × (table ≡ inr targets)
        × Passed (validated targets)
        × (e ≡ executor_of plan hdr targets (validated targets).1)
  unfolding load_trace
  load_trace-prepared (inl why) e p = cc
  load_trace-prepared (inr targets) e p =
      let (good, same) = after_validation-prepared plan hdr targets (validated targets) e p in
      (targets, refl, good, same)

  load_trace-loads :
      (table : PrepareFailure ⊎ List TargetInfo) (e : Executor S)
      → load_trace plan wanted raw hdr stream table ≡ prepared e
      → (targets : List TargetInfo) × Undisturbed
          (load_op plan.engine.caps targets wanted)
          stream.records
          (no_loading plan.engine.caps)
        × Passed (validated targets)
        × (e.by_stream
            ≡ (fold_ops
                (load_op plan.engine.caps targets wanted)
                stream.records
                (no_loading plan.engine.caps)).by_stream)
  load_trace-loads table e p =
      let (targets, _, good, same) = load_trace-prepared table e p in
      let on_op = load_op plan.engine.caps targets wanted in
      let (u, g) =
        validate_with_ops-fold_ops on_op raw hdr stream (no_loading plan.engine.caps) good in
      (
        targets,
        u,
        good,
        ap (λ (x : Executor S). x.by_stream) same ∙ ap (λ (x : Loading). x.by_stream) g,
      )

  module _ (parse_url : String → Option Url) (e : Executor S)
      (done : prepare_internal parse_url plan wanted raw hdr stream ≡ prepared e) where
    loads :
        (targets : List TargetInfo) × Undisturbed
          (load_op plan.engine.caps targets wanted)
          stream.records
          (no_loading plan.engine.caps)
        × Passed (validated targets)
        × (e.by_stream
            ≡ (fold_ops
                (load_op plan.engine.caps targets wanted)
                stream.records
                (no_loading plan.engine.caps)).by_stream)
    unfolding prepare_internal
    loads =
        load_trace-loads (checked_targets plan (rewrite_targets parse_url plan hdr.targets)) e done

    -- A prepared replay holds, for each stream that is wanted, the ops of the trace in that stream, in
    -- the order of the trace, and no op of any other stream.
    pub prepared_streams :
        (s : ℤ) → ops_at s e.by_stream ≡ (if wanted s then ops_of_stream s stream.records else [])
    unfolding lookup
    prepared_streams s =
        let (targets, u, _, same) = loads in
        ap (ops_at s) same
        ∙ fold_ops-ops_at plan.engine.caps targets wanted s stream.records
            (no_loading plan.engine.caps) u
