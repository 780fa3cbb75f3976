-- ===== src/Replay/Executor/Assigned.antt =====
-- pkg/replay/executor.go: preparing the assigned streams only, against preparing all and restricting.
use ioflux.Prelude.{
  ℕ, ◌≡◌, List, ℤ, Bool-cases, Bool, Option, ◌==◌, ◌&&◌, ap, inl, some, sym, inr, Option-cases,
  string_eq, refl, nat_eq, subst, ◌∙◌, none, ap₂, String, ◌⊎◌, lookup, if◌then◌else◌, is_some, ◌∷◌,
  lookup-insert, int_eq, [], ◌||◌, int_beq_iff, true, false,
}
use ioflux.Replay.Executor.{
  load_failed, prepared, Loading, Prepared, Plan, finish_load, after_validation, load_op, Ruled,
  load_ruled, count_dur, PrepareFailure, is_default_group, update_prep_metadata, observe_if,
  invalid_trace, while_validating, Extents, prepare_internal, load_trace, executor_of,
  checked_targets, no_loading, rewrite_targets, restrict_streams, put_found, is_listed,
  with_streams, prepare, prepare_assigned,
}
use ioflux.Engine.Types.{Capabilities}
use ioflux.Trace.Types.{Header, TargetInfo, Op}
use ioflux.Validate.Report.{Report, ok}
use ioflux.Validate.Loop.{Failure}
use ioflux.Replay.Caps.{check_op_caps}
use ioflux.Replay.ObjectWrite.{ObjectWriteEligibility}
use ioflux.Validate.Header.{RawHeader}
use ioflux.Trace.Reader.{Stream}
use ioflux.Replay.Executor.Loaded.{validated, ops_at, prepared_streams}
use ioflux.TargetMap.{Url}
use ioflux.Validate.Callback.{validate_with_ops-AgreeOn}
use mathlib.Core.Bool.{and-false, and-true}
use ioflux.Importer.Builder.{or_empty}

-- The same but for the streams that are kept.
abbrev SameButStreams : Loading → Loading → Type 0
SameButStreams a b =
    (a.ops_with_dur ≡ b.ops_with_dur) × (a.eligibility ≡ b.eligibility) × (a.meta ≡ b.meta)

-- The two replays are prepared or fail alike, and differ in the streams that they keep only.
abbrev pub Alike : {S : Type 0} → Prepared S → Prepared S → Type 0
Alike (prepared e) (prepared f) = f ≡ record e { by_stream = f.by_stream }
Alike (load_failed why) (load_failed other) = why ≡ other
Alike (prepared e) (load_failed other) = ⊥
Alike (load_failed why) (prepared f) = ⊥

module _ (caps : Capabilities) (targets : List TargetInfo) (want keep : ℤ → Bool) where
  load_ruled-SameButStreams :
      (op : Op) (a b : Loading) (r : Ruled)
      → (a.ops_with_dur ≡ b.ops_with_dur) × (a.meta ≡ b.meta) × (a.eligibility ≡ b.eligibility)
      → ((load_ruled caps targets want op a r).0 ≡ (load_ruled caps targets keep op b r).0)
        × SameButStreams
            (load_ruled caps targets want op a r).1
            (load_ruled caps targets keep op b r).1
  load_ruled-SameButStreams op a b (inl why) (d, m, e) = (refl, (d, e, m))
  load_ruled-SameButStreams op a b (inr e) (d, m, _) =
      (refl, (d, refl, ap (update_prep_metadata op) m))

  load_op-SameButStreams :
      (op : Op) (a b : Loading)
      → SameButStreams a b
      → ((load_op caps targets want op a).0 ≡ (load_op caps targets keep op b).0)
        × SameButStreams (load_op caps targets want op a).1 (load_op caps targets keep op b).1
  unfolding load_op
  load_op-SameButStreams op a b (d, e, m) =
      let counted = ap (count_dur op.dur) d in
      elim (Bool-cases (is_default_group op.group)) [
        | inl g ↦ elim (Option-cases (check_op_caps op caps)) [
          | inl c ↦
              let f = ap (λ (x : Option ObjectWriteEligibility). observe_if x op targets) e in
              let a' : Loading = record a { ops_with_dur = count_dur op.dur a.ops_with_dur } in
              let b' : Loading = record b { ops_with_dur = count_dur op.dur b.ops_with_dur } in
              let first =
                load_ruled caps targets want op a' (observe_if a.eligibility op targets) in
              rw (g, c)
                (subst
                  (λ (q : Ruled).
                    (first.0 ≡ (load_ruled caps targets keep op b' q).0)
                    × SameButStreams first.1 (load_ruled caps targets keep op b' q).1)
                  f (load_ruled-SameButStreams op a' b' _ (counted, m, e)))
          | inr (why, c) ↦ rw (g, c) (refl, (counted, e, m))
        ]
        | inr g ↦ rw g (refl, (counted, e, m))
      ]

module _ {S : Type 0} (plan : Plan S) (hdr : Header) (targets : List TargetInfo) where
  finish_load-Alike :
      (a b : Loading)
      → SameButStreams a b
      → Alike (finish_load plan hdr targets a) (finish_load plan hdr targets b)
  finish_load-Alike a b (d, e, m) =
      let same = ap (λ (n : ℕ). plan.mode == "think" && n == 0) (sym d) in
      elim (Bool-cases (plan.mode == "think" && a.ops_with_dur == 0)) [
        | inl t ↦ rw (t, same ∙ t) refl
        | inr t ↦
            rw (t, same ∙ t)
              (ap₂
                (λ (x : Extents) (y : Option ObjectWriteEligibility).
                  executor_of plan hdr targets (record b { meta = x; eligibility = y }))
                (sym m) (sym e))
      ]

  after_validation-Alike :
      (r q : Report × Loading × Option (Failure PrepareFailure))
      → (r.0 ≡ q.0) × SameButStreams r.1 q.1 × (r.2 ≡ q.2)
      → Alike (after_validation plan hdr targets r) (after_validation plan hdr targets q)
  unfolding after_validation
  after_validation-Alike (rep, a, some x) (other, b, some y) (same, s, e) =
      let f : x ≡ y = cc in ap while_validating f
  after_validation-Alike (rep, a, none) (other, b, none) (same, s, e) = elim (Bool-cases (ok rep)) [
    | inl o ↦ rw (o, ap ok (sym same) ∙ o) (finish_load-Alike a b s)
    | inr o ↦ rw (o, ap ok (sym same) ∙ o) (ap (λ (t : Report). invalid_trace t.errors) same)
  ]
  after_validation-Alike (rep, a, some x) (other, b, none) (same, s, e) = cc
  after_validation-Alike (rep, a, none) (other, b, some y) (same, s, e) = cc

module _ {S : Type 0} (plan : Plan S) (want keep : ℤ → Bool) (raw : Option RawHeader) (hdr : Header)
    (stream : Stream) where
  load_trace-Alike :
      (table : PrepareFailure ⊎ List TargetInfo)
      → Alike
          (load_trace plan want raw hdr stream table)
          (load_trace plan keep raw hdr stream table)
  unfolding load_trace
  load_trace-Alike (inl why) = refl
  load_trace-Alike (inr targets) =
      let caps = plan.engine.caps in
      after_validation-Alike plan hdr targets (validated plan want raw hdr stream targets)
        (validated plan keep raw hdr stream targets)
        (validate_with_ops-AgreeOn (load_op caps targets want) (load_op caps targets keep)
          SameButStreams (load_op-SameButStreams caps targets want keep) raw hdr stream
          (no_loading caps) (no_loading caps) (refl, refl, refl))

  -- Which streams are kept changes neither whether a replay is prepared, nor the error, nor anything
  -- of the replay but its ops.
  prepare_internal-Alike :
      (parse_url : String → Option Url)
      → Alike
          (prepare_internal parse_url plan want raw hdr stream)
          (prepare_internal parse_url plan keep raw hdr stream)
  unfolding prepare_internal
  prepare_internal-Alike parse_url =
      load_trace-Alike (checked_targets plan (rewrite_targets parse_url plan hdr.targets))

module _ (s : ℤ) (by_stream : List (ℤ × List Op)) where
  lookup-put_found :
      (sid : ℤ) (found : Option (List Op)) (sub : List (ℤ × List Op))
      → lookup s (put_found sid found sub)
        ≡ (if sid == s && is_some found then found else lookup s sub)
  lookup-put_found sid none sub = rw (and-false (sid == s)) refl
  lookup-put_found sid (some ops) sub =
      lookup-insert sid s ops sub
      ∙ ap (λ (b : Bool). if b then some ops else lookup s sub) (sym (and-true (sid == s)))

  lookup-put_here :
      (sid : ℤ) (sub : List (ℤ × List Op))
      → lookup s (put_found sid (lookup sid by_stream) sub)
        ≡ (if sid == s && is_some (lookup s by_stream) then lookup s by_stream else lookup s sub)
  lookup-put_here sid sub =
      lookup-put_found sid (lookup sid by_stream) sub ∙ elim (Bool-cases (sid == s)) [
        | inl e ↦
            ap
              (λ (k : ℤ).
                if sid == s && is_some (lookup k by_stream)
                then lookup k by_stream
                else lookup s sub)
              ((int_beq_iff sid s).0 e)
        | inr e ↦ rw e refl
      ]

  listed_here :
      (l m : Bool) (o r : Option (List Op))
      → (if l && is_some o then o else if m && is_some o then o else r)
        ≡ (if (m || l) && is_some o then o else r)
  listed_here l m none r = rw (and-false l, and-false m, and-false (m || l)) refl
  listed_here true true (some x) r = refl
  listed_here true false (some x) r = refl
  listed_here false true (some x) r = refl
  listed_here false false (some x) r = refl

  lookup-restrict_streams :
      (ids : List ℤ) (sub : List (ℤ × List Op))
      → lookup s (restrict_streams by_stream ids sub) ≡ (
          if is_listed ids s && is_some (lookup s by_stream)
          then lookup s by_stream
          else lookup s sub)
  unfolding restrict_streams
  lookup-restrict_streams [] sub = refl
  lookup-restrict_streams (sid ∷ ids) sub =
      lookup-restrict_streams ids (put_found sid (lookup sid by_stream) sub)
      ∙ ap
          (λ (o : Option (List Op)).
            if is_listed ids s && is_some (lookup s by_stream) then lookup s by_stream else o)
          (lookup-put_here sid sub)
      ∙ listed_here (is_listed ids s) (sid == s) (lookup s by_stream) (lookup s sub)

  -- Restricting keeps the ops of the listed streams.
  ops_at-restrict_streams :
      (ids : List ℤ)
      → ops_at s (restrict_streams by_stream ids [])
        ≡ (if is_listed ids s then ops_at s by_stream else [])
  unfolding lookup
  ops_at-restrict_streams ids =
      ap or_empty (lookup-restrict_streams ids []) ∙ elim (Bool-cases (is_listed ids s)) [
        | inl l ↦ elim (Option-cases (lookup s by_stream)) [
          | inl o ↦ rw (l, o) refl
          | inr (ops, o) ↦ rw (l, o) refl
        ]
        | inr l ↦ rw l refl
      ]

module _ {S : Type 0} where
  -- The two fail alike, or the second is the first restricted to the listed streams: the rest is the
  -- same, and so are the ops of each stream.
  abbrev pub IsRestriction : List ℤ → Prepared S → Prepared S → Type 0
  IsRestriction ids (prepared e) (prepared f) =
      (f ≡ record e { by_stream = f.by_stream })
      × ((s : ℤ) → ops_at s f.by_stream ≡ ops_at s (with_streams e ids).by_stream)
  IsRestriction ids r q = Alike r q

  module _ (parse_url : String → Option Url) (plan : Plan S) (raw : Option RawHeader) (hdr : Header)
      (stream : Stream) (ids : List ℤ) where
    IsRestriction-of :
        (r q : Prepared S)
        → prepare_internal parse_url plan (λ s. true) raw hdr stream ≡ r
        → prepare_internal parse_url plan (is_listed ids) raw hdr stream ≡ q
        → Alike r q
        → IsRestriction ids r q
    unfolding with_streams
    IsRestriction-of (prepared e) (prepared f) p o a = (
      a,
      λ s.
          prepared_streams plan (is_listed ids) raw hdr stream parse_url f o s
          ∙ ap (λ (ops : List Op). if is_listed ids s then ops else [])
              (sym (prepared_streams plan (λ s. true) raw hdr stream parse_url e p s))
          ∙ sym (ops_at-restrict_streams s e.by_stream ids),
    )
    IsRestriction-of (prepared e) (load_failed why) p o a = a
    IsRestriction-of (load_failed why) (prepared f) p o a = a
    IsRestriction-of (load_failed why) (load_failed other) p o a = a

    -- A worker that loads only the streams it is assigned replays what the whole replay, restricted to
    -- those streams, would: it is prepared where the whole is, with the same ops for each stream and
    -- everything else the same, and fails with the same error where the whole fails.
    pub prepare_assigned-IsRestriction :
        IsRestriction ids
          (prepare parse_url plan raw hdr stream)
          (prepare_assigned parse_url plan raw hdr stream ids)
    unfolding prepare prepare_assigned
    prepare_assigned-IsRestriction =
        IsRestriction-of _ _ refl refl
          (prepare_internal-Alike plan (λ s. true) (is_listed ids) raw hdr stream parse_url)
