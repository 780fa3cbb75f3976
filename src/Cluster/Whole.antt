-- ===== src/Cluster/Whole.antt =====
-- pkg/cluster/coordinator.go, pkg/cluster/worker.go and pkg/replay/executor.go: the workers of a run
-- together replay the trace. Each worker prepares the streams that it is assigned.
use ioflux.Prelude.{
  ℕ, ℤ, String, List, Option, ◌∷◌, ◌++◌, [], ◌≡◌, refl, arith, if◌then◌else◌, Bool-cases, some,
  false, ap, ◌<◌, ◌==◌, inl, Bool, ◌∙◌, true, inr, append-nil, ◌||◌, int_eq, sym,
}
use ioflux.Replay.Executor.{prepared, Executor, Plan, prepare_assigned, is_listed}
use ioflux.TargetMap.{Url}
use ioflux.Trace.Types.{Op, Header}
use ioflux.Validate.Header.{RawHeader}
use ioflux.Replay.Executor.Loaded.{ops_at, ops_of_stream, prepared_streams}
use ioflux.Trace.Reader.{Stream}
use ioflux.Cluster.Partition.Once.{workers_with, in_trace, assigned_once}
use ioflux.Cluster.Partition.{parse_trace_streams, has_stream, partition_streams}

-- The ops of a stream over all workers.
abbrev pub gathered : {S : Type 0} → ℤ → List (Executor S) → List Op
gathered s [] = []
gathered s (e ∷ execs) = ops_at s e.by_stream ++ gathered s execs

module _ {S : Type 0} (parse_url : String → Option Url) (plan : Plan S) (raw : Option RawHeader)
    (hdr : Header) (stream : Stream) where
  -- Each worker has prepared its assignment.
  abbrev pub AllPrepared : List (List ℤ) → List (Executor S) → Type 0
  AllPrepared [] [] = Unit
  AllPrepared (ids ∷ out) (e ∷ execs) =
      (prepare_assigned parse_url plan raw hdr stream ids ≡ prepared e) × AllPrepared out execs
  AllPrepared [] (_ ∷ _) = ⊥
  AllPrepared (_ ∷ _) [] = ⊥

  is_listed-has_stream : (s : ℤ) (ids : List ℤ) → is_listed ids s ≡ has_stream s ids
  is_listed-has_stream s [] = refl
  is_listed-has_stream s (id ∷ ids) = ap (λ (b : Bool). id == s || b) (is_listed-has_stream s ids)

  worker_ops :
      (s : ℤ) (ids : List ℤ) (e : Executor S)
      → prepare_assigned parse_url plan raw hdr stream ids ≡ prepared e
      → ops_at s e.by_stream ≡ (if has_stream s ids then ops_of_stream s stream.records else [])
  unfolding prepare_assigned
  worker_ops s ids e p =
      prepared_streams plan (is_listed ids) raw hdr stream parse_url e p s
      ∙ ap (λ (b : Bool). if b then ops_of_stream s stream.records else [])
          (is_listed-has_stream s ids)

  gathered_nowhere :
      (s : ℤ) (out : List (List ℤ)) (execs : List (Executor S))
      → AllPrepared out execs
      → workers_with s out ≡ 0
      → gathered s execs ≡ []
  gathered_nowhere s [] [] a e = refl
  gathered_nowhere s (ids ∷ out) (x ∷ execs) (p, a) e = elim (Bool-cases (has_stream s ids)) [
    | inl h ↦ absurd (ground arith)
    | inr h ↦ rw (worker_ops s ids x p, h) (gathered_nowhere s out execs a (ground arith))
  ]
  gathered_nowhere s [] (_ ∷ _) a e = absurd a
  gathered_nowhere s (_ ∷ _) [] a e = absurd a

  gathered_once :
      (s : ℤ) (out : List (List ℤ)) (execs : List (Executor S))
      → AllPrepared out execs
      → workers_with s out ≡ 1
      → gathered s execs ≡ ops_of_stream s stream.records
  gathered_once s [] [] a e = absurd (omega arith)
  gathered_once s (ids ∷ out) (x ∷ execs) (p, a) e = elim (Bool-cases (has_stream s ids)) [
    | inl h ↦
        rw (worker_ops s ids x p, h, gathered_nowhere s out execs a (ground arith))
          (append-nil (ops_of_stream s stream.records))
    | inr h ↦ rw (worker_ops s ids x p, h) (gathered_once s out execs a (ground arith))
  ]
  gathered_once s [] (_ ∷ _) a e = absurd a
  gathered_once s (_ ∷ _) [] a e = absurd a

  no_ops : (s : ℤ) (recs : List (ℕ × Op)) → in_trace s recs ≡ false → ops_of_stream s recs ≡ []
  no_ops s [] e = refl
  no_ops s ((line, op) ∷ rest) e = elim (Bool-cases (op.s == s)) [
    | inl h ↦ let q : true ≡ false = rw h at e in cc
    | inr h ↦ rw h (no_ops s rest (rw h at e))
  ]

  -- Where the streams of a trace are dealt out to a positive number of workers and each has prepared
  -- what it is assigned, the workers together hold exactly the ops of the trace in each stream, each
  -- once and in the order of the trace.
  pub workers_replay_trace :
      (ids : List ℤ) (n : ℕ) (out : List (List ℤ)) (execs : List (Executor S))
      → parse_trace_streams stream ≡ some ids
      → 0 < n
      → partition_streams ids n ≡ some out
      → AllPrepared out execs
      → (s : ℤ) → gathered s execs ≡ ops_of_stream s stream.records
  workers_replay_trace ids n out execs e p f a s =
      let (other, g, once) = assigned_once s stream ids n e p in
      let same : other ≡ out = cc in
      let once' : workers_with s out ≡ (if in_trace s stream.records then 1 else 0) =
        ap (workers_with s) (sym same) ∙ once in
      elim (Bool-cases (in_trace s stream.records)) [
        | inl t ↦ gathered_once s out execs a (rw t at once')
        | inr t ↦ gathered_nowhere s out execs a (rw t at once') ∙ sym (no_ops s stream.records t)
      ]
