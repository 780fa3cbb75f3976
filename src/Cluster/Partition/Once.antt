-- ===== src/Cluster/Partition/Once.antt =====
-- pkg/cluster/coordinator.go: each stream of a trace goes to one worker.
use mathlib.Core.List.Permᴰ.{nil, cons, swap, trans}
use Prim.Native.Nat.{◌%◌}
use ioflux.Prelude.{
  ℕ, ℤ, if◌then◌else◌, replicate, List, ◌≤◌, ◌<◌, length, ◌++◌, [], ◌==◌, ◌∷◌, Bool, ◌≡◌, ◌+◌,
  int_eq, false, ◌⊎◌, suc, arith, zero, ap, true, ◌||◌, inl, refl, Permᴰ, Bool-cases, int_beq_iff,
  ◌∙◌, ap₂, inr, some, length-replicate, nat_eq, sort_stable-Permᴰ, leb_ℤ, sort_stable,
}
use Prim.Native.Nat.{◌%◌}
use ioflux.Cluster.Partition.{
  deal, append_at, has_stream, distinct_streams, partition_streams, parse_trace_streams,
  streams_at_end,
}
use mathlib.Core.List.Permᴰ.{nil, cons, swap, trans}
use Prim.Native.Nat.{◌%◌}
use ioflux.Trace.Types.{Op}
use ioflux.Trace.Reader.{Stream, eof, parse_error, scan_error, End}

abbrev pub occurs_here : ℤ → ℤ → ℕ
occurs_here s id = if id == s then 1 else 0

abbrev pub occurrences : ℤ → List ℤ → ℕ
occurrences s [] = 0
occurrences s (id ∷ ids) = occurs_here s id + occurrences s ids

abbrev all_occurrences : ℤ → List (List ℤ) → ℕ
all_occurrences s [] = 0
all_occurrences s (ids ∷ out) = occurrences s ids + all_occurrences s out

-- The number of workers that are assigned the stream.
abbrev pub workers_with : ℤ → List (List ℤ) → ℕ
workers_with s [] = 0
workers_with s (ids ∷ out) = (if has_stream s ids then 1 else 0) + workers_with s out

abbrev pub in_trace : ℤ → List (ℕ × Op) → Bool
in_trace s [] = false
in_trace s ((line, op) ∷ rest) = op.s == s || in_trace s rest

module _ (s : ℤ) where
  occurrences-append :
      (xs ys : List ℤ) → occurrences s (xs ++ ys) ≡ occurrences s xs + occurrences s ys
  occurrences-append [] ys = omega arith
  occurrences-append (x ∷ xs) ys = omega (arith, occurrences-append xs ys)

  all_occurrences-append_at :
      (w : ℕ) (id : ℤ) (out : List (List ℤ))
      → w < length out
      → all_occurrences s (append_at w id out) ≡ occurs_here s id + all_occurrences s out
  unfolding append_at
  all_occurrences-append_at w id [] h = absurd (omega arith)
  all_occurrences-append_at zero id (ids ∷ out) h = omega (arith, occurrences-append ids (id ∷ []))
  all_occurrences-append_at (suc w) id (ids ∷ out) h =
      omega (arith, all_occurrences-append_at w id out (omega arith))

  length-append_at :
      (w : ℕ) (id : ℤ) (out : List (List ℤ)) → length (append_at w id out) ≡ length out
  unfolding append_at
  length-append_at w id [] = refl
  length-append_at zero id (ids ∷ out) = refl
  length-append_at (suc w) id (ids ∷ out) = ap suc (length-append_at w id out)

  all_occurrences-deal :
      (n i : ℕ) (ids : List ℤ) (out : List (List ℤ))
      → 0 < n
      → length out ≡ n
      → all_occurrences s (deal n i ids out) ≡ occurrences s ids + all_occurrences s out
  unfolding deal
  all_occurrences-deal n i [] out p e = omega arith
  all_occurrences-deal n i (id ∷ ids) out p e =
      let small : i % n < length out = omega arith in
      omega (
        arith,
        all_occurrences-deal n (suc i) ids (append_at (i % n) id out) p
            (length-append_at (i % n) id out ∙ e),
        all_occurrences-append_at (i % n) id out small,
      )

  all_occurrences-replicate : (n : ℕ) → all_occurrences s (replicate n []) ≡ 0
  all_occurrences-replicate zero = refl
  all_occurrences-replicate (suc n) = omega (arith, all_occurrences-replicate n)

  has_stream-occurrences :
      (ids : List ℤ)
      → (has_stream s ids ≡ false) × (occurrences s ids ≡ 0)
        ⊎ (has_stream s ids ≡ true) × (1 ≤ occurrences s ids)
  has_stream-occurrences [] = inl (refl, refl)
  has_stream-occurrences (id ∷ ids) = ground (arith, has_stream-occurrences ids)

  workers_with-occurrences :
      (out : List (List ℤ))
      → (workers_with s out ≤ all_occurrences s out)
        × ((all_occurrences s out ≡ 0) ⊎ (1 ≤ workers_with s out))
  workers_with-occurrences [] = (omega arith, inl refl)
  workers_with-occurrences (ids ∷ out) =
      ground (arith, workers_with-occurrences out, has_stream-occurrences ids)

  occurrences-Permᴰ : {xs ys : List ℤ} → Permᴰ xs ys → occurrences s xs ≡ occurrences s ys
  occurrences-Permᴰ nil = refl
  occurrences-Permᴰ (cons e d) =
      ap₂ (λ (x y : ℕ). x + y) (ap (occurs_here s) e) (occurrences-Permᴰ d)
  occurrences-Permᴰ (swap e f) = omega (arith, ap (occurs_here s) e, ap (occurs_here s) f)
  occurrences-Permᴰ (trans d f) = occurrences-Permᴰ d ∙ occurrences-Permᴰ f

  has_stream-append :
      (xs : List ℤ) (x : ℤ) → has_stream s (xs ++ x ∷ []) ≡ (has_stream s xs || x == s)
  has_stream-append [] x = ground arith
  has_stream-append (y ∷ ys) x = ground (arith, has_stream-append ys x)

  has_stream-same :
      (x : ℤ) (seen : List ℤ) → (x == s) ≡ true → has_stream x seen ≡ has_stream s seen
  has_stream-same x seen e = ap (λ (k : ℤ). has_stream k seen) ((int_beq_iff x s).0 e)

  seen_once :
      (recs : List (ℕ × Op)) (seen : List ℤ)
      → occurrences s seen ≡ (if has_stream s seen then 1 else 0)
      → occurrences s (distinct_streams seen recs)
        ≡ (if in_trace s recs || has_stream s seen then 1 else 0)
  unfolding distinct_streams
  seen_once [] seen e = e
  seen_once ((line, op) ∷ rest) seen e = elim (Bool-cases (has_stream op.s seen)) [
    | inl h ↦ rw h (seen_once rest seen e ∙ ground (arith, has_stream-same op.s seen))
    | inr h ↦
        let seen' = seen ++ op.s ∷ [] in
        let e' : occurrences s seen' ≡ (if has_stream s seen' then 1 else 0) = ground (
          arith,
          occurrences-append seen (op.s ∷ []),
          has_stream-append seen op.s,
          has_stream-same op.s seen,
        ) in
        rw h (seen_once rest seen' e' ∙ ground (arith, has_stream-append seen op.s))
  ]

streams_of :
    (ids out : List ℤ) (end : End) → streams_at_end ids end ≡ some out → out ≡ sort_stable leb_ℤ ids
streams_of ids out eof e = cc
streams_of ids out (scan_error l) e = cc
streams_of ids out (parse_error l) e = cc

-- A trace that is read to its end is dealt out to any positive number of workers, each stream of it to
-- exactly one of them, and no other stream to any.
pub assigned_once :
    (s : ℤ) (stream : Stream) (ids : List ℤ) (n : ℕ)
    → parse_trace_streams stream ≡ some ids
    → 0 < n
    → (out : List (List ℤ)) × (partition_streams ids n ≡ some out)
      × (workers_with s out ≡ (if in_trace s stream.records then 1 else 0))
unfolding parse_trace_streams partition_streams
assigned_once s stream ids n e p =
    let found = distinct_streams [] stream.records in
    let sorted = streams_of found ids stream.finish e in
    let out = deal n 0 ids (replicate n []) in
    let q : (n == 0) ≡ false = ground arith in
    (
      out,
      rw q refl,
      ground (
        arith,
        all_occurrences-deal s n 0 ids (replicate n []) p (length-replicate n []),
        all_occurrences-replicate s n,
        ap (occurrences s) sorted,
        occurrences-Permᴰ s (sort_stable-Permᴰ leb_ℤ found),
        seen_once s stream.records [] refl,
        workers_with-occurrences s out,
      ),
    )
