-- ===== src/Cluster/Partition.antt =====
-- pkg/cluster/coordinator.go: `parseTraceStreams`, `partitionStreams`, `firstRunError` and `skewNS`.
-- The trace is the stream of its decoded ops. A division by a number of workers of zero panics.
use ioflux.Prelude.{
  ℕ, pos, sort_stable, ℤ, String, Option, List, Bool, none, some, if◌then◌else◌, ◌∷◌, ◌==◌, leb_ℤ,
  ltb_ℤ, ◌++◌, false, [], suc, sub64, ◌&&◌, zero, ◌%◌, ◌||◌, not, int_eq, is_nil, replicate, nat_eq,
}
pub mod Once
pub mod Errors
pub mod Skew
use ioflux.Trace.Reader.{eof, End, Stream}
use ioflux.Trace.Types.{Op}

-- seen[op.S]
abbrev pub has_stream : ℤ → List ℤ → Bool
has_stream s [] = false
has_stream s (sid ∷ ids) = sid == s || has_stream s ids

-- The distinct stream IDs, in the order in which they first occur, after those seen before.
unfoldable pub distinct_streams : List ℤ → List (ℕ × Op) → List ℤ
distinct_streams seen [] = seen
distinct_streams seen ((line, op) ∷ rest) =
    distinct_streams (if has_stream op.s seen then seen else seen ++ op.s ∷ []) rest

abbrev pub streams_at_end : List ℤ → End → Option (List ℤ)
streams_at_end ids eof = some (sort_stable leb_ℤ ids)
streams_at_end ids _ = none

-- none where the reader fails.
unfoldable pub parse_trace_streams : Stream → Option (List ℤ)
unfolding distinct_streams sort_stable
parse_trace_streams stream = streams_at_end (distinct_streams [] stream.records) stream.finish

-- out[w] = append(out[w], id)
unfoldable pub append_at : ℕ → ℤ → List (List ℤ) → List (List ℤ)
append_at w id [] = []
append_at zero id (ids ∷ out) = (ids ++ id ∷ []) ∷ out
append_at (suc w) id (ids ∷ out) = ids ∷ append_at w id out

unfoldable pub deal : ℕ → ℕ → List ℤ → List (List ℤ) → List (List ℤ)
unfolding append_at
deal n i [] out = out
deal n i (id ∷ ids) out = deal n (suc i) ids (append_at (i % n) id out)

unfoldable pub partition_streams : List ℤ → ℕ → Option (List (List ℤ))
unfolding deal
partition_streams ids n =
    if n == 0 && not (is_nil ids) then none else some (deal n 0 ids (replicate n []))

-- The error of a worker's run: the cancellation that a bystander sees, or its own.
pub data RunError : Type 0 where
  canceled : RunError
  failed_with : String → RunError

-- The first error of a worker's own with its index, else the first cancellation.
unfoldable pub scan_run_errors : Option ℕ → ℕ → List (Option RunError) → Option (ℕ × RunError)
scan_run_errors none i [] = none
scan_run_errors (some first) i [] = some (first, canceled)
scan_run_errors first i (none ∷ errs) = scan_run_errors first (suc i) errs
scan_run_errors none i (some canceled ∷ errs) = scan_run_errors (some i) (suc i) errs
scan_run_errors (some first) i (some canceled ∷ errs) = scan_run_errors (some first) (suc i) errs
scan_run_errors first i (some (failed_with why) ∷ errs) = some (i, failed_with why)

unfoldable pub first_run_error : List (Option RunError) → Option (ℕ × RunError)
unfolding scan_run_errors
first_run_error errs = scan_run_errors none 0 errs

unfoldable pub spread : ℤ → ℤ → List ℤ → ℤ × ℤ
spread low high [] = (low, high)
spread low high (d ∷ delays) =
    spread (if ltb_ℤ d low then d else low) (if ltb_ℤ high d then d else high) delays

unfoldable pub skew_ns : List ℤ → ℤ
unfolding spread
skew_ns [] = pos 0
skew_ns (d ∷ []) = pos 0
skew_ns (d ∷ e ∷ delays) = let (low, high) = spread d d (e ∷ delays) in sub64 high low
