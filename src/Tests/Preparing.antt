-- ===== src/Tests/Preparing.antt =====
-- A scan of a short read, and the size that it asks for.
use ioflux.Prelude.{
  pos, lookup, insert, add64, Ordered, [], ◌∷◌, ◌≡◌, some, string_eq, refl, List, wrap64, int_eq,
  ◌+ℤ◌,
}
use ioflux.Trace.Types.{target_file, TargetInfo, Op}
use ioflux.Prepare.{Metadata, compute_required_sizes, or_zero_size, metadata_from_ops}
use ioflux.Prepare.Extents.{farthest, ends, extents-farthest}
use ioflux.Replay.Merge.{
  Differ, union_engine_limitations, has_seen, concat, union_engine_limitations-Ordered,
}
use ioflux.Tests.Traces.{read_shard, close_shard, open_shard}
use ioflux.Tests.Payloads.{seeded}

-- Two reads, the shorter extent last.
abbrev scanned : List Op
scanned = open_shard ∷ read_shard ∷ record read_shard { off = some (pos 0) } ∷ close_shard ∷ []

scanned_extent : lookup (pos 0) (metadata_from_ops scanned seeded).extents ≡ some (pos 4156)
unfolding metadata_from_ops lookup insert add64 wrap64 ◌+ℤ◌
scanned_extent = refl

extents-farthest_example :
    or_zero_size (lookup (pos 0) (metadata_from_ops scanned seeded).extents)
    ≡ farthest (pos 0) (ends (pos 0) [] scanned)
extents-farthest_example = extents-farthest scanned seeded (pos 0)

abbrev read_extents : Metadata
read_extents = record { extents = (pos 0, pos 4156) ∷ []; fill_config = seeded }

abbrev unsized : TargetInfo
unsized = record { id = pos 0; name = "shard"; kind = target_file; size = pos 0 }

sized_from_extent :
    lookup "shard" (compute_required_sizes (unsized ∷ []) read_extents) ≡ some (pos 4156)
unfolding compute_required_sizes lookup insert
sized_from_extent = refl

union_engine_limitations-Ordered_example :
    Ordered Differ (union_engine_limitations (("a" ∷ []) ∷ ("b" ∷ "a" ∷ []) ∷ []))
    × (has_seen "b" (union_engine_limitations (("a" ∷ []) ∷ ("b" ∷ "a" ∷ []) ∷ []))
        ≡ has_seen "b" (concat (("a" ∷ []) ∷ ("b" ∷ "a" ∷ []) ∷ [])))
union_engine_limitations-Ordered_example =
    union_engine_limitations-Ordered (("a" ∷ []) ∷ ("b" ∷ "a" ∷ []) ∷ []) "b"
