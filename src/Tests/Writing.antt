-- ===== src/Tests/Writing.antt =====
-- A target of five bytes, written through a buffer of two.
use ioflux.Prelude.{
  ℕ, pos, lookup, String, [], List, ◌∷◌, ℤ, ◌≡◌, some, arith, none, min, get_elem?, take, ◌-◌, refl,
}
use ioflux.Engine.Types.{no_error, EngineError}
use ioflux.Prepare.Writer.Source.{seek_start, FillSource, read_all, seek, total, read-seek}
use ioflux.Trace.Types.{target_file, TargetInfo}
use ioflux.Engine.Mem.{MemEngine, mem_engine}
use ioflux.Prepare.Writer.Ends.{AllEnds, materialize_synthetic-AllEnds}
use ioflux.Prepare.{Metadata}
use ioflux.Tests.Payloads.{some_hash, seeded}
use ioflux.Prepare.Writer.{write_posix, materialize_synthetic}
use ioflux.Payload.Fill.{fill}
use ioflux.Prepare.Writer.InMemory.{write_posix-fills}

abbrev going : MemEngine → EngineError
going e = no_error

abbrev with_target : MemEngine
with_target = record {
  objects = ("shard", 0) ∷ [];
  heap = (9 ∷ 9 ∷ []) ∷ [];
  handles = [];
  next_h = 0;
}

abbrev no_size : String → ℤ
no_size name = pos 0

write_posix-fills_example :
    (e' : MemEngine) × (object : List ℕ) × (write_posix
        (mem_engine no_size)
        going
        some_hash
        2
        "shard"
        (pos 5)
        seeded
        with_target
      ≡ some (e', none))
    × (get_elem? e'.heap 0 ≡ some object)
    × (take 5 object ≡ fill some_hash 5 seeded (pos 0) "shard" 0)
unfolding lookup
write_posix-fills_example =
    write_posix-fills no_size going some_hash 2 (λ e. refl) "shard" 5 seeded 0 (9 ∷ 9 ∷ [])
      with_target refl refl (omega arith) (omega arith)

abbrev sized : TargetInfo
sized = record { id = pos 0; name = "shard"; kind = target_file; size = pos 5 }

abbrev five_bytes : Metadata
five_bytes = record { extents = []; fill_config = seeded }

materialize_synthetic-AllEnds_example : AllEnds (mem_engine no_size) going some_hash 2 (
    materialize_synthetic
      (mem_engine no_size)
      going
      some_hash
      2
      (sized ∷ [])
      five_bytes
      with_target)
materialize_synthetic-AllEnds_example =
    materialize_synthetic-AllEnds (mem_engine no_size) going some_hash 2 (sized ∷ []) five_bytes
      with_target (omega arith)

abbrev source : FillSource
source = record { name = "shard"; off = pos 4; size = pos 5; fill_config = seeded }

read-seek_example :
    read_all some_hash (2 ∷ 2 ∷ 2 ∷ []) (seek (pos 0) seek_start source).0
    ≡ some (fill some_hash (min (total (2 ∷ 2 ∷ 2 ∷ [])) (5 - 0)) seeded (pos 0) "shard" 0)
read-seek_example = read-seek some_hash (2 ∷ 2 ∷ 2 ∷ []) source 5 0 refl (omega arith)
