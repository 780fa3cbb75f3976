-- ===== src/Tests/Payloads.antt =====
-- Payload bytes, and a read split in two.
use ioflux.Prelude.{ℕ, pos, ◌*◌, String, ◌≡◌, ◌/◌, ◌+◌, refl, ◌++◌, List, some, arith}
use ioflux.Payload.Fill.{mode_seeded, fill, fill_words, Config}
use ioflux.Payload.Reference.{IsBlockwise, bytes_from, fill_words-bytes_from, fill_chunks}
use ioflux.Trace.Types.{op_read, Op}
use ioflux.Transform.SplitReads.{pieces_of, split_one}
use ioflux.Tests.Traces.{bare}
use ioflux.Transform.SplitReads.Cover.{Tiles, split_one-Tiles}

abbrev pub some_hash : String → ℕ
some_hash s = 42

abbrev blocks : ℕ → ℕ
blocks a = 1000 * (a / 8)

blocks-IsBlockwise : IsBlockwise blocks
blocks-IsBlockwise a b e = rw e refl

fill_words-bytes_from_example : fill_words blocks 13 5 ≡ bytes_from blocks 13 5
fill_words-bytes_from_example = fill_words-bytes_from blocks 13 5 blocks-IsBlockwise

abbrev pub seeded : Config
seeded = record { mode = mode_seeded; seed = pos 0 }

fill_chunks_example :
    fill some_hash (3 + 9) seeded (pos 1) "a" 6
    ≡ fill some_hash 3 seeded (pos 1) "a" 6 ++ fill some_hash 9 seeded (pos 1) "a" (6 + 3)
fill_chunks_example = fill_chunks some_hash seeded (pos 1) "a" 3 9 6

abbrev sample_read : Op
sample_read = record (bare op_read (pos 20) (pos 1)) {
  h = some (pos 1);
  off = some (pos 4096);
  len = some (pos 100);
}

split_one-Tiles_example :
    (ps : List Op) × (split_one sample_read (pos 30) ≡ pieces_of ps)
    × Tiles sample_read 30 4096 100 ps
split_one-Tiles_example =
    split_one-Tiles sample_read 4096 100 30 refl refl refl (omega arith) (omega arith) (omega arith)
      (omega arith)
