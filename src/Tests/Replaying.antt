-- ===== src/Tests/Replaying.antt =====
-- Transfers, a coalesced write and an object in memory.
use ioflux.Prelude.{
  pos, ℤ, ◌≤ℤ◌, lookup, List, ◌∷◌, [], ℕ, ◌≡◌, ◌++◌, some, true, refl, ◌↔◌, arith, ◌⊎◌, ◌||◌,
  int_eq, insert, add64, wrap64, ◌+ℤ◌, erase, none,
}
use ioflux.Replay.ObjectWrite.{
  extend, continues, ObjectWriteEligibility, observe_after, new_object_write_eligibility,
}
use ioflux.Trace.Types.{
  mode_read, mode_write, op_close, op_open, op_write, target_object, TargetInfo, Op, op_read,
}
use ioflux.Engine.Types.{no_error, short_read, is_nil_error, is_short_read}
use ioflux.Replay.Transfer.{
  op_succeeded, checked_write_transfer, checked_read_transfer, write_succeeds_iff,
  read_succeeds_iff,
}
use ioflux.Engine.Mem.{MemEngine, mem_write, mem_read, transfer, mem_engine}
use ioflux.Replay.ObjectWrite.Coverage.{Sequential, covered, lifecycle_coverage}
use ioflux.Tests.Traces.{bare}
use ioflux.Engine.Mem.Reads.{read-write}
use ioflux.Replay.Dispatch.{dispatch_op}
use ioflux.Replay.Dispatch.Bytes.{IsWithin, dispatch_op-IsWithin}
use ioflux.Tests.Payloads.{some_hash, seeded}
use ioflux.Replay.Stream.{ObjectPipes, ReplayStream}

read_succeeds_iff_example :
    (op_succeeded (checked_read_transfer (pos 60) (pos 100) (pos 60) short_read).error ≡ true) ↔ (
      (pos 0 ≤ℤ pos 60)
      × (pos 60 ≤ℤ pos 100)
      × (pos 60 ≡ pos 60)
      × ((is_nil_error short_read || is_short_read short_read) ≡ true))
read_succeeds_iff_example = read_succeeds_iff (pos 60) (pos 100) (pos 60) short_read

write_succeeds_iff_example :
    (op_succeeded (checked_write_transfer (pos 8) (pos 8) no_error).error ≡ true)
    ↔ ((pos 0 ≤ℤ pos 8) × (pos 8 ≡ pos 8) × (is_nil_error no_error ≡ true))
write_succeeds_iff_example = write_succeeds_iff (pos 8) (pos 8) no_error

abbrev open_out : Op
open_out = record (bare op_open (pos 0) (pos 0)) {
  tgt = some (pos 0);
  h = some (pos 1);
  mode = mode_write;
}

abbrev write_out : ℤ → Op
write_out off = record (bare op_write (pos 0) (pos 1)) {
  h = some (pos 1);
  off = some off;
  len = some (pos 8);
}

abbrev close_out : Op
close_out = record (bare op_close (pos 0) (pos 2)) { h = some (pos 1) }

abbrev out : TargetInfo
out = record { id = pos 0; name = "out"; kind = target_object; size = pos 16 }

abbrev writes : List Op
writes = write_out (pos 0) ∷ write_out (pos 8) ∷ []

abbrev coalesced : ObjectWriteEligibility
coalesced = record { handles = []; sizes = (pos 0, pos 16) ∷ [] }

eligible :
    observe_after
      (continues new_object_write_eligibility)
      (out ∷ [])
      (open_out ∷ writes ++ close_out ∷ [])
    ≡ continues coalesced
unfolding observe_after lookup insert extend add64 wrap64 ◌+ℤ◌ erase
eligible = refl

lifecycle_coverage_example :
    Sequential (pos 1) (pos 0) writes
    × (lookup (pos 0) coalesced.sizes ≡ some (covered (pos 1) (pos 0) writes))
    × ((out.size ≤ℤ pos 0) ⊎ (covered (pos 1) (pos 0) writes ≡ out.size))
lifecycle_coverage_example =
    lifecycle_coverage (out ∷ []) (pos 1) open_out close_out new_object_write_eligibility coalesced
      (pos 0) out writes (refl, refl, refl, refl, refl, refl) (refl, (refl, tt)) refl eligible

abbrev in_memory : MemEngine
in_memory = record {
  objects = ("a", 0) ∷ [];
  heap = (1 ∷ 2 ∷ 3 ∷ []) ∷ [];
  handles =
      (pos 1, record { target = "a"; mode = mode_write; obj = 0 })
      ∷ (pos 2, record { target = "a"; mode = mode_read; obj = 0 })
      ∷ [];
  next_h = 2;
}

abbrev payload_bytes : List ℕ
payload_bytes = 7 ∷ 8 ∷ []

read-write_example :
    (e' : MemEngine) × (mem_write (pos 1) (pos 2) payload_bytes in_memory
      ≡ some (e', pos 2, no_error))
    × (mem_read (pos 2) (pos 2) (pos 2) (0 ∷ 0 ∷ []) e'
        ≡ some (e', transfer (pos 2) no_error payload_bytes))
unfolding lookup
read-write_example =
    read-write in_memory (pos 1) (pos 2) (record { target = "a"; mode = mode_write; obj = 0 })
      (record { target = "a"; mode = mode_read; obj = 0 }) (1 ∷ 2 ∷ 3 ∷ []) 2 payload_bytes
      (0 ∷ 0 ∷ []) refl refl refl refl (omega arith) (omega arith) refl

-- An engine that offers no objects to put.
abbrev no_pipes : ObjectPipes MemEngine
no_pipes = record {
  start_object_put = λ name size e. none;
  write_pipe = λ pipe bytes e. none;
  finish = λ pipe e. none;
}

abbrev read_two : Op
read_two = record (bare op_read (pos 0) (pos 3)) {
  h = some (pos 9);
  off = some (pos 1);
  len = some (pos 2);
}

abbrev replaying : ReplayStream MemEngine
replaying = record {
  eng = in_memory;
  handle_map = (pos 9, record { handle = pos 2; target = "a"; obj_write = none }) ∷ [];
  buf = [];
}

dispatch_op-IsWithin_example :
    IsWithin
      (pos 2)
      (dispatch_op (mem_engine (λ name. pos 3)) no_pipes some_hash [] seeded [] read_two replaying)
dispatch_op-IsWithin_example =
    dispatch_op-IsWithin (mem_engine (λ name. pos 3)) no_pipes some_hash [] seeded [] (pos 2)
      (omega arith) read_two replaying refl
