-- ===== src/Tests/Generating.antt =====
-- One checkpoint of seven bytes, written by two ranks in blocks of two.
use ioflux.Prelude.{ℕ, pos, String, ◌≡◌, true, false, ◌∷◌, refl, arith, [], lookup, some, int_eq}
use ioflux.Replay.ObjectWrite.{
  continues, ObjectWriteEligibility, observe_after, new_object_write_eligibility,
}
use ioflux.Trace.Types.{target_file, TargetInfo}
use ioflux.Gen.Checkpoint.Shards.{Covers, shard_writes-Covers}
use ioflux.Gen.Checkpoint.{Params, shard_writes, shard_ops}
use ioflux.Gen.Checkpoint.Eligible.{shard_ops-eligible}

abbrev shard_names : ℕ → ℕ → String
shard_names c r = "shard"

abbrev small_model : Params
small_model = record {
  model_size = pos 7;
  writer_ranks = pos 2;
  write_block = pos 2;
  num_checkpoints = pos 1;
  interval_finite = true;
  interval_negative = false;
  interval_ns = pos 0;
  fsync = "none";
  created_utc = "";
}

shard_writes-Covers_example : Covers (pos 0) 0 1 2 0 5 (shard_writes 5 (pos 0) 0 1 2 5 0)
shard_writes-Covers_example =
    shard_writes-Covers 5 (pos 0) 0 1 2 5 0 (omega arith) (omega arith) (omega arith)

abbrev shard_info : TargetInfo
shard_info = record { id = pos 0; name = "shard"; kind = target_file; size = pos 5 }

shard_ops-eligible_example :
    (e' : ObjectWriteEligibility) × (observe_after
        (continues new_object_write_eligibility)
        (shard_info ∷ [])
        (shard_ops (pos 0) 0 1 0 2 5 true)
      ≡ continues e')
    × (lookup (pos 0) e'.sizes ≡ some (pos 5))
shard_ops-eligible_example =
    shard_ops-eligible (shard_info ∷ []) (pos 0) 0 1 0 2 5 (omega arith) (omega arith) shard_info
      refl refl true new_object_write_eligibility
