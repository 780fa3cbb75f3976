-- ===== src/Gen/Checkpoint/Shards.antt =====
-- pkg/gen/checkpoint/generate.go: the shards of a checkpoint hold the model, and their writes cover them.
use ioflux.Prelude.{
  ◌*◌, ℕ, pos, List, suc, ◌+◌, ℤ, ◌≡◌, ◌∷◌, zero, ◌<◌, ◌≤◌, ◌*◌, some, pos_part, arith, [],
  Bool-cases, ltb, inl, min, ◌-◌, inr, refl, nat_eq,
}
use ioflux.Gen.Checkpoint.{shard_size, shard_writes}
use ioflux.Trace.Types.{op_write, Op, TargetInfo}

abbrev sum_shards : ℕ → ℕ → ℕ → ℕ → ℕ
sum_shards model ranks r zero = 0
sum_shards model ranks r (suc n) = shard_size model ranks r + sum_shards model ranks (suc r) n

abbrev pub target_bytes : List TargetInfo → ℕ
target_bytes [] = 0
target_bytes (tgt ∷ targets) = pos_part tgt.size + target_bytes targets

-- WRITEs of stream r through the handle h at the time t, one after another from `off`, each of at least
-- one byte and at most a block, that end at `size`.
abbrev pub Covers : ℤ → ℕ → ℕ → ℕ → ℕ → ℕ → List Op → Type 0
Covers t r h block off size [] = off ≡ size
Covers t r h block off size (op ∷ ops) =
    (n : ℕ) × (op.op ≡ op_write)
    × (op.t ≡ t)
    × (op.s ≡ pos r)
    × (op.h ≡ some (pos h))
    × (op.off ≡ some (pos off))
    × (op.len ≡ some (pos n))
    × (0 < n)
    × (n ≤ block)
    × Covers t r h block (off + n) size ops

-- With blocks of at least one byte and fuel for the bytes that are left, a shard's writes are WRITEs of its
-- stream through its handle at its time, each at most a block, that follow each other from the given
-- offset to the end of the shard.
pub shard_writes-Covers :
    (fuel : ℕ) (t : ℤ) (r h block size off : ℕ)
    → 0 < block
    → off ≤ size
    → size ≤ off + fuel
    → Covers t r h block off size (shard_writes fuel t r h block size off)
unfolding shard_writes
shard_writes-Covers zero t r h block size off p le enough = omega arith
shard_writes-Covers (suc fuel) t r h block size off p le enough = elim (Bool-cases (ltb off size)) [
  | inl q ↦
      let lt : off < size = ground arith in
      rw q (
        min block (size - off),
        refl,
        refl,
        refl,
        refl,
        refl,
        refl,
        omega arith,
        omega arith,
        shard_writes-Covers fuel t r h block size (off + min block (size - off)) p (omega arith)
            (omega arith),
      )
  | inr q ↦ rw q (ground arith)
]
