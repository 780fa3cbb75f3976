-- ===== src/Prepare/Writer/Source.antt =====
-- `fillReadSeeker` of pkg/prepare/prepare.go: the source of a Put. A read into a buffer of `n` bytes
-- gives the bytes, and whether it is at the end of the source.
use ioflux.Prelude.{
  ℕ, pos, String, ℤ, List, Bool, ◌≡◌, ◌∷◌, add64, ◌<◌, [], ◌+◌, if◌then◌else◌, ◌≤◌, min, true, ◌^◌,
  ltb_ℤ, sym, leb_ℤ, false, ◌-◌, sub64, arith, ◌∙◌, sub64-pos, ap, refl, add64-pos, Bool-cases, ltb,
  inl, ◌++◌, inr, negsuc, some, Option, none, ◌>>=◌,
}
use ioflux.Payload.Fill.{fill, Config}
use ioflux.Prepare.Writer.InMemory.{nil_of_length}
use ioflux.Payload.Length.{length-fill}
use ioflux.Payload.Reference.{fill_chunks}

pub record FillSource : Type 0 where
  pub name : String
  pub off : ℤ
  pub size : ℤ
  pub fill_config : Config

pub data Whence : Type 0 where
  seek_start seek_current seek_end other_whence : Whence

abbrev pub seek_to : FillSource → ℤ → Whence → ℤ
seek_to z offset seek_start = offset
seek_to z offset seek_current = add64 z.off offset
seek_to z offset seek_end = add64 z.size offset
seek_to z offset other_whence = z.off

-- The source, the offset, and whether the seek failed.
unfoldable pub seek : ℤ → Whence → FillSource → FillSource × ℤ × Bool
seek offset whence z =
    let z' : FillSource = record z { off = seek_to z offset whence } in
    if ltb_ℤ z'.off (pos 0) then (z', pos 0, true) else (z', z'.off, false)

-- Fill uses an offset by its remainder by 8 and by the number of its block as a uint64, so it makes the
-- same bytes at an offset that is higher by 2^67, which is not negative.
abbrev pub fill_offset : ℤ → ℕ
fill_offset (pos n) = n
fill_offset (negsuc n) = 2 ^ 67 - 1 - n

-- p[:n], which panics where n is negative: the difference of size and offset can wrap.
abbrev pub slice_length : ℤ → Option ℕ
slice_length (pos n) = some n
slice_length (negsuc n) = none

module _ (hash_string64 : String → ℕ) where
  abbrev read_into : FillSource → Option ℕ → Option (FillSource × List ℕ × Bool)
  read_into z none = none
  read_into z (some k) = some (
    record z { off = add64 z.off (pos k) },
    fill hash_string64 k z.fill_config (pos 0) z.name (fill_offset z.off),
    false,
  )

  -- None where Read panics.
  unfoldable pub read : ℕ → FillSource → Option (FillSource × List ℕ × Bool)
  unfolding fill
  read n z =
      let remain = sub64 z.size z.off in
      let k = if ltb_ℤ remain (pos n) then remain else pos n in
      if leb_ℤ z.size z.off then some (z, [], true) else read_into z (slice_length k)

  -- The bytes that reads into buffers of these sizes give, one after another.
  unfoldable pub read_all : List ℕ → FillSource → Option (List ℕ)
  unfolding read
  read_all [] z = some []
  read_all (n ∷ ns) z = read n z >>= λ r. read_all ns r.0 >>= λ rest. some (r.1 ++ rest)

abbrev pub total : List ℕ → ℕ
total [] = 0
total (n ∷ ns) = n + total ns

module _ (hash_string64 : String → ℕ) (name : String) (cfg : Config) where
  abbrev source_at : ℕ → ℕ → FillSource
  source_at size off = record { name = name; off = pos off; size = pos size; fill_config = cfg }

  fill_none : (off : ℕ) → [] ≡ fill hash_string64 0 cfg (pos 0) name off
  fill_none off = sym (
      nil_of_length (fill hash_string64 0 cfg (pos 0) name off)
        (length-fill hash_string64 0 cfg (pos 0) name off))

  read-at :
      (n size off : ℕ)
      → off < size
      → size < 2 ^ 63
      → read hash_string64 n (source_at size off)
        ≡ some (
          source_at size (off + min n (size - off)),
          fill hash_string64 (min n (size - off)) cfg (pos 0) name off,
          false,
        )
  unfolding read
  read-at n size off lt small =
      let q : leb_ℤ (pos size) (pos off) ≡ false = ground arith in
      let diff = sub64-pos size off (omega arith) small in
      let k : (if ltb_ℤ (pos (size - off)) (pos n) then pos (size - off) else pos n)
          ≡ pos (min n (size - off)) =
        ground arith in
      rw (q, diff, k, add64-pos off (min n (size - off)) (omega arith)) refl

  read-past :
      (n size off : ℕ)
      → size ≤ off
      → read hash_string64 n (source_at size off) ≡ some (source_at size off, [], true)
  unfolding read
  read-past n size off le = let q : leb_ℤ (pos size) (pos off) ≡ true = ground arith in rw q refl

  read_all-from :
      (ns : List ℕ) (size off : ℕ)
      → size < 2 ^ 63
      → read_all hash_string64 ns (source_at size off)
        ≡ some (fill hash_string64 (min (total ns) (size - off)) cfg (pos 0) name off)
  unfolding read_all
  read_all-from [] size off small =
      ap some
        (fill_none off ∙ ap (λ (k : ℕ). fill hash_string64 k cfg (pos 0) name off) (omega arith))
  read_all-from (n ∷ ns) size off small = elim (Bool-cases (ltb off size)) [
    | inl q ↦
        let k = min n (size - off) in
        let bytes = fill hash_string64 k cfg (pos 0) name off in
        rw (read-at n size off (ground arith) small, read_all-from ns size (off + k) small)
          (ap some (
            sym
              (fill_chunks hash_string64 cfg (pos 0) name k (min (total ns) (size - (off + k))) off)
            ∙ ap (λ (j : ℕ). fill hash_string64 j cfg (pos 0) name off) (omega arith)))
    | inr q ↦
        let le : size ≤ off = ground arith in
        rw (read-past n size off le, read_all-from ns size off small)
          (ap some (ap (λ (j : ℕ). fill hash_string64 j cfg (pos 0) name off) (omega arith)))
  ]

-- After a seek to an offset that is not negative, wherever the source stood before, reads into buffers of
-- any sizes give the bytes that one call of Fill makes from that offset on, as many as the buffers
-- hold or the source has left, without a panic: what a Put sends does not depend on how it reads, nor on retries.
pub read-seek :
    (hash_string64 : String → ℕ) (ns : List ℕ) (z : FillSource) (size off : ℕ)
    → z.size ≡ pos size
    → size < 2 ^ 63
    → read_all hash_string64 ns (seek (pos off) seek_start z).0
      ≡ some (fill hash_string64 (min (total ns) (size - off)) z.fill_config (pos 0) z.name off)
unfolding seek
read-seek hash_string64 ns z size off e small =
    let q : ltb_ℤ (pos off) (pos 0) ≡ false = ground arith in
    let sought : (seek (pos off) seek_start z).0
        ≡ source_at hash_string64 z.name z.fill_config size off =
      rw q (ap (λ (s : ℤ). record z { off = pos off; size = s }) e) in
    ap (read_all hash_string64 ns) sought
    ∙ read_all-from hash_string64 z.name z.fill_config ns size off small
