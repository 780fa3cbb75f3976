-- ===== src/Payload/Fill.antt =====
-- pkg/payload/payload.go. A uint64 is a number below 2^64, a byte one below 2^8. The hash of the target's
-- name is a parameter, since it is the standard library's FNV-1a. An offset is a natural
-- number; Prepare/Writer/Source says which one stands for a negative offset.
use ioflux.Prelude.{
  zero, suc, negsuc, pos, ℤ, String, ℕ, if◌then◌else◌, ◌==◌, List, suc, ◌^◌, nat_beq, ◌+◌, ◌*◌, ◌%◌,
  ◌-◌, [], min, ◌/◌, replicate, int_eq, leb, ◌∷◌, ◌++◌,
}

pub data PayloadMode : Type 0 where
  mode_unset mode_seeded mode_zero : PayloadMode
  mode_named : String → PayloadMode

abbrev pub default_seed : ℤ
default_seed = pos 1

pub record Config : Type 0 where
  pub mode : PayloadMode
  pub seed : ℤ

abbrev pub default_mode : PayloadMode → PayloadMode
default_mode mode_unset = mode_seeded
default_mode m = m

unfoldable pub normalize : Config → Config
normalize c = record {
  mode = default_mode c.mode;
  seed = if c.seed == pos 0 then default_seed else c.seed;
}

abbrev pub word_size : ℕ
word_size = 2 ^ 64

-- uint64(x) for an int64 x.
unfoldable pub to_uint64 : ℤ → ℕ
to_uint64 (pos n) = n % word_size
to_uint64 (negsuc n) = word_size - 1 - n % word_size

abbrev xor_bit : ℕ → ℕ → ℕ
xor_bit a b = if nat_beq a b then 0 else 1

-- The exclusive or of the lowest bits, as many as the first argument says.
unfoldable pub xor_bits : ℕ → ℕ → ℕ → ℕ
xor_bits zero a b = 0
xor_bits (suc w) a b = xor_bit (a % 2) (b % 2) + 2 * xor_bits w (a / 2) (b / 2)

unfoldable pub xor64 : ℕ → ℕ → ℕ
unfolding xor_bits
xor64 a b = xor_bits 64 a b

-- The two halves share no bit, so that their sum is their or.
unfoldable pub rotate_left : ℕ → ℕ → ℕ
rotate_left x k = x * 2 ^ k % word_size + x / 2 ^ (64 - k)

unfoldable pub splitmix64 : ℕ → ℕ
unfolding xor64
splitmix64 x =
    let x1 = (x + 11400714819323198485) % word_size in
    let x2 = xor64 x1 (x1 / 2 ^ 30) * 13787848793156543929 % word_size in
    let x3 = xor64 x2 (x2 / 2 ^ 27) * 10723151780598845931 % word_size in xor64 x3 (x3 / 2 ^ 31)

-- The bytes of a word, the lowest first: all of them from index i on, or only the first n of those.
unfoldable pub word_bytes : ℕ → ℕ → ℕ → List ℕ
word_bytes w i zero = []
word_bytes w i (suc n) = w / 2 ^ (8 * i) % 256 ∷ word_bytes w (suc i) n

module _ (word_at : ℕ → ℕ) where
  -- The blocks of eight bytes, then what is left. The fuel is at least the count of bytes.
  unfoldable pub fill_blocks : ℕ → ℕ → ℕ → List ℕ
  unfolding word_bytes
  fill_blocks zero len abs = []
  fill_blocks (suc fuel) len abs =
      let rest = fill_blocks fuel (len - 8) (abs + 8) in
      if leb 8 len then word_bytes (word_at abs) 0 8 ++ rest else word_bytes (word_at abs) 0 len

  unfoldable pub fill_words : ℕ → ℕ → List ℕ
  unfolding fill_blocks
  fill_words len off =
      let rem = off % 8 in
      let n = if nat_beq rem 0 then 0 else min len (8 - rem) in
      word_bytes (word_at off) rem n ++ fill_blocks (len - n) (len - n) (off + n)

module _ (hash_string64 : String → ℕ) where
  unfoldable pub base_of : Config → ℤ → String → ℕ
  unfolding xor64 rotate_left to_uint64
  base_of cfg op_id target =
      xor64
        (xor64 (to_uint64 cfg.seed)
          (rotate_left (to_uint64 op_id * 11400714819323198485 % word_size) 17))
        (rotate_left (hash_string64 target) 31)

  unfoldable pub word_of : ℕ → ℕ → ℕ
  unfolding splitmix64
  word_of base abs = splitmix64 ((base + abs / 8 * 11400714819323198485 % word_size) % word_size)

  unfoldable pub fill_mode : PayloadMode → ℕ → Config → ℤ → String → ℕ → List ℕ
  unfolding fill_words base_of word_of
  fill_mode mode_zero len cfg op_id target off = replicate len 0
  fill_mode _ len cfg op_id target off = fill_words (word_of (base_of cfg op_id target)) len off

  -- The bytes that Fill leaves in a buffer of the given length.
  unfoldable pub fill : ℕ → Config → ℤ → String → ℕ → List ℕ
  unfolding normalize fill_mode
  fill len cfg op_id target off =
      let cfg' = normalize cfg in fill_mode cfg'.mode len cfg' op_id target off
