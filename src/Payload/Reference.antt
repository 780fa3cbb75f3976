-- ===== src/Payload/Reference.antt =====
-- pkg/payload/payload.go: the words of Fill against one byte at a time.
use ioflux.Prelude.{
  refl, ℕ, ◌/◌, List, ◌+◌, [], ◌≡◌, ◌^◌, ◌%◌, ◌*◌, ◌≤◌, ◌++◌, suc, ◌∷◌, ap, Bool-cases, ap₂, leb,
  arith, inl, ◌∙◌, inr, sym, zero, ◌-◌, ◌⊎◌, String, replicate, append-nil, ℤ,
}
use ioflux.Payload.Fill.{
  word_bytes, fill_words, fill_blocks, mode_named, mode_seeded, mode_unset, mode_zero, fill,
  word_of, Config, fill_mode, PayloadMode, normalize, base_of,
}

-- The words that stand at the same block of eight bytes are the same.
abbrev pub IsBlockwise : (ℕ → ℕ) → Type 0
IsBlockwise word_at = (a b : ℕ) → a / 8 ≡ b / 8 → word_at a ≡ word_at b

-- Byte (a mod 8) of the little-endian encoding of the word at a.
abbrev pub byte_at : (ℕ → ℕ) → ℕ → ℕ
byte_at word_at a = word_at a / 2 ^ (8 * (a % 8)) % 256

unfoldable pub bytes_from : (ℕ → ℕ) → ℕ → ℕ → List ℕ
bytes_from word_at zero a = []
bytes_from word_at (suc n) a = byte_at word_at a ∷ bytes_from word_at n (suc a)

module _ (word_at : ℕ → ℕ) where
  bytes_eq : (n k a b : ℕ) → n ≡ k → a ≡ b → bytes_from word_at n a ≡ bytes_from word_at k b
  bytes_eq n k a b e f = ap₂ (bytes_from word_at) e f

  pub bytes_from-append :
      (n m a : ℕ)
      → bytes_from word_at (n + m) a ≡ bytes_from word_at n a ++ bytes_from word_at m (a + n)
  unfolding bytes_from
  bytes_from-append zero m a = bytes_eq (0 + m) m a (a + 0) (omega arith) (omega arith)
  bytes_from-append (suc n) m a =
      bytes_eq (suc n + m) (suc (n + m)) a a (omega arith) refl
      ∙ ap (λ xs. byte_at word_at a ∷ xs)
          (bytes_from-append n m (suc a)
            ∙ ap (λ xs. bytes_from word_at n (suc a) ++ xs)
                (bytes_eq m m (suc a + n) (a + suc n) refl (omega arith)))

  -- Inside a block, the bytes of its word are the bytes one at a time.
  word_bytes-bytes_from :
      (n a i : ℕ)
      → IsBlockwise word_at
      → i ≡ a % 8
      → i + n ≤ 8
      → word_bytes (word_at a) i n ≡ bytes_from word_at n a
  unfolding word_bytes bytes_from
  word_bytes-bytes_from zero a i same e le = refl
  word_bytes-bytes_from (suc zero) a i same e le = rw e refl
  word_bytes-bytes_from (suc (suc n)) a i same e le =
      ap₂ (λ j xs. word_at a / 2 ^ (8 * j) % 256 ∷ xs) e
        (ap (λ w. word_bytes w (suc i) (suc n)) (same a (suc a) (omega arith))
          ∙ word_bytes-bytes_from (suc n) (suc a) (suc i) same (omega arith) (omega arith))

  no_bytes : (n a : ℕ) → n ≡ 0 → bytes_from word_at n a ≡ []
  unfolding bytes_from
  no_bytes zero a e = refl
  no_bytes (suc n) a e = absurd (omega arith)

  fill_blocks-bytes_from :
      (fuel len a : ℕ)
      → IsBlockwise word_at
      → a % 8 ≡ 0
      → len ≤ fuel
      → fill_blocks word_at fuel len a ≡ bytes_from word_at len a
  unfolding fill_blocks
  fill_blocks-bytes_from zero len a same e le = sym (no_bytes len a (omega arith))
  fill_blocks-bytes_from (suc fuel) len a same e le = elim (Bool-cases (leb 8 len)) [
    | inl p ↦
        let large : 8 ≤ len = ground arith in
        rw p (
          ap₂ (λ xs ys. xs ++ ys) (word_bytes-bytes_from 8 a 0 same (sym e) (omega arith))
            (fill_blocks-bytes_from fuel (len - 8) (a + 8) same (omega arith) (omega arith))
          ∙ sym (bytes_from-append 8 (len - 8) a)
          ∙ ap (λ n. bytes_from word_at n a) (omega arith))
    | inr p ↦ rw p (word_bytes-bytes_from len a 0 same (sym e) (ground arith))
  ]

  nothing_left : (n a : ℕ) → n ≡ 0 → fill_blocks word_at n n a ≡ []
  unfolding fill_blocks
  nothing_left zero a e = refl
  nothing_left (suc n) a e = absurd (omega arith)

  -- The first bytes, as many as reach the next block, and the rest.
  fill_from :
      (len off n : ℕ)
      → IsBlockwise word_at
      → n ≤ len
      → off % 8 + n ≤ 8
      → ((off + n) % 8 ≡ 0) ⊎ (len ≡ n)
      → word_bytes (word_at off) (off % 8) n ++ fill_blocks word_at (len - n) (len - n) (off + n)
        ≡ bytes_from word_at len off
  fill_from len off n same le fits (inl e) =
      ap₂ (λ xs ys. xs ++ ys) (word_bytes-bytes_from n off (off % 8) same refl fits)
        (fill_blocks-bytes_from (len - n) (len - n) (off + n) same e (omega arith))
      ∙ sym (bytes_from-append n (len - n) off)
      ∙ ap (λ k. bytes_from word_at k off) (omega arith)
  fill_from len off n same le fits (inr e) =
      ap₂ (λ xs ys. xs ++ ys) (word_bytes-bytes_from n off (off % 8) same refl fits)
        (nothing_left (len - n) (off + n) (omega arith))
      ∙ append-nil _
      ∙ ap (λ k. bytes_from word_at k off) (omega arith)

  -- The words that Fill writes are the bytes that stand at the same places one at a time, at any
  -- offset and of any length, where the words of one block are the same.
  pub fill_words-bytes_from :
      (len off : ℕ) → IsBlockwise word_at → fill_words word_at len off ≡ bytes_from word_at len off
  unfolding fill_words
  fill_words-bytes_from len off same =
      fill_from len off _ same (ground arith) (ground arith) (ground arith)

pub word_of-IsBlockwise : (h : String → ℕ) (base : ℕ) → IsBlockwise (word_of h base)
unfolding word_of
word_of-IsBlockwise h base a b e = rw e refl

module _ (h : String → ℕ) where
  words_chunks :
      (base n m off : ℕ)
      → fill_words (word_of h base) (n + m) off
        ≡ fill_words (word_of h base) n off ++ fill_words (word_of h base) m (off + n)
  words_chunks base n m off =
      let same = word_of-IsBlockwise h base in
      fill_words-bytes_from (word_of h base) (n + m) off same
      ∙ bytes_from-append (word_of h base) n m off
      ∙ ap₂ (λ xs ys. xs ++ ys) (sym (fill_words-bytes_from (word_of h base) n off same))
          (sym (fill_words-bytes_from (word_of h base) m (off + n) same))

  replicate-add : (n m : ℕ) → replicate (n + m) zero ≡ replicate n zero ++ replicate m zero
  replicate-add zero m = let e : 0 + m ≡ m = omega arith in ap (λ k. replicate k zero) e
  replicate-add (suc n) m =
      let e : suc n + m ≡ suc (n + m) = omega arith in
      ap (λ k. replicate k zero) e ∙ ap (λ xs. zero ∷ xs) (replicate-add n m)

  mode_chunks :
      (mode : PayloadMode) (cfg : Config) (op_id : ℤ) (target : String) (n m off : ℕ)
      → fill_mode h mode (n + m) cfg op_id target off
        ≡ fill_mode h mode n cfg op_id target off ++ fill_mode h mode m cfg op_id target (off + n)
  unfolding fill_mode
  mode_chunks mode_zero cfg op_id target n m off = replicate-add n m
  mode_chunks mode_unset cfg op_id target n m off =
      words_chunks (base_of h cfg op_id target) n m off
  mode_chunks mode_seeded cfg op_id target n m off =
      words_chunks (base_of h cfg op_id target) n m off
  mode_chunks (mode_named s) cfg op_id target n m off =
      words_chunks (base_of h cfg op_id target) n m off

-- Filling a buffer whole is filling its two parts, one after the other, at their own offsets: the
-- bytes do not depend on how a caller cuts the buffer.
pub fill_chunks :
    (hash_string64 : String → ℕ) (cfg : Config) (op_id : ℤ) (target : String) (n m off : ℕ)
    → fill hash_string64 (n + m) cfg op_id target off
      ≡ fill hash_string64 n cfg op_id target off ++ fill hash_string64 m cfg op_id target (off + n)
unfolding fill
fill_chunks hash_string64 cfg op_id target n m off =
    mode_chunks hash_string64 (normalize cfg).mode (normalize cfg) op_id target n m off
