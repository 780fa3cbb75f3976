-- ===== src/Payload/Length.antt =====
-- pkg/payload/payload.go: Fill fills the buffer.
use ioflux.Prelude.{ℕ, String, length, ◌≡◌, ℤ, ap, length-replicate, suc, zero, refl, ◌∙◌}
use ioflux.Payload.Fill.{
  mode_named, mode_seeded, mode_unset, mode_zero, fill_mode, fill, PayloadMode, fill_words, Config,
  word_of, normalize,
}
use ioflux.Payload.Reference.{bytes_from, fill_words-bytes_from, word_of-IsBlockwise}

length-bytes_from : (word_at : ℕ → ℕ) (n a : ℕ) → length (bytes_from word_at n a) ≡ n
unfolding bytes_from
length-bytes_from word_at zero a = refl
length-bytes_from word_at (suc n) a = ap suc (length-bytes_from word_at n (suc a))

length-fill_words :
    (h : String → ℕ) (base n off : ℕ) → length (fill_words (word_of h base) n off) ≡ n
length-fill_words h base n off =
    ap length (fill_words-bytes_from (word_of h base) n off (word_of-IsBlockwise h base))
    ∙ length-bytes_from (word_of h base) n off

length-fill_mode :
    (h : String → ℕ) (mode : PayloadMode) (n : ℕ) (cfg : Config) (op_id : ℤ) (target : String)
    (off : ℕ)
    → length (fill_mode h mode n cfg op_id target off) ≡ n
unfolding fill_mode
length-fill_mode h mode_zero n cfg op_id target off = length-replicate n 0
length-fill_mode h mode_unset n cfg op_id target off = length-fill_words h _ n off
length-fill_mode h mode_seeded n cfg op_id target off = length-fill_words h _ n off
length-fill_mode h (mode_named s) n cfg op_id target off = length-fill_words h _ n off

pub length-fill :
    (h : String → ℕ) (n : ℕ) (cfg : Config) (op_id : ℤ) (target : String) (off : ℕ)
    → length (fill h n cfg op_id target off) ≡ n
unfolding fill
length-fill h n cfg op_id target off =
    length-fill_mode h (normalize cfg).mode n (normalize cfg) op_id target off
