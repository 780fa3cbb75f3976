-- ===== src/Prepare/Writer/Written.antt =====
-- pkg/prepare/prepare.go: what the writer leaves on an engine that keeps what is written.
use ioflux.Prelude.{
  ℕ, pos, ℤ, List, String, ◌≡◌, false, ◌≤◌, Option, none, ◌<◌, length, some, arith, take, ◌+◌, ◌^◌,
  ◌++◌, suc, Bool-cases, refl, ltb_ℤ, inl, inr, zero, subst, ◌∙◌, ap, sym, true,
}
use ioflux.Engine.Types.{no_error, Engine, EngineError}
use ioflux.Payload.Fill.{Config, fill}
use ioflux.Prepare.Writer.{sync_and_close, write_chunks, close_target, chunk_size}
use ioflux.Prepare.{validate_write_count, PrepareError}
use ioflux.Payload.Length.{length-fill}
use ioflux.Payload.Reference.{fill_chunks}

-- An engine that is not durable, with a handle `h` on an object: a write at an offset inside the object
-- or at its end succeeds and extends what stands before it, and a close leaves the object.
pub record Stores {S : Type 0} (engine : Engine S) (h : ℤ) (Open Left : List ℕ → S → Type 0)
    : Type 0 where
  pub not_synced : engine.caps.durable ≡ false
  pub write_stores :
      (off : ℕ) (bytes old : List ℕ) (e : S)
      → Open old e
      → off ≤ length old
      → off + length bytes < 2 ^ 63
      → (e' : S) × (new : List ℕ) × (engine.write h (pos off) bytes e
          ≡ some (e', pos (length bytes), no_error))
        × Open new e'
        × (off + length bytes ≤ length new)
        × (take (off + length bytes) new ≡ take off old ++ bytes)
  pub close_leaves :
      (old : List ℕ) (e : S)
      → Open old e
      → (e' : S) × (engine.close h e ≡ some (e', no_error)) × Left old e'

module _ {S : Type 0} (engine : Engine S) (ctx_err : S → EngineError) (hash_string64 : String → ℕ)
    (chunk : ℕ) (h : ℤ) (Open Left : List ℕ → S → Type 0) (stores : Stores engine h Open Left)
    (going : (e : S) → ctx_err e ≡ no_error) (name : String) (cfg : Config) where
  abbrev content : ℕ → List ℕ
  content n = fill hash_string64 n cfg (pos 0) name 0

  -- The target is there with the bytes that one call of Fill makes.
  abbrev pub LeftFilled : ℕ → Option (S × Option PrepareError) → Type 0
  LeftFilled size r =
      (e : S) × (object : List ℕ) × (r ≡ some (e, none))
      × Left object e
      × (take size object ≡ fill hash_string64 size cfg (pos 0) name 0)

  accept_all : (n : ℕ) → validate_write_count (pos n) (pos n) no_error ≡ none
  unfolding validate_write_count
  accept_all n = ground arith

  close-LeftFilled :
      (size : ℕ) (old : List ℕ) (e : S)
      → Open old e
      → take size old ≡ content size
      → LeftFilled size (sync_and_close engine ctx_err hash_string64 chunk h e)
  unfolding sync_and_close close_target
  close-LeftFilled size old e o t =
      let (e', p, l) = stores.close_leaves old e o in
      (e', old, rw (stores.not_synced, p) refl, l, t)

  chunk_bounds :
      (size off : ℕ)
      → 0 < chunk
      → ltb_ℤ (pos off) (pos size) ≡ true
      → (0 < chunk_size chunk (pos size) off) × (off + chunk_size chunk (pos size) off ≤ size)
  chunk_bounds size off p q = ground arith

  at_end : (size off : ℕ) → off ≤ size → ltb_ℤ (pos off) (pos size) ≡ false → off ≡ size
  at_end size off le q = ground arith

  past_end : (size off : ℕ) → size ≤ off → ltb_ℤ (pos off) (pos size) ≡ false
  past_end size off le = ground arith

  -- A turn that writes `n` bytes, and the turns after it.
  write_turn :
      (fuel size off : ℕ) (old : List ℕ) (e : S)
      → ltb_ℤ (pos off) (pos size) ≡ true
      → off + chunk_size chunk (pos size) off ≤ size
      → size < 2 ^ 63
      → Open old e
      → off ≤ length old
      → take off old ≡ content off
      → ((e' : S) (new : List ℕ)
          → Open new e'
          → off + chunk_size chunk (pos size) off ≤ length new
          → take (off + chunk_size chunk (pos size) off) new
            ≡ content (off + chunk_size chunk (pos size) off)
          → LeftFilled size (
              write_chunks engine ctx_err hash_string64 chunk fuel h name
                (pos size)
                cfg
                (off + chunk_size chunk (pos size) off)
                e'))
      → LeftFilled size
          (write_chunks engine ctx_err hash_string64 chunk (suc fuel) h name (pos size) cfg off e)
  unfolding write_chunks
  write_turn fuel size off old e q inside small o fits t next =
      let n = chunk_size chunk (pos size) off in
      let bytes = fill hash_string64 n cfg (pos 0) name off in
      let full = length-fill hash_string64 n cfg (pos 0) name off in
      let (e', new, w, o', fits', t') =
        stores.write_stores off bytes old e o fits (omega (arith, full)) in
      let w' : engine.write h (pos off) bytes e ≡ some (e', pos n, no_error) =
        w ∙ ap (λ (k : ℕ). some (e', pos k, no_error)) full in
      let start : 0 + off ≡ off = omega arith in
      let next_bytes =
        ap (λ (k : ℕ). content off ++ fill hash_string64 n cfg (pos 0) name k) (sym start) in
      let t'' : take (off + n) new ≡ content (off + n) =
        ap (λ (k : ℕ). take (off + k) new) (sym full)
        ∙ t'
        ∙ ap (λ (xs : List ℕ). xs ++ bytes) t
        ∙ next_bytes
        ∙ sym (fill_chunks hash_string64 cfg (pos 0) name off n 0) in
      rw (q, going e, w', accept_all n) (next e' new o' (omega (arith, full)) t'')

  pub write_chunks-LeftFilled :
      (fuel size off : ℕ) (old : List ℕ) (e : S)
      → 0 < chunk
      → size < 2 ^ 63
      → off ≤ size
      → size ≤ off + fuel
      → Open old e
      → off ≤ length old
      → take off old ≡ content off
      → LeftFilled size
          (write_chunks engine ctx_err hash_string64 chunk fuel h name (pos size) cfg off e)
  unfolding write_chunks
  write_chunks-LeftFilled zero size off old e p small le enough o fits t =
      let q = past_end size off (omega arith) in
      let same : off ≡ size = omega arith in
      rw q (close-LeftFilled size old e o (subst (λ (n : ℕ). take n old ≡ content n) same t))
  write_chunks-LeftFilled (suc fuel) size off old e p small le enough o fits t =
      elim (Bool-cases (ltb_ℤ (pos off) (pos size))) [
        | inl q ↦
            let n = chunk_size chunk (pos size) off in
            let (some_byte, inside) = chunk_bounds size off p q in
            write_turn fuel size off old e q inside small o fits t λ e' new o' fits' t'.
              write_chunks-LeftFilled fuel size (off + n) new e' p small inside (omega arith) o'
                fits' t'
        | inr q ↦
            let same = at_end size off le q in
            rw q (close-LeftFilled size old e o (subst (λ (k : ℕ). take k old ≡ content k) same t))
      ]
