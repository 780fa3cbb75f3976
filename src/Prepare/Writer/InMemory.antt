-- ===== src/Prepare/Writer/InMemory.antt =====
-- pkg/prepare/prepare.go over pkg/engine/mem/mem.go: the writer on the engine in memory.
use ioflux.Prelude.{
  ℕ, pos, String, List, ℤ, ◌≤◌, ◌+◌, length, get_elem?, lookup, ◌≡◌, take, ◌<◌, Bool-cases, ◌++◌,
  refl, some, drop, suc, erase, ltb_ℤ, ◌^◌, int_eq, length-append, inl, arith, ◌∷◌, ◌∙◌, replicate,
  length-take, length-replicate, ap, take-all, zero, [], inr, insert, sym, append_assoc,
  take-append, none, lookup-insert, string_eq, beq_refl,
}
use ioflux.Engine.Types.{no_error, EngineError}
use ioflux.Engine.Mem.{
  overlay, grow, MemEngine, OpenHandle, mem_engine, mem_close, mem_write, close_handle,
  write_handle, set_at, mem_open, object_of, add_handle,
}
use ioflux.Prepare.Writer.Written.{Stores, write_chunks-LeftFilled}
use ioflux.Trace.Types.{mode_write}
use ioflux.Engine.Mem.Reads.{copy-fits, length-grow, write_data_lem, get-set_at, length-overlay}
use ioflux.Prepare.Writer.{write_posix, create_trunc}
use ioflux.Payload.Fill.{Config, fill}
use ioflux.Payload.Length.{length-fill}

abbrev IsOpen : ℤ → OpenHandle → List ℕ → MemEngine → Type 0
IsOpen h oh object e = (lookup h e.handles ≡ some oh) × (get_elem? e.heap oh.obj ≡ some object)

abbrev IsLeft : ℕ → List ℕ → MemEngine → Type 0
IsLeft a object e = get_elem? e.heap a ≡ some object

take-append_le : (n : ℕ) (xs ys : List ℕ) → n ≤ length xs → take n (xs ++ ys) ≡ take n xs
take-append_le zero xs ys h = refl
take-append_le (suc n) [] ys h = absurd (omega arith)
take-append_le (suc n) (x ∷ xs) ys h =
    ap (λ (zs : List ℕ). x ∷ zs) (take-append_le n xs ys (omega arith))

take-grow :
    (off n : ℕ) (old : List ℕ) → off ≤ length old → take off (grow old (pos n)) ≡ take off old
unfolding grow
take-grow off n old h = elim (Bool-cases (ltb_ℤ (pos (length old)) (pos n))) [
  | inl p ↦
      let zeros : List ℕ = replicate n 0 in
      let fits : length old ≤ length zeros = ground (arith, length-replicate n zero) in
      rw (p, take-all (length zeros) old fits) (take-append_le off old (drop (length old) zeros) h)
  | inr p ↦ rw p refl
]

-- What stands before the offset stays, and the bytes follow it.
take-overlay :
    (off : ℕ) (bytes grown : List ℕ)
    → off + length bytes ≤ length grown
    → take (off + length bytes) (overlay off bytes grown) ≡ take off grown ++ bytes
unfolding overlay
take-overlay off bytes grown fits =
    let rest = drop (length bytes) (drop off grown) in
    let size : length (take off grown ++ bytes) ≡ off + length bytes =
      length-append (take off grown) bytes ∙ omega (arith, length-take off grown) in
    ap (λ (xs : List ℕ). take (off + length bytes) (take off grown ++ xs))
      (copy-fits off bytes grown fits)
    ∙ ap (take (off + length bytes)) (sym (append_assoc (take off grown) bytes rest))
    ∙ take-append (off + length bytes) (take off grown ++ bytes) rest size

module _ (size_of : String → ℤ) (h : ℤ) (oh : OpenHandle) where
  mem_write-stores :
      (off : ℕ) (bytes old : List ℕ) (e : MemEngine)
      → IsOpen h oh old e
      → off ≤ length old
      → off + length bytes < 2 ^ 63
      → (e' : MemEngine) × (new : List ℕ) × (mem_write h (pos off) bytes e
          ≡ some (e', pos (length bytes), no_error))
        × IsOpen h oh new e'
        × (off + length bytes ≤ length new)
        × (take (off + length bytes) new ≡ take off old ++ bytes)
  unfolding mem_write write_handle
  mem_write-stores off bytes old e (p, q) le small =
      let grown = grow old (pos (off + length bytes)) in
      let new = overlay off bytes grown in
      let fits : off + length bytes ≤ length grown =
        omega (arith, length-grow old (off + length bytes)) in
      let e' : MemEngine = record e { heap = set_at oh.obj new e.heap } in
      (
        e',
        new,
        simp (p, q, write_data_lem old off bytes small) refl,
        (p, get-set_at oh.obj new old e.heap q),
        omega (arith, length-overlay off bytes grown fits),
        take-overlay off bytes grown fits
            ∙ ap (λ (xs : List ℕ). xs ++ bytes) (take-grow off (off + length bytes) old le),
      )

  mem_close-leaves :
      (old : List ℕ) (e : MemEngine)
      → IsOpen h oh old e
      → (e' : MemEngine) × (mem_close h e ≡ some (e', no_error)) × IsLeft oh.obj old e'
  unfolding mem_close close_handle
  mem_close-leaves old e (p, q) = (record e { handles = erase h e.handles }, rw p refl, q)

  mem_engine-Stores : Stores (mem_engine size_of) h (IsOpen h oh) (IsLeft oh.obj)
  unfolding mem_engine
  mem_engine-Stores = record {
    not_synced = refl;
    write_stores = mem_write-stores;
    close_leaves = mem_close-leaves;
  }

pub nil_of_length : (xs : List ℕ) → length xs ≡ 0 → xs ≡ []
nil_of_length [] e = refl
nil_of_length (x ∷ xs) e = absurd (omega arith)

-- The state after Open of a target that is there, and its handle.
abbrev opened_for : String → ℕ → MemEngine → MemEngine
opened_for name a e =
    let oh : OpenHandle = record { target = name; mode = mode_write; obj = a } in
    record e { next_h = suc e.next_h; handles = insert (pos (suc e.next_h)) oh e.handles }

module _ (size_of : String → ℤ) (ctx_err : MemEngine → EngineError) (hash_string64 : String → ℕ)
    (chunk : ℕ) (going : (e : MemEngine) → ctx_err e ≡ no_error) where
  open-found :
      (name : String) (a : ℕ) (e : MemEngine)
      → lookup name e.objects ≡ some a
      → mem_open size_of name mode_write create_trunc e
        ≡ some (opened_for name a e, pos (suc e.next_h), no_error)
  unfolding mem_open object_of add_handle
  open-found name a e p = rw p refl

  -- Where the context is not cancelled, writing a target that the engine in memory has, of a size that
  -- is an int64 and through a buffer that holds a byte, succeeds, and leaves in the target's object,
  -- from its start, the very bytes that one call of Fill makes for the whole target.
  pub write_posix-fills :
      (name : String) (size : ℕ) (cfg : Config) (a : ℕ) (old : List ℕ) (e : MemEngine)
      → lookup name e.objects ≡ some a
      → get_elem? e.heap a ≡ some old
      → 0 < chunk
      → size < 2 ^ 63
      → (e' : MemEngine) × (object : List ℕ) × (write_posix
            (mem_engine size_of)
            ctx_err
            hash_string64
            chunk
            name
            (pos size)
            cfg
            e
          ≡ some (e', none))
        × (get_elem? e'.heap a ≡ some object)
        × (take size object ≡ fill hash_string64 size cfg (pos 0) name 0)
  unfolding write_posix mem_engine
  write_posix-fills name size cfg a old e p q room small =
      let h = pos (suc e.next_h) in
      let oh : OpenHandle = record { target = name; mode = mode_write; obj = a } in
      let there : lookup h (opened_for name a e).handles ≡ some oh =
        lookup-insert h h oh e.handles ∙ rw (beq_refl h) refl in
      let empty =
        nil_of_length (fill hash_string64 0 cfg (pos 0) name 0)
          (length-fill hash_string64 0 cfg (pos 0) name 0) in
      rw (open-found name a e p) (
        write_chunks-LeftFilled (mem_engine size_of) ctx_err hash_string64 chunk h (IsOpen h oh)
          (IsLeft a) (mem_engine-Stores size_of h oh) going name cfg size size 0 old
          (opened_for name a e) room small (omega arith) (omega arith) (there, q) (omega arith)
          (sym empty))
