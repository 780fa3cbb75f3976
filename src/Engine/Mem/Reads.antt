-- ===== src/Engine/Mem/Reads.antt =====
-- pkg/engine/mem/mem.go: what a write leaves in an object, and what a read of it finds.
use ioflux.Prelude.{
  ℕ, pos, List, take, if◌then◌else◌, length, ◌+◌, ◌++◌, ◌≡◌, ltb_ℤ, drop, max, replicate,
  length-append, ◌≤◌, ◌∙◌, Bool-cases, inl, some, ap₂, length-take, length-replicate, length-drop,
  arith, inr, ◌<◌, ap, take-all, drop-append, ◌^◌, take-append, Bool, refl, false, none, add64-pos,
  ltb, true, get_elem?, leb, drop-all, append-nil, ◌∷◌, suc, [], ℤ, zero, lookup, int_eq, ◌-◌, min,
}
use ioflux.Engine.Mem.{
  write_data, copy, read_data, overlay, grow, copy_slice, transfer, mem_write, mem_read, set_at,
  write_handle, read_handle, MemEngine, OpenHandle,
}
use ioflux.Engine.Types.{no_error, short_read}

length-copy : (dst src : List ℕ) → length (copy dst src) ≡ length dst
length-copy dst src =
    length-append (take (length dst) src) (drop (length src) dst)
    ∙ ap₂ (λ a b. a + b) (length-take (length dst) src) (length-drop (length src) dst)
    ∙ omega arith

pub length-grow : (old : List ℕ) (n : ℕ) → length (grow old (pos n)) ≡ max (length old) n
unfolding grow
length-grow old n = elim (Bool-cases (ltb_ℤ (pos (length old)) (pos n))) [
  | inl p ↦ rw p (length-copy (replicate n 0) old ∙ length-replicate n 0 ∙ ground arith)
  | inr p ↦ rw p (ground arith)
]

module _ (off : ℕ) (bytes grown : List ℕ) (fits : off + length bytes ≤ length grown) where
  pub length-overlay : length (overlay off bytes grown) ≡ length grown
  unfolding overlay
  length-overlay =
      length-append (take off grown) (copy (drop off grown) bytes)
      ∙ ap₂ (λ a b. a + b) (length-take off grown)
          (length-copy (drop off grown) bytes ∙ length-drop off grown)
      ∙ omega arith

  pub copy-fits : copy (drop off grown) bytes ≡ bytes ++ drop (length bytes) (drop off grown)
  copy-fits =
      ap (λ xs. xs ++ drop (length bytes) (drop off grown))
        (take-all (length (drop off grown)) bytes (omega (arith, length-drop off grown)))

  -- Where the bytes were written, they stand.
  slice-overlay : take (length bytes) (drop off (overlay off bytes grown)) ≡ bytes
  unfolding overlay
  slice-overlay =
      ap (take (length bytes)) (
        drop-append off (take off grown) (copy (drop off grown) bytes)
          (length-take off grown ∙ omega arith)
        ∙ copy-fits)
      ∙ take-append (length bytes) bytes (drop (length bytes) (drop off grown)) refl

pub write_data_lem :
    (old : List ℕ) (off : ℕ) (bytes : List ℕ)
    → off + length bytes < 2 ^ 63
    → write_data old off bytes ≡ some (overlay off bytes (grow old (pos (off + length bytes))))
unfolding write_data
write_data_lem old off bytes lt = rw (add64-pos off (length bytes) lt) (
    fits_write (ltb (length (grow old (pos (off + length bytes)))) off) _
      (ground (arith, length-grow old (off + length bytes))))
  where
    fits_write : (b : Bool) (x : List ℕ) → b ≡ false → (if b then none else some x) ≡ some x
    fits_write true x e = absurd (ground arith)
    fits_write false x e = refl

copy-whole : (buf src : List ℕ) → length buf ≡ length src → copy buf src ≡ src
copy-whole buf src e =
    ap₂ (λ xs ys. xs ++ ys) (take-all (length buf) src (omega arith))
      (drop-all (length src) buf (omega arith))
    ∙ append-nil src

transfer-eq :
    (n m : ℕ) (xs ys : List ℕ) (short : Bool)
    → m ≡ n
    → short ≡ false
    → xs ≡ ys
    → transfer (pos m) (if short then short_read else no_error) xs ≡ transfer (pos n) no_error ys
transfer-eq n m xs ys short e f g = rw (e, f, g) refl

copy_slice_lem :
    (object : List ℕ) (off n : ℕ) (buf : List ℕ)
    → off + n ≤ length object
    → length buf ≡ n
    → copy_slice object off (pos (off + n)) (pos n) buf
      ≡ some (transfer (pos n) no_error (take n (drop off object)))
unfolding copy_slice
copy_slice_lem object off n buf fits e =
    let same : off + n - off ≡ n = omega arith in
    let src = take n (drop off object) in
    let size : length src ≡ n =
      length-take n (drop off object) ∙ omega (arith, length-drop off object) in
    let forward : ltb (off + n) off ≡ false = ground arith in
    rw (forward, same)
      (ap some (
        transfer-eq n (min (length buf) (length src)) (copy buf src) src
          (ltb_ℤ (pos (min (length buf) (length src))) (pos n)) (omega arith) (ground arith)
          (copy-whole buf src (omega arith))))

-- A read whose range lies in the object fills a buffer of its length with the bytes there.
read_data_lem :
    (object : List ℕ) (off n : ℕ) (buf : List ℕ)
    → 0 < n
    → off + n ≤ length object
    → off + n < 2 ^ 63
    → length buf ≡ n
    → read_data object off (pos n) buf ≡ some (transfer (pos n) no_error (take n (drop off object)))
unfolding read_data
read_data_lem object off n buf positive fits small e =
    let inside : leb (length object) off ≡ false = ground arith in
    let whole : ltb_ℤ (pos (length object)) (pos (off + n)) ≡ false = ground arith in
    rw (inside, add64-pos off n small, whole) (copy_slice_lem object off n buf fits e)

pub get-set_at :
    (a : ℕ) (v old : List ℕ) (heap : List (List ℕ))
    → get_elem? heap a ≡ some old
    → get_elem? (set_at a v heap) a ≡ some v
get-set_at a v old [] e = absurd (ground arith)
get-set_at zero v old (x ∷ xs) e = refl
get-set_at (suc a) v old (x ∷ xs) e = get-set_at a v old xs e

reads_lem :
    (h : ℤ) (off n : ℕ) (buf bytes : List ℕ) (e : MemEngine) (oh : OpenHandle) (object : List ℕ)
    → lookup h e.handles ≡ some oh
    → get_elem? e.heap oh.obj ≡ some object
    → read_data object off (pos n) buf ≡ some (transfer (pos n) no_error bytes)
    → read_handle (lookup h e.handles) off (pos n) buf e ≡ some (e, transfer (pos n) no_error bytes)
unfolding read_handle
reads_lem h off n buf bytes e oh object p q r = rw (p, q, r) refl

-- A write of at least one byte through one handle, at an offset that is not negative and an end that is
-- an int64, and a read of the same range through any handle of the same object into a buffer of that length: both
-- succeed with the count of the bytes, and the read finds exactly the bytes written.
pub read-write :
    (e : MemEngine) (h h' : ℤ) (oh oh' : OpenHandle) (old : List ℕ) (off : ℕ) (bytes buf : List ℕ)
    → lookup h e.handles ≡ some oh
    → lookup h' e.handles ≡ some oh'
    → oh'.obj ≡ oh.obj
    → get_elem? e.heap oh.obj ≡ some old
    → 0 < length bytes
    → off + length bytes < 2 ^ 63
    → length buf ≡ length bytes
    → (e' : MemEngine) × (mem_write h (pos off) bytes e ≡ some (e', pos (length bytes), no_error))
      × (mem_read h' (pos off) (pos (length bytes)) buf e'
          ≡ some (e', transfer (pos (length bytes)) no_error bytes))
unfolding mem_write mem_read write_handle read_handle
read-write e h h' oh oh' old off bytes buf p p' same q positive small size =
    let grown = grow old (pos (off + length bytes)) in
    let new = overlay off bytes grown in
    let fits : off + length bytes ≤ length grown =
      omega (arith, length-grow old (off + length bytes)) in
    let e' : MemEngine = record e { heap = set_at oh.obj new e.heap } in
    let found = get-set_at oh.obj new old e.heap q in
    let asked : ltb_ℤ (pos (length bytes)) (pos 0) ≡ false = ground arith in
    let room : off + length bytes ≤ length new =
      omega (arith, length-overlay off bytes grown fits) in
    (
      e',
      simp (p, q, write_data_lem old off bytes small) refl,
      rw asked (
          reads_lem h' off (length bytes) buf bytes e' oh' new p'
            (ap (get_elem? e'.heap) same ∙ found)
            (read_data_lem new off (length bytes) buf positive room small size
              ∙ ap (λ xs. some (transfer (pos (length bytes)) no_error xs))
                  (slice-overlay off bytes grown fits))),
    )
