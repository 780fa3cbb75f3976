-- ===== src/Transform/SplitReads/Cover.antt =====
-- pkg/transform/splitreads.go, `splitOne`: the pieces of a read cover its extent, in order.
use ioflux.Prelude.{
  ℕ, zero, suc, ◌+◌, ◌-◌, ◌≤◌, ◌<◌, min, true, none, some, List, [], ◌∷◌, ◌≡◌, refl, arith, ℤ, pos,
  ◌^◌, add64-pos, sub64-pos, ltb_ℤ, if◌then◌else◌, dec_lt, dec_le, ◌∙◌, ap, subst,
}
use ioflux.Transform.SplitReads.{
  pieces_of, piece, split_loop, cons_piece, split_one, split_moved, split_at, is_read,
}
use ioflux.Trace.Types.{Op, transferred_bytes}
use native.Mathlib.Nat.{add-zero}

abbrev pub tile : Op → ℕ → ℕ → Op
tile op off k = record op { off = some (pos off); len = some (pos k); ret = none; dur = none }

-- `ps` are reads of `op` that lie end to end from byte `off` over `n` bytes: each but the last is a
-- whole block, the last is what remains, and none is empty.
abbrev pub Tiles : Op → ℕ → ℕ → ℕ → List Op → Type 0
Tiles op b off n [] = n ≡ 0
Tiles op b off n (p ∷ ps) =
    (0 < n) × (p ≡ tile op off (min b n)) × Tiles op b (off + min b n) (n - min b n) ps

-- The largest int64.
abbrev pub max_int64 : ℕ
max_int64 = 2 ^ 63 - 1

module _ (op : Op) (a m b : ℕ) (positive : 0 < b) (fits : m + b ≤ max_int64)
    (ends : a + m ≤ max_int64) where
  loop_past : (f c : ℕ) → m ≤ c → split_loop f op (pos a) (pos m) (pos b) (pos c) ≡ pieces_of []
  unfolding split_loop
  loop_past zero c h = ground arith
  loop_past (suc f) c h = ground arith

  size_min : (r : ℕ) → (if ltb_ℤ (pos r) (pos b) then pos r else pos b) ≡ pos (min b r)
  size_min r = ground arith

  lt_test : (c : ℕ) → c < m → ltb_ℤ (pos c) (pos m) ≡ true
  lt_test c h = ground arith

  piece-tile :
      (c : ℕ) → c < m → piece op (pos a) (pos m) (pos b) (pos c) ≡ tile op (a + c) (min b (m - c))
  piece-tile c h =
      rw (add64-pos a c (omega arith), sub64-pos m c (omega arith) (omega arith), size_min (m - c))

  loop_round :
      (f c : ℕ)
      → c < m
      → split_loop (suc f) op (pos a) (pos m) (pos b) (pos c)
        ≡ cons_piece
            (tile op (a + c) (min b (m - c)))
            (split_loop f op (pos a) (pos m) (pos b) (pos (c + b)))
  unfolding split_loop
  loop_round f c h = rw (piece-tile c h, add64-pos c b (omega arith), lt_test c h)

  loop-Tiles :
      (f c : ℕ)
      → c ≤ m
      → m ≤ c + f
      → (ps : List Op) × (split_loop f op (pos a) (pos m) (pos b) (pos c) ≡ pieces_of ps)
        × Tiles op b (a + c) (m - c) ps
  loop-Tiles zero c h k = ([], loop_past zero c (omega arith), omega arith)
  loop-Tiles (suc f) c h k = elim (dec_lt c m) [
    | no done ↦ ([], loop_past (suc f) c (omega arith), omega arith)
    | yes more ↦ elim (dec_le m (c + b)) [
      | yes last ↦ (
        tile op (a + c) (min b (m - c)) ∷ [],
        loop_round f c more ∙ ap (cons_piece _) (loop_past f (c + b) last),
        (omega arith, refl, omega arith),
      )
      | no on ↦
          let (ps, e, tiles) = loop-Tiles f (c + b) (omega arith) (omega arith) in
          let whole : min b (m - c) ≡ b = omega arith in
          let start : a + c + b ≡ a + (c + b) = omega arith in
          let left : m - c - b ≡ m - (c + b) = omega arith in
          (
            tile op (a + c) (min b (m - c)) ∷ ps,
            loop_round f c more ∙ ap (cons_piece _) e,
            (omega arith, refl, rw (whole, start, left) tiles),
          )
    ]
  ]

long_read :
    (op : Op) (m b : ℕ)
    → b < m
    → split_moved (some (pos m)) op (pos b) ≡ split_at op.off op (pos m) (pos b)
unfolding split_moved
long_read op m b more = ground arith

long_extent :
    (op : Op) (off : ℤ) (m b : ℕ)
    → b < m
    → split_at (some off) op (pos m) (pos b) ≡ split_loop m op off (pos m) (pos b) (pos 0)
unfolding split_at
long_extent op off m b more = ground arith

-- A READ or GET that moved more than a block is split into pieces: requests of whole blocks, and of
-- what remains at the end, that lie end to end over exactly the bytes that it moved, each with no
-- recorded shortfall or duration and otherwise like it. No int64 of the loop overflows where the
-- bytes moved and a block together, and the end of the extent, are int64 values.
pub split_one-Tiles :
    (op : Op) (a m b : ℕ)
    → is_read op.op ≡ true
    → op.off ≡ some (pos a)
    → transferred_bytes op ≡ some (pos m)
    → 0 < b
    → b < m
    → m + b ≤ max_int64
    → a + m ≤ max_int64
    → (ps : List Op) × (split_one op (pos b) ≡ pieces_of ps) × Tiles op b a m ps
unfolding split_one
split_one-Tiles op a m b reads off moved positive more fits ends =
    let (ps, e, tiles) = loop-Tiles op a m b positive fits ends m 0 (omega arith) (omega arith) in
    let tiles_at : Tiles op b a (m - 0) ps =
      subst (λ (x : ℕ). Tiles op b x (m - 0) ps) (add-zero a) tiles in
    let drop_zero : m - 0 ≡ m = omega arith in
    (
      ps,
      rw reads (
          ap (λ o. split_moved o op (pos b)) moved
          ∙ long_read op m b more
          ∙ ap (λ o. split_at o op (pos m) (pos b)) off
          ∙ long_extent op (pos a) m b more
          ∙ e),
      subst (λ (x : ℕ). Tiles op b a x ps) drop_zero tiles_at,
    )
