-- ===== src/Cluster/Partition/Skew.antt =====
-- pkg/cluster/coordinator.go: the spread of the start delays.
use ioflux.Prelude.{
  ℤ, List, ◌≤ℤ◌, All, arith, ◌∷◌, if◌then◌else◌, ltb_ℤ, [], pos, ◌<ℤ◌, sub64, ◌^◌, ◌-ℤ◌,
  sub64_parts, pos_part, All-imp, -ℤ_parts, ◌<◌, neg_part, ◌≤◌, ◌≡◌, Memᴰ, Bool, All-of, true,
  false, sym, wrap64_lem, refl,
}
use mathlib.Core.List.Memᴰ.{head, tail}
use ioflux.Cluster.Partition.{spread, skew_ns}

abbrev pub Within : ℤ → ℤ → ℤ → Type 0
Within low high d = (low ≤ℤ d) × (d ≤ℤ high)

-- The two ends only move apart, and every delay lies between them.
spread-Within :
    (low high : ℤ) (delays : List ℤ)
    → low ≤ℤ high
    → ((spread low high delays).0 ≤ℤ low)
      × (high ≤ℤ (spread low high delays).1)
      × All (Within (spread low high delays).0 (spread low high delays).1) delays
unfolding spread
spread-Within low high [] h = (omega arith, omega arith, tt)
spread-Within low high (d ∷ delays) h =
    let low' = if ltb_ℤ d low then d else low in
    let high' = if ltb_ℤ high d then d else high in
    let ordered : (low' ≤ℤ high') × (low' ≤ℤ low) × (low' ≤ℤ d) × (high ≤ℤ high') × (d ≤ℤ high') =
      ground arith in
    let (a, b, c) = spread-Within low' high' delays ordered.0 in
    (omega arith, omega arith, ((omega arith, omega arith), c))

abbrev pub IsDelay : ℤ → Type 0
IsDelay d = (pos 0 ≤ℤ d) × (d <ℤ pos (2 ^ 63))

-- What holds of every delay holds of the two ends.
spread-holds :
    (P : ℤ → Type 0) (low high : ℤ) (delays : List ℤ)
    → P low
    → P high
    → All P delays
    → P (spread low high delays).0 × P (spread low high delays).1
unfolding spread
spread-holds P low high [] a b c = (a, b)
spread-holds P low high (d ∷ delays) a b (c, cs) =
    spread-holds P (if ltb_ℤ d low then d else low) (if ltb_ℤ high d then d else high) delays
      (either (ltb_ℤ d low) c a) (either (ltb_ℤ high d) c b) cs
  where
    either : {x y : ℤ} (q : Bool) → P x → P y → P (if q then x else y)
    either true p r = p
    either false p r = r

difference_small :
    (high low : ℤ)
    → IsDelay high
    → IsDelay low
    → low ≤ℤ high
    → (pos_part (high -ℤ low) < 2 ^ 63) × (neg_part (high -ℤ low) ≤ 2 ^ 63)
unfolding ◌-ℤ◌
difference_small high low h l o = ground arith

self_difference : (d : ℤ) → (d -ℤ d) ≡ pos 0
unfolding ◌-ℤ◌
self_difference d = ground arith

difference_bounded :
    (low high a b : ℤ)
    → IsDelay high
    → IsDelay low
    → Within low high a
    → Within low high b
    → (a -ℤ b) ≤ℤ sub64 high low
difference_bounded low high a b h l (p, q) (r, s) =
    let o : low ≤ℤ high = omega arith in
    let (u, v) = difference_small high low h l o in
    omega (arith, sub64_parts high low u v, -ℤ_parts a b)

differences-All :
    (low high : ℤ) (delays : List ℤ)
    → IsDelay high
    → IsDelay low
    → All (Within low high) delays
    → All (λ a. All (λ b. (a -ℤ b) ≤ℤ sub64 high low) delays) delays
differences-All low high delays h l w =
    All-imp (Within low high) _ delays
      (λ a p. All-imp (Within low high) _ delays (λ b q. difference_bounded low high a b h l p q) w)
      w

-- Two of the delays are this far apart; without delays, it is 0.
abbrev pub Attained : ℤ → List ℤ → Type 0
Attained skew [] = skew ≡ pos 0
Attained skew delays = (a : ℤ) × (b : ℤ) × Memᴰ a delays × Memᴰ b delays × ((a -ℤ b) ≡ skew)

-- For delays that are not negative, as an int64 can hold them, the skew that is reported is the largest
-- difference of two of them: no two workers start further apart, and some two are that far apart.
pub skew_ns-bounds :
    (delays : List ℤ)
    → All IsDelay delays
    → All (λ a. All (λ b. (a -ℤ b) ≤ℤ skew_ns delays) delays) delays
      × Attained (skew_ns delays) delays
unfolding skew_ns sub64
skew_ns-bounds [] a = (tt, refl)
skew_ns-bounds (d ∷ []) a =
    (((omega (arith, -ℤ_parts d d), tt), tt), (d, d, head refl, head refl, self_difference d))
skew_ns-bounds (d ∷ e ∷ delays) (p, ps) =
    let rest = e ∷ delays in
    let all = d ∷ rest in
    let (a, b) = spread-holds IsDelay d d rest p p ps in
    let (c, f, w) = spread-Within d d rest (omega arith) in
    let low = (spread d d rest).0 in
    let high = (spread d d rest).1 in
    let o : low ≤ℤ high = omega arith in
    let (m, n) =
      spread-holds (λ x. Memᴰ x all) d d rest (head refl) (head refl)
        (All-of (λ x. Memᴰ x all) rest (λ x i. tail i)) in
    let (u, v) = difference_small high low b a o in
    (
      differences-All low high all b a ((c, f), w),
      (high, low, n, m, sym (wrap64_lem (high -ℤ low) u v)),
    )
