-- ===== src/Replay/Merge.antt =====
-- Helpers of pkg/replay/scheduler.go: the gap that a think-time replay waits, and the notes that the
-- workers' engines report. The map of notes seen is a list of them.
use ioflux.Prelude.{
  ℤ, pos, List, Option, String, ◌==◌, ◌≤ℤ◌, ◌∷◌, ◌≡◌, some, [], Ordered, Bool, if◌then◌else◌, false,
  ◌++◌, sub64, true, add64, ◌||◌, All, string_eq, Bool-cases, ltb_ℤ, inl, none, inr, arith,
  beq_refl, ◌∙◌, refl, ap, sym,
}
use ioflux.Trace.Types.{Op}

abbrev pub gap_from : Option ℤ → Op → Op → ℤ
gap_from none prev cur = pos 0
gap_from (some dur) prev cur =
    let gap = sub64 cur.t (add64 prev.t dur) in if ltb_ℤ gap (pos 0) then pos 0 else gap

unfoldable pub think_gap_ns : Op → Op → ℤ
think_gap_ns prev cur = gap_from prev.dur prev cur

unfoldable pub has_seen : String → List String → Bool
has_seen l [] = false
has_seen l (s ∷ seen) = s == l || has_seen l seen

unfoldable pub union_limitations : List String → List String → List String
unfolding has_seen
union_limitations seen [] = []
union_limitations seen (l ∷ ls) =
    let rest = union_limitations seen ls in
    let rest' = union_limitations (l ∷ seen) ls in if has_seen l seen then rest else l ∷ rest'

abbrev pub concat : List (List String) → List String
concat [] = []
concat (ls ∷ rest) = ls ++ concat rest

-- One list of notes for each worker.
unfoldable pub union_engine_limitations : List (List String) → List String
unfolding union_limitations
union_engine_limitations outs = union_limitations [] (concat outs)

abbrev pub Differ : String → String → Type 0
Differ a b = (a == b) ≡ false

seen_same :
    (l x : String) (seen : List String) → (x == l) ≡ true → has_seen l seen ≡ has_seen x seen
seen_same l x seen e = ap (λ s. has_seen s seen) (sym ((string_eq.equal_iff x l).0 e))

new_differs :
    (l x : String) (seen : List String)
    → has_seen l seen ≡ true
    → has_seen x seen ≡ false
    → Differ l x
new_differs l x seen s p = elim (Bool-cases (l == x)) [
  | inl e ↦ let same = seen_same x l seen e in absurd (ground arith)
  | inr e ↦ e
]

Differ-from_seen :
    (l : String) (seen ls : List String)
    → has_seen l seen ≡ true
    → All (Differ l) (union_limitations seen ls)
unfolding union_limitations has_seen
Differ-from_seen l seen [] s = tt
Differ-from_seen l seen (x ∷ ls) s = elim (Bool-cases (has_seen x seen)) [
  | inl p ↦ rw p (Differ-from_seen l seen ls s)
  | inr p ↦
      rw p (new_differs l x seen s p, Differ-from_seen l (x ∷ seen) ls (rw s (or_true (x == l))))
]
  where
    or_true : (b : Bool) → (b || true) ≡ true
    or_true true = refl
    or_true false = refl

union_limitations-Ordered : (seen ls : List String) → Ordered Differ (union_limitations seen ls)
unfolding union_limitations has_seen
union_limitations-Ordered seen [] = tt
union_limitations-Ordered seen (x ∷ ls) = elim (Bool-cases (has_seen x seen)) [
  | inl p ↦ rw p (union_limitations-Ordered seen ls)
  | inr p ↦ rw p (
    Differ-from_seen x (x ∷ seen) ls (rw (beq_refl x) refl),
    union_limitations-Ordered (x ∷ seen) ls,
  )
]

old_note :
    (b u r s : Bool) → (b ≡ true → s ≡ true) → (u || s) ≡ (r || s) → (u || s) ≡ ((b || r) || s)
old_note b u r s f e = ground arith

new_note : (b u r s : Bool) → (u || (b || s)) ≡ (r || (b || s)) → ((b || u) || s) ≡ ((b || r) || s)
new_note b u r s e = ground arith

union_limitations-seen :
    (l : String) (seen ls : List String)
    → (has_seen l (union_limitations seen ls) || has_seen l seen)
      ≡ (has_seen l ls || has_seen l seen)
unfolding union_limitations has_seen
union_limitations-seen l seen [] = refl
union_limitations-seen l seen (x ∷ ls) = elim (Bool-cases (has_seen x seen)) [
  | inl p ↦ rw p (
      old_note (x == l) (has_seen l (union_limitations seen ls)) (has_seen l ls) (has_seen l seen)
        (λ e. seen_same l x seen e ∙ p) (union_limitations-seen l seen ls))
  | inr p ↦ rw p (
      new_note (x == l) (has_seen l (union_limitations (x ∷ seen) ls)) (has_seen l ls)
        (has_seen l seen) (union_limitations-seen l (x ∷ seen) ls))
]

or_false : (u r : Bool) → (u || false) ≡ (r || false) → u ≡ r
or_false u r e = ground arith

-- The notes of a run are listed once each, and a note is listed exactly where a worker reports it,
-- however many do.
pub union_engine_limitations-Ordered :
    (outs : List (List String)) (l : String)
    → Ordered Differ (union_engine_limitations outs)
      × (has_seen l (union_engine_limitations outs) ≡ has_seen l (concat outs))
unfolding union_engine_limitations has_seen
union_engine_limitations-Ordered outs l = (
  union_limitations-Ordered [] (concat outs),
  or_false (has_seen l (union_limitations [] (concat outs))) (has_seen l (concat outs))
      (union_limitations-seen l [] (concat outs)),
)

gap_natural : (dur : Option ℤ) (prev cur : Op) → pos 0 ≤ℤ gap_from dur prev cur
gap_natural none prev cur = omega arith
gap_natural (some d) prev cur = ground arith

-- A think-time replay never waits a negative time between two ops, whatever they recorded.
pub think_gap_ns_natural : (prev cur : Op) → pos 0 ≤ℤ think_gap_ns prev cur
unfolding think_gap_ns
think_gap_ns_natural prev cur = gap_natural prev.dur prev cur
