-- ===== src/Importer/Builder/Arranged.antt =====
-- pkg/importer/build.go: how the builder keeps the ops of each stream.
use ioflux.Prelude.{
  ℕ, int_eq, List, Ordered, insert, Bool, ℤ, map, ◌≡◌, ◌++◌, Option, All, ◌∷◌, ◌==◌, true,
  if◌then◌else◌, ◌+◌, Bool-cases, suc, false, some, [], lookup, length, inl, refl, lookup-insert,
  inr, arith, int_beq_iff, subst,
}
use ioflux.Importer.Builder.{StreamOp, add, or_empty, Builder}
use ioflux.Trace.Types.{Op}

abbrev pub Streams : Type 0
Streams = List (ℤ × List StreamOp)

-- The ops of one stream, numbered from `i` on.
abbrev pub Numbered : ℤ → ℕ → List StreamOp → Type 0
Numbered s i [] = Unit
Numbered s i (so ∷ sos) =
    (so.stream_id ≡ s) × (so.op.s ≡ s) × (so.local_idx ≡ i) × Numbered s (suc i) sos

abbrev pub Differ : ℤ → ℤ → Type 0
Differ a c = (a == c) ≡ false

pub Differ-sym : (a c : ℤ) → Differ a c → Differ c a
Differ-sym a c d = ground (arith, d)

-- Each stream has one list, of its own ops in their places.
pub record Arranged (m : Streams) : Type 0 where
  pub keys : Ordered Differ (map (λ e. e.0) m)
  pub numbered : (s : ℤ) → Numbered s 0 (or_empty (lookup s m))

Numbered-append :
    (s : ℤ) (i : ℕ) (sos : List StreamOp) (so : StreamOp)
    → Numbered s i sos
    → so.stream_id ≡ s
    → so.op.s ≡ s
    → so.local_idx ≡ i + length sos
    → Numbered s i (sos ++ so ∷ [])
Numbered-append s i [] so n e f g = (e, f, omega (arith, g), tt)
Numbered-append s i (x ∷ sos) so (a, b, c, n) e f g =
    (a, b, c, Numbered-append s (suc i) sos so n e f (omega (arith, g)))

insert-keys-All :
    (P : ℤ → Type 0) (s : ℤ) (v : List StreamOp) (m : Streams)
    → P s
    → All P (map (λ e. e.0) m)
    → All P (map (λ e. e.0) (insert s v m))
unfolding insert
insert-keys-All P s v [] p a = (p, tt)
insert-keys-All P s v ((j, w) ∷ m) p (q, a) = elim (Bool-cases (j == s)) [
  | inl e ↦ rw e (q, a)
  | inr e ↦ rw e (q, insert-keys-All P s v m p a)
]

insert-keys-Ordered :
    (s : ℤ) (v : List StreamOp) (m : Streams)
    → Ordered Differ (map (λ e. e.0) m)
    → Ordered Differ (map (λ e. e.0) (insert s v m))
unfolding insert
insert-keys-Ordered s v [] o = (tt, tt)
insert-keys-Ordered s v ((j, w) ∷ m) (a, o) = elim (Bool-cases (j == s)) [
  | inl e ↦ rw e (a, o)
  | inr e ↦ rw e (insert-keys-All (Differ j) s v m e a, insert-keys-Ordered s v m o)
]

Numbered-if :
    (c : Bool) (s : ℤ) (xs : List StreamOp) (o : Option (List StreamOp))
    → (c ≡ true → Numbered s 0 xs)
    → Numbered s 0 (or_empty o)
    → Numbered s 0 (or_empty (if c then some xs else o))
Numbered-if true s xs o f n = f refl
Numbered-if false s xs o f n = n

pub Arranged-add : (op : Op) (b : Builder) → Arranged b.per_stream → Arranged (add op b).per_stream
unfolding add
Arranged-add op b v =
    let ops = or_empty (lookup op.s b.per_stream) in
    let so : StreamOp = record { stream_id = op.s; local_idx = length ops; op = op } in
    record {
      keys = insert-keys-Ordered op.s (ops ++ so ∷ []) b.per_stream v.keys;
      numbered = λ s. rw lookup-insert (
          Numbered-if (op.s == s) s (ops ++ so ∷ []) (lookup s b.per_stream)
            (λ e.
              let same = (int_beq_iff op.s s).0 e in
              subst (λ i. Numbered i 0 (ops ++ so ∷ [])) same
                (Numbered-append op.s 0 ops so (v.numbered op.s) refl refl (omega arith)))
            (v.numbered s));
    }
