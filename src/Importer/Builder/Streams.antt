-- ===== src/Importer/Builder/Streams.antt =====
-- pkg/importer/build.go: what merging the streams does to each of them.
use ioflux.Prelude.{
  ℕ, int_eq, List, Ordered, Bool, ℤ, map, ◌≡◌, ◌++◌, Option, All, ◌∷◌, ◌==◌, true, if◌then◌else◌,
  Bool-cases, suc, some, [], lookup, inl, refl, inr, arith, int_beq_iff, subst, ◌≤◌, ◌≤ℤ◌, none,
  All-imp, ltb_ℤ, ◌∙◌, sym, keep, keep-All, keep-append, keep-none, sort_stable, leb_ℤ, ap, ap₂,
  sort_stable-symmetric, append-nil, keep-sort_stable,
}
use ioflux.Importer.Builder.{
  StreamOp, stays_before, or_empty, at_time, clamp_ops, rebase, clamp_streams, stream_ids,
}
use ioflux.Importer.Builder.Arranged.{Streams, Numbered, Arranged, Differ, Differ-sym}

abbrev pub in_stream : ℤ → StreamOp → Bool
in_stream s so = so.op.s == s

abbrev Stays : StreamOp → StreamOp → Type 0
Stays a c = stays_before a c ≡ true

Stays-before_of :
    (a c : StreamOp)
    → a.op.t ≤ℤ c.op.t
    → a.stream_id ≡ c.stream_id
    → a.local_idx ≤ c.local_idx
    → Stays a c
Stays-before_of a c le e lt =
    ground (arith, int_beq_iff a.op.t c.op.t, int_beq_iff a.stream_id c.stream_id)

-- No earlier than the op before it, where there is one.
abbrev NotBefore : Option ℤ → ℤ → Type 0
NotBefore none t = Unit
NotBefore (some p) t = p ≤ℤ t

abbrev Follows : Option ℤ → ℤ → ℕ → StreamOp → Type 0
Follows prev s i so =
    NotBefore prev so.op.t × (so.stream_id ≡ s) × (so.op.s ≡ s) × (i ≤ so.local_idx)

-- An op in its place at time t, and the ops that follow it.
clamped_cons :
    (prev : Option ℤ) (s t : ℤ) (i : ℕ) (so : StreamOp) (rest : List StreamOp)
    → NotBefore prev t
    → so.stream_id ≡ s
    → so.op.s ≡ s
    → so.local_idx ≡ i
    → All (Follows (some t) s (suc i)) rest × Ordered Stays rest
    → All (Follows prev s i) (at_time so t ∷ rest) × Ordered Stays (at_time so t ∷ rest)
clamped_cons prev s t i so rest nb e f g (a, o) = (
  ((nb, e, f, omega (arith, g)), All-imp _ _ rest (λ x h. weaken prev x nb h) a),
  (
    All-imp _ _ rest
        (λ x h. Stays-before_of (at_time so t) x h.0 (e ∙ sym h.1) (omega (arith, g, h.3))) a,
    o,
  ),
)
  where
    weaken :
        (prev : Option ℤ) (x : StreamOp)
        → NotBefore prev t
        → Follows (some t) s (suc i) x
        → Follows prev s i x
    weaken none x nb h = (tt, h.1, h.2, omega arith)
    weaken (some p) x nb h = (omega arith, h.1, h.2, omega arith)

clamp_ops-Follows :
    (m prev : Option ℤ) (n : ℕ) (s : ℤ) (i : ℕ) (sos : List StreamOp)
    → Numbered s i sos
    → All (Follows prev s i) (clamp_ops m prev n sos).0 × Ordered Stays (clamp_ops m prev n sos).0
unfolding clamp_ops
clamp_ops-Follows m none n s i [] v = (tt, tt)
clamp_ops-Follows m (some p) n s i [] v = (tt, tt)
clamp_ops-Follows m none n s i (so ∷ sos) (e, f, g, v) =
    let t = rebase m so.op.t in
    clamped_cons none s t i so (clamp_ops m (some t) n sos).0 tt e f g
      (clamp_ops-Follows m (some t) n s (suc i) sos v)
clamp_ops-Follows m (some p) n s i (so ∷ sos) (e, f, g, v) =
    let early = ltb_ℤ (rebase m so.op.t) p in
    let t = if early then p else rebase m so.op.t in
    let n' = if early then suc n else n in
    clamped_cons (some p) s t i so (clamp_ops m (some t) n' sos).0 (ground arith) e f g
      (clamp_ops-Follows m (some t) n' s (suc i) sos v)

-- What a stream's ops become in the merge, whatever was clamped before them.
pub data Becomes (e : Option ℤ) (sos : List StreamOp) (kept : List StreamOp) : Type 0 where
  clamped_to : (n : ℕ) → kept ≡ (clamp_ops e none n sos).0 → Becomes e sos kept
  left_out : kept ≡ [] → Becomes e sos kept

module _ (e : Option ℤ) (m : Streams) (v : Arranged m) where
  own_stream :
      (s : ℤ) (n : ℕ)
      → keep (in_stream s) (clamp_ops e none n (or_empty (lookup s m))).0
        ≡ (clamp_ops e none n (or_empty (lookup s m))).0
  own_stream s n =
      let a = (clamp_ops-Follows e none n s 0 (or_empty (lookup s m)) (v.numbered s)).0 in
      keep-All (in_stream s) _ (
        All-imp _ _ (clamp_ops e none n (or_empty (lookup s m))).0
          (λ x h. (int_beq_iff x.op.s s).1 h.2) a)

  other_stream :
      (i s : ℤ) (n : ℕ)
      → Differ i s
      → keep (in_stream s) (clamp_ops e none n (or_empty (lookup i m))).0 ≡ []
  other_stream i s n d =
      let a = (clamp_ops-Follows e none n i 0 (or_empty (lookup i m)) (v.numbered i)).0 in
      keep-none (in_stream s) _ (
        All-imp _ _ (clamp_ops e none n (or_empty (lookup i m))).0 (λ x h. ap (λ j. j == s) h.2 ∙ d)
          a)

  absent_stream :
      (s : ℤ) (n : ℕ) (ids : List ℤ)
      → All (λ i. Differ i s) ids
      → keep (in_stream s) (clamp_streams e n ids m).0 ≡ []
  unfolding clamp_streams
  absent_stream s n [] a = refl
  absent_stream s n (i ∷ ids) (d, a) =
      let r = clamp_ops e none n (or_empty (lookup i m)) in
      keep-append (in_stream s) r.0 (clamp_streams e r.1 ids m).0
      ∙ ap₂ (λ xs ys. xs ++ ys) (other_stream i s n d) (absent_stream s r.1 ids a)

  merged_stream :
      (s : ℤ) (n : ℕ) (ids : List ℤ)
      → Ordered Differ ids
      → Becomes e (or_empty (lookup s m)) (keep (in_stream s) (clamp_streams e n ids m).0)
  unfolding clamp_streams
  merged_stream s n [] o = left_out refl
  merged_stream s n (i ∷ ids) (a, o) =
      let r = clamp_ops e none n (or_empty (lookup i m)) in
      let rest = (clamp_streams e r.1 ids m).0 in
      elim (Bool-cases (i == s)) [
        | inl q ↦
            let same = (int_beq_iff i s).0 q in
            clamped_to n (
              keep-append (in_stream s) r.0 rest
              ∙ ap₂ (λ xs ys. xs ++ ys)
                  (subst
                    (λ j.
                      keep (in_stream s) (clamp_ops e none n (or_empty (lookup j m))).0
                      ≡ (clamp_ops e none n (or_empty (lookup s m))).0)
                    (sym same) (own_stream s n))
                  (absent_stream s r.1 ids (
                    subst (λ j. All (λ k. Differ k j) ids) same
                      (All-imp _ _ ids (λ k d. Differ-sym i k d) a)))
              ∙ append-nil _)
        | inr q ↦
            subst (Becomes e (or_empty (lookup s m)))
              (sym (
                keep-append (in_stream s) r.0 rest
                ∙ ap (λ xs. xs ++ keep (in_stream s) rest) (other_stream i s n q)))
              (merged_stream s r.1 ids o)
      ]

  -- The sorted merge holds the ops of each stream in their order.
  pub sorted_stream :
      (s : ℤ) (n : ℕ)
      → Becomes e
          (or_empty (lookup s m))
          (keep (in_stream s) (sort_stable stays_before (clamp_streams e n (stream_ids m) m).0))
  unfolding stream_ids
  sorted_stream s n =
      let ids = sort_stable leb_ℤ (map (λ p. p.0) m) in
      let merged = (clamp_streams e n ids m).0 in
      let b =
        merged_stream s n ids
          (sort_stable-symmetric leb_ℤ Differ Differ-sym (map (λ p. p.0) m) v.keys) in
      subst (Becomes e (or_empty (lookup s m)))
        (sym (keep-sort_stable stays_before (in_stream s) merged (in_order _ b))) b
    where
      in_order :
          (kept : List StreamOp) → Becomes e (or_empty (lookup s m)) kept → Ordered Stays kept
      in_order kept (clamped_to n' q) =
          subst (Ordered Stays) (sym q)
            (clamp_ops-Follows e none n' s 0 (or_empty (lookup s m)) (v.numbered s)).1
      in_order kept (left_out q) = subst (Ordered Stays) (sym q) tt
