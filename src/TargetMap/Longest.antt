-- ===== src/TargetMap/Longest.antt =====
-- pkg/targetmap/targetmap.go: which rule applies to a name.
use mathlib.Core.List.Permᴰ
use ioflux.Prelude.{
  ℕ, List, String, ◌⊎◌, cut_prefix, len, All, Ordered, Option, ◌≤◌, ◌∷◌, sort_stable, ◌++◌, ◌≡◌,
  some, text_append, All-imp, Option-cases, Bool-cases, [], none, arith, sort_stable-Ordered, ◌==◌,
  inl, All-append, inr, ap, string_eq, cut_prefix-append, sort_stable-Permᴰ, Memᴰ, All-Memᴰ,
  All-Permᴰ, All-of, refl,
}
use ioflux.TargetMap.{sorted_rules, split_rules, Rule, first_match, at_least_as_long}

-- A prefix is at least as long as those of the rules after it.
abbrev RuleLe : Rule → Rule → Type 0
RuleLe r q = len q.from ≤ len r.from

abbrev pub Misses : String → Rule → Type 0
Misses name r = cut_prefix r.from name ≡ none

-- The rule misses the name or its prefix has at most `n` bytes.
abbrev pub NoLonger : ℕ → String → Rule → Type 0
NoLonger n name r = Misses name r ⊎ (len r.from ≤ n)

abbrev pub Chosen : List Rule → String → Option (Rule × String) → Type 0
Chosen rules name none = All (Misses name) rules
Chosen rules name (some (r, suffix)) =
    Memᴰ r rules × (name ≡ text_append r.from suffix) × All (NoLonger (len r.from) name) rules

module _ (P : Rule → Type 0) where
  -- What holds of both parts of the split holds of the whole.
  split_rules-All :
      (rules : List Rule) → All P (split_rules rules).0 → All P (split_rules rules).1 → All P rules
  unfolding split_rules
  split_rules-All [] a b = tt
  split_rules-All (r ∷ rules) a b = elim (Bool-cases (r.from == "")) [
    | inl e ↦
        let (p, ps) : P r × All P (split_rules rules).1 = rw (e, split_rules) at b in
        (p, split_rules-All rules (rw (e, split_rules) at a) ps)
    | inr e ↦
        let (p, ps) : P r × All P (split_rules rules).0 = rw (e, split_rules) at a in
        (p, split_rules-All rules ps (rw (e, split_rules) at b))
  ]

  All-split_rules :
      (rules : List Rule) → All P rules → All P (split_rules rules).0 × All P (split_rules rules).1
  unfolding split_rules
  All-split_rules [] h = (tt, tt)
  All-split_rules (r ∷ rules) (p, h) = elim (Bool-cases (r.from == "")) [
    | inl e ↦ let (a, b) = All-split_rules rules h in rw e (a, (p, b))
    | inr e ↦ let (a, b) = All-split_rules rules h in rw e ((p, a), b)
  ]

  All-append_of : (xs ys : List Rule) → All P (xs ++ ys) → All P xs × All P ys
  All-append_of [] ys h = (tt, h)
  All-append_of (x ∷ xs) ys (p, h) = let (a, b) = All-append_of xs ys h in ((p, a), b)

  sorted_rules-All : (rules : List Rule) → All P (sorted_rules rules) → All P rules
  unfolding sorted_rules
  sorted_rules-All rules h =
      let (a, b) = All-append_of (sort_stable at_least_as_long (split_rules rules).0) _ h in
      let d = sort_stable-Permᴰ at_least_as_long (split_rules rules).0 in
      split_rules-All rules (All-Permᴰ P (Permᴰ.symm d) a) b

  All-sorted_rules : (rules : List Rule) → All P rules → All P (sorted_rules rules)
  unfolding sorted_rules
  All-sorted_rules rules h =
      let (a, b) = All-split_rules rules h in
      let d = sort_stable-Permᴰ at_least_as_long (split_rules rules).0 in
      All-append P (sort_stable at_least_as_long (split_rules rules).0) _ (All-Permᴰ P d a) b

-- The catch-all rules have an empty prefix.
split_rules-empty : (rules : List Rule) → All (λ r. len r.from ≡ 0) (split_rules rules).1
unfolding split_rules
split_rules-empty [] = tt
split_rules-empty (r ∷ rules) = elim (Bool-cases (r.from == "")) [
  | inl e ↦ rw e (ap len ((string_eq.equal_iff r.from "").0 e), split_rules-empty rules)
  | inr e ↦ rw e (split_rules-empty rules)
]

RuleLe-empty : (r : Rule) (ys : List Rule) → All (λ q. len q.from ≡ 0) ys → All (RuleLe r) ys
RuleLe-empty r ys a = All-imp (λ q. len q.from ≡ 0) (RuleLe r) ys (λ q e. omega arith) a

append-Ordered :
    (xs ys : List Rule)
    → Ordered RuleLe xs
    → All (λ r. len r.from ≡ 0) ys
    → Ordered RuleLe (xs ++ ys)
append-Ordered [] [] o a = tt
append-Ordered [] (y ∷ ys) o (z, a) = (RuleLe-empty y ys a, append-Ordered [] ys tt a)
append-Ordered (x ∷ xs) ys (p, o) a =
    (All-append (RuleLe x) xs ys p (RuleLe-empty x ys a), append-Ordered xs ys o a)

sorted_rules-Ordered : (rules : List Rule) → Ordered RuleLe (sorted_rules rules)
unfolding sorted_rules
sorted_rules-Ordered rules =
    append-Ordered (sort_stable at_least_as_long (split_rules rules).0) (split_rules rules).1
      (sort_stable-Ordered at_least_as_long RuleLe (λ r q e. ground arith) (λ r q e. ground arith)
        (λ r q u a b. omega arith) (split_rules rules).0)
      (split_rules-empty rules)

-- The rules before the one that matches miss the name.
cons-Chosen :
    (r : Rule) (rules : List Rule) (name : String) (found : Option (Rule × String))
    → cut_prefix r.from name ≡ none
    → Chosen rules name found
    → Chosen (r ∷ rules) name found
cons-Chosen r rules name none e c = (e, c)
cons-Chosen r rules name (some (q, suffix)) e (m, same, a) = (Memᴰ.tail m, same, (inl e, a))

first_match-Chosen :
    (rules : List Rule) (name : String)
    → Ordered RuleLe rules
    → Chosen rules name (first_match rules name)
unfolding first_match
first_match-Chosen [] name o = tt
first_match-Chosen (r ∷ rules) name (p, o) = elim (Option-cases (cut_prefix r.from name)) [
  | inl e ↦
      rw (e, first_match, Chosen)
        (cons-Chosen r rules name (first_match rules name) e (first_match-Chosen rules name o))
  | inr (suffix, e) ↦
      rw (e, first_match, Chosen)
        (
          Memᴰ.head refl,
          cut_prefix-append r.from name suffix e,
          (
            inr (omega arith),
            All-imp (RuleLe r) (NoLonger (len r.from) name) rules (λ q l. inr l) p,
          ),
        )
]

sorted_rules-Chosen :
    (rules : List Rule) (name : String) (found : Option (Rule × String))
    → Chosen (sorted_rules rules) name found
    → Chosen rules name found
sorted_rules-Chosen rules name none c = sorted_rules-All (Misses name) rules c
sorted_rules-Chosen rules name (some (r, suffix)) (m, same, a) = (
  All-Memᴰ (λ q. Memᴰ q rules) (sorted_rules rules)
      (All-sorted_rules (λ q. Memᴰ q rules) rules (All-of _ rules (λ q n. n))) m,
  same,
  sorted_rules-All (NoLonger (len r.from) name) rules a,
)

-- The rule that a map applies to a name is one of its rules whose prefix the name starts with, and no rule of the
-- map with a longer prefix matches; where none applies, none matches.
pub longest_prefix :
    (rules : List Rule) (name : String) → Chosen rules name (first_match (sorted_rules rules) name)
longest_prefix rules name =
    sorted_rules-Chosen rules name (first_match (sorted_rules rules) name)
      (first_match-Chosen (sorted_rules rules) name (sorted_rules-Ordered rules))
