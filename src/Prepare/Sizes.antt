-- ===== src/Prepare/Sizes.antt =====
-- pkg/prepare/prepare.go: the sizes that are required of targets.
use ioflux.Prelude.{
  ℤ, pos, Option, List, lookup, Bool, String, int_eq, Bool-cases, ◌≡◌, arith, ◌∷◌, some, ◌<ℤ◌, true,
  ltb_ℤ, false, inl, [], if◌then◌else◌, string_eq, ◌⊎◌, lookup-insert, inr, ◌==◌, insert, sym, ◌∙◌,
  ltb_ℤ→lt, subst,
}
use ioflux.Trace.Types.{TargetInfo}
use ioflux.Prepare.{size_targets, size_target, compute_required_sizes, Metadata}

size_target-positive :
    (sizes : List (String × ℤ)) (tgt : TargetInfo) (x : ℤ) (name : String)
    → ((n : ℤ) → lookup name sizes ≡ some n → pos 0 <ℤ n)
    → (n : ℤ) → lookup name (size_target sizes tgt x) ≡ some n
    → pos 0 <ℤ n
unfolding size_target
size_target-positive sizes tgt x name old n e = elim (Bool-cases (ltb_ℤ (pos 0) tgt.size)) [
  | inl p ↦ inserted sizes tgt.name tgt.size name old (ltb_ℤ→lt (pos 0) tgt.size p) n (rw p at e)
  | inr p ↦ elim (Bool-cases (ltb_ℤ (pos 0) x)) [
    | inl q ↦ inserted sizes tgt.name x name old (ltb_ℤ→lt (pos 0) x q) n (rw (p, q) at e)
    | inr q ↦ old n (rw (p, q) at e)
  ]
]
  where
    chosen :
        (b : Bool) (x n : ℤ) (o : Option ℤ)
        → (if b then some x else o) ≡ some n
        → (x ≡ n) ⊎ (o ≡ some n)
    chosen true x n o e = inl (ground arith)
    chosen false x n o e = inr e

    inserted :
        (sizes : List (String × ℤ)) (key : String) (x : ℤ) (name : String)
        → ((n : ℤ) → lookup name sizes ≡ some n → pos 0 <ℤ n)
        → pos 0 <ℤ x
        → (n : ℤ) → lookup name (insert key x sizes) ≡ some n
        → pos 0 <ℤ n
    inserted sizes key x name old lt n e =
        elim (chosen (key == name) x n (lookup name sizes)
          (sym (lookup-insert key name x sizes) ∙ e)) [
            | inl p ↦ subst (λ (i : ℤ). pos 0 <ℤ i) p lt
            | inr p ↦ old n p
          ]

size_targets-positive :
    (targets : List TargetInfo) (sizes : List (String × ℤ)) (meta : Metadata) (name : String)
    → ((n : ℤ) → lookup name sizes ≡ some n → pos 0 <ℤ n)
    → (n : ℤ) → lookup name (size_targets sizes targets meta) ≡ some n
    → pos 0 <ℤ n
unfolding size_targets
size_targets-positive [] sizes meta name old n e = old n e
size_targets-positive (tgt ∷ targets) sizes meta name old n e =
    size_targets-positive targets _ meta name (size_target-positive sizes tgt _ name old) n e

-- A size that a target is required to have is positive.
pub required_sizes_positive :
    (targets : List TargetInfo) (meta : Metadata) (name : String) (n : ℤ)
    → lookup name (compute_required_sizes targets meta) ≡ some n
    → pos 0 <ℤ n
unfolding compute_required_sizes lookup
required_sizes_positive targets meta name n e =
    size_targets-positive targets [] meta name (λ m f. absurd (ground arith)) n e
