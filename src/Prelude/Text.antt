-- ===== src/Prelude/Text.antt =====
-- Go's strings as native ones: the test and the removal of a prefix, and the text
-- before a separator.
use Prim.Native.Nat.{ℕ}
use Prim.Native.Char.{Char, code}
use Prim.Native.String.{String, ◌++◌}
use mathlib.Core.Path.{◌≡◌, sym, ap₂, ◌∙◌}
use mathlib.Core.Logic.{inl, inr}
use mathlib.Core.Bool.{Bool, true, false, ◌&&◌}
use mathlib.Core.Option.{Option, none, some}
use mathlib.Core.List.{List, [], ◌∷◌}
use text.Mathlib.TextEquality.{Char-path}
use text.Mathlib.TextLemmas.{nil-append, cons-append}
use ioflux.Prelude.Tests.{◌==◌, nat_eq, nat_beq_iff, if◌then◌else◌, Bool-cases, is_some, Equality}

abbrev pub text_append : String → String → String
text_append s t = s ++ t

-- s[len(prefix):] where strings.HasPrefix(s, prefix), else none.
unfoldable pub cut_prefix : String → String → Option String
cut_prefix String.[] s = some s
cut_prefix (String.◌∷◌ c p) String.[] = none
cut_prefix (String.◌∷◌ c p) (String.◌∷◌ d s) =
    let rest = cut_prefix p s in if code c == code d then rest else none

-- strings.TrimPrefix
unfoldable pub trim_prefix : String → String → String
unfolding cut_prefix
trim_prefix s p = elim (cut_prefix p s) [ none ↦ s | some rest ↦ rest ]

-- The code points: the bytes, of an ASCII text.
abbrev pub codes : String → List ℕ
codes String.[] = []
codes (String.◌∷◌ c s) = code c ∷ codes s

abbrev cons_text : Char → Option String → Option String
cons_text c none = none
cons_text c (some s) = some (String.◌∷◌ c s)

-- s[:i] at the first index i of the separator in s, for a separator that is not empty.
unfoldable pub before_first : String → String → Option String
unfolding cut_prefix
before_first separator String.[] = none
before_first separator (String.◌∷◌ c s) =
    let rest = before_first separator s in
    if is_some (cut_prefix separator (String.◌∷◌ c s)) then some String.[] else cons_text c rest

module _ {ℓ} {A : Type ℓ} ⦃e : Equality A⦄ where
  abbrev pub equal_lists : List A → List A → Bool
  equal_lists [] [] = true
  equal_lists (x ∷ xs) (y ∷ ys) = x == y && equal_lists xs ys
  equal_lists _ _ = false

-- What is cut off and what is left make up the text.
pub cut_prefix-append : (p s rest : String) → cut_prefix p s ≡ some rest → s ≡ text_append p rest
unfolding cut_prefix
cut_prefix-append String.[] s rest e = let e' : s ≡ rest = cc in e' ∙ sym (nil-append rest)
cut_prefix-append (String.◌∷◌ c p) String.[] rest e = cc
cut_prefix-append (String.◌∷◌ c p) (String.◌∷◌ d s) rest e = elim (Bool-cases (code c == code d)) [
  | inl q ↦
      let same = Char-path d c (sym ((nat_beq_iff (code c) (code d)).0 q)) in
      let tail = cut_prefix-append p s rest (rw q at e) in
      ap₂ (λ (x : Char) (y : String). String.◌∷◌ x y) same tail ∙ sym (cons-append c p rest)
  | inr q ↦ let e' : Path (Option String) none (some rest) = rw q at e in cc
]
