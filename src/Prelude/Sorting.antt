-- ===== src/Prelude/Sorting.antt =====
-- The stable sorts of Go's library: slices.Sort, slices.SortStableFunc and sort.SliceStable.
use mathlib.Core.Path.{◌≡◌, refl, sym, subst, ap, ◌∙◌}
use mathlib.Core.Bool.{Bool, true, false}
use mathlib.Core.Logic.{inl, inr}
use mathlib.Core.List.{List, [], ◌∷◌, Permᴰ, Memᴰ}
use mathlib.Core.List.Permᴰ
use mathlib.Core.List.Permᴰ.{nil, cons, swap, trans}
use mathlib.Core.List.Memᴰ.{head, tail}
use ioflux.Prelude.Tests.{if◌then◌else◌, Bool-cases}
use ioflux.Prelude.Lists.{keep, All, All-imp, Ordered}

-- The sorted list, by a test that the first of two may stay before the second.
module _ {ℓ} {A : Type ℓ} (stays : A → A → Bool) where
  unfoldable pub insert_sorted : A → List A → List A
  insert_sorted x [] = x ∷ []
  insert_sorted x (y ∷ ys) =
      let rest = insert_sorted x ys in if stays x y then x ∷ y ∷ ys else y ∷ rest

  unfoldable pub sort_stable : List A → List A
  unfolding insert_sorted
  sort_stable [] = []
  sort_stable (x ∷ xs) = insert_sorted x (sort_stable xs)

module _ {ℓ} {A : Type ℓ} (stays : A → A → Bool) (R : A → A → Type 0)
    (yes : (x y : A) → stays x y ≡ true → R x y) (no : (x y : A) → stays x y ≡ false → R y x)
    (trans : (x y z : A) → R x y → R y z → R x z) where
  insert_sorted-All :
      (P : A → Type 0) (x : A) (ys : List A) → P x → All P ys → All P (insert_sorted stays x ys)
  unfolding insert_sorted
  insert_sorted-All P x [] p ps = (p, tt)
  insert_sorted-All P x (y ∷ ys) p (q, ps) = elim (Bool-cases (stays x y)) [
    | inl e ↦ rw e (p, (q, ps))
    | inr e ↦ rw e (q, insert_sorted-All P x ys p ps)
  ]

  insert_sorted-Ordered :
      (x : A) (ys : List A) → Ordered R ys → Ordered R (insert_sorted stays x ys)
  unfolding insert_sorted
  insert_sorted-Ordered x [] o = (tt, tt)
  insert_sorted-Ordered x (y ∷ ys) (a, o) = elim (Bool-cases (stays x y)) [
    | inl e ↦
        let r = yes x y e in rw e ((r, All-imp (R y) (R x) ys (λ z q. trans x y z r q) a), (a, o))
    | inr e ↦ rw e (insert_sorted-All (R y) x ys (no x y e) a, insert_sorted-Ordered x ys o)
  ]

  pub sort_stable-Ordered : (xs : List A) → Ordered R (sort_stable stays xs)
  unfolding sort_stable
  sort_stable-Ordered [] = tt
  sort_stable-Ordered (x ∷ xs) =
      insert_sorted-Ordered x (sort_stable stays xs) (sort_stable-Ordered xs)

module _ {ℓ} {A : Type ℓ} (stays : A → A → Bool) where
  insert_sorted-Permᴰ : (x : A) (ys : List A) → Permᴰ (x ∷ ys) (insert_sorted stays x ys)
  unfolding insert_sorted
  insert_sorted-Permᴰ x [] = Permᴰ.refl (x ∷ [])
  insert_sorted-Permᴰ x (y ∷ ys) = elim (Bool-cases (stays x y)) [
    | inl e ↦ rw e (Permᴰ.refl (x ∷ y ∷ ys))
    | inr e ↦ rw e (trans (swap refl refl) (cons refl (insert_sorted-Permᴰ x ys)))
  ]

  -- Sorting loses no entry and adds none.
  pub sort_stable-Permᴰ : (xs : List A) → Permᴰ xs (sort_stable stays xs)
  unfolding sort_stable
  sort_stable-Permᴰ [] = nil
  sort_stable-Permᴰ (x ∷ xs) =
      trans (cons refl (sort_stable-Permᴰ xs)) (insert_sorted-Permᴰ x (sort_stable stays xs))

module _ {ℓ κ} {A : Type ℓ} (P : A → Type κ) where
  pub All-Permᴰ : {xs ys : List A} → Permᴰ xs ys → All P xs → All P ys
  All-Permᴰ nil h = tt
  All-Permᴰ (cons e d) (p, h) = (subst P e p, All-Permᴰ d h)
  All-Permᴰ (swap e f) (p, (q, h)) = (subst P f q, (subst P e p, h))
  All-Permᴰ (trans d f) h = All-Permᴰ f (All-Permᴰ d h)

  pub All-Memᴰ : {x : A} (xs : List A) → All P xs → Memᴰ x xs → P x
  All-Memᴰ [] h m = elim m [ ]
  All-Memᴰ (y ∷ ys) (p, h) (head e) = subst P (sym e) p
  All-Memᴰ (y ∷ ys) (p, h) (tail m) = All-Memᴰ ys h m

  pub All-of : (xs : List A) → ((x : A) → Memᴰ x xs → P x) → All P xs
  All-of [] f = tt
  All-of (x ∷ xs) f = (f x (head refl), All-of xs (λ y m. f y (tail m)))

module _ {ℓ} {A : Type ℓ} where
  pub Memᴰ-Permᴰ : {x : A} {xs ys : List A} → Permᴰ xs ys → Memᴰ x ys → Memᴰ x xs
  Memᴰ-Permᴰ {xs = xs} {ys = ys} d m =
      All-Memᴰ (λ y. Memᴰ y xs) ys (All-Permᴰ (λ y. Memᴰ y xs) d (All-of _ xs (λ y n. n))) m

-- The entries that pass a test, where they are in order already, come out of the sort as they were.
module _ {ℓ} {A : Type ℓ} (stays : A → A → Bool) (passes : A → Bool) where
  abbrev InOrder : A → A → Type 0
  InOrder x y = stays x y ≡ true

  -- Past an entry that comes first.
  keep-behind :
      (x y : A) (ys rest : List A)
      → stays x y ≡ false
      → (passes x ≡ true → All (InOrder x) (keep passes (y ∷ ys)))
      → keep passes rest ≡ keep passes (x ∷ ys)
      → keep passes (y ∷ rest) ≡ keep passes (x ∷ y ∷ ys)
  keep-behind x y ys rest e a ih = elim (Bool-cases (passes x)) [
    | inl px ↦ elim (Bool-cases (passes y)) [
      | inl py ↦ absurd (true≢false (sym (head_of py (a px)) ∙ e))
      | inr py ↦ rw (py, px) (ih ∙ rw px)
    ]
    | inr px ↦ elim (Bool-cases (passes y)) [
      | inl py ↦ rw (py, px) (ap (λ zs. y ∷ zs) (ih ∙ rw px))
      | inr py ↦ rw (py, px) (ih ∙ rw px)
    ]
  ]
    where
      true≢false : true ≡ false → ⊥
      true≢false q = cc

      head_of : passes y ≡ true → All (InOrder x) (keep passes (y ∷ ys)) → stays x y ≡ true
      head_of py h = (rw py at h).0

  tail_of :
      (x y : A) (ys : List A)
      → All (InOrder x) (keep passes (y ∷ ys))
      → All (InOrder x) (keep passes ys)
  tail_of x y ys h = elim (Bool-cases (passes y)) [ inl py ↦ (rw py at h).1 | inr py ↦ rw py at h ]

  keep-insert_sorted :
      (x : A) (ys : List A)
      → (passes x ≡ true → All (InOrder x) (keep passes ys))
      → keep passes (insert_sorted stays x ys) ≡ keep passes (x ∷ ys)
  unfolding insert_sorted
  keep-insert_sorted x [] a = refl
  keep-insert_sorted x (y ∷ ys) a = elim (Bool-cases (stays x y)) [
    | inl e ↦ rw e
    | inr e ↦
        let ih = keep-insert_sorted x ys (λ px. tail_of x y ys (a px)) in
        rw e (keep-behind x y ys (insert_sorted stays x ys) e a ih)
  ]

  pub keep-sort_stable :
      (xs : List A)
      → Ordered InOrder (keep passes xs)
      → keep passes (sort_stable stays xs) ≡ keep passes xs
  unfolding sort_stable
  keep-sort_stable [] o = refl
  keep-sort_stable (x ∷ xs) o = elim (Bool-cases (passes x)) [
    | inl px ↦
        let (a, o') = rw px at o in
        let ih = keep-sort_stable xs o' in
        keep-insert_sorted x (sort_stable stays xs) (λ q. rw ih a) ∙ rw (px, ih)
    | inr px ↦
        let ih = keep-sort_stable xs (rw px at o) in
        keep-insert_sorted x (sort_stable stays xs) (λ q. absurd (clash q px)) ∙ rw (px, ih)
  ]
    where
      clash : passes x ≡ true → passes x ≡ false → ⊥
      clash q r = cc

-- A symmetric relation between every two entries survives the sort.
module _ {ℓ} {A : Type ℓ} (stays : A → A → Bool) (R : A → A → Type 0)
    (flip : (x y : A) → R x y → R y x) where
  insert_sorted-symmetric :
      (x : A) (ys : List A) → All (R x) ys → Ordered R ys → Ordered R (insert_sorted stays x ys)
  unfolding insert_sorted
  insert_sorted-symmetric x [] a o = (tt, tt)
  insert_sorted-symmetric x (y ∷ ys) (r, a) (b, o) = elim (Bool-cases (stays x y)) [
    | inl e ↦ rw e ((r, a), (b, o))
    | inr e ↦ rw e (
      All-Permᴰ (R y) (insert_sorted-Permᴰ stays x ys) (flip x y r, b),
      insert_sorted-symmetric x ys a o,
    )
  ]

  pub sort_stable-symmetric : (xs : List A) → Ordered R xs → Ordered R (sort_stable stays xs)
  unfolding sort_stable
  sort_stable-symmetric [] o = tt
  sort_stable-symmetric (x ∷ xs) (a, o) =
      insert_sorted-symmetric x (sort_stable stays xs)
        (All-Permᴰ (R x) (sort_stable-Permᴰ stays xs) a) (sort_stable-symmetric xs o)
