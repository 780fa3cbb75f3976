-- ===== src/Cluster/Partition/Errors.antt =====
-- pkg/cluster/coordinator.go: the error of an aborted run.
use ioflux.Prelude.{
  ℕ, List, Option, suc, All, some, get_elem?, none, ◌≡◌, inl, ◌⊎◌, take, ◌∷◌, inr, ◌+◌, arith,
  subst, ◌∙◌, refl, [],
}
use ioflux.Cluster.Partition.{canceled, failed_with, scan_run_errors, first_run_error, RunError}

-- A worker that did not fail on its own: it ended well or was cancelled.
abbrev pub NotOwn : Option RunError → Type 0
NotOwn none = Unit
NotOwn (some canceled) = Unit
NotOwn (some (failed_with why)) = ⊥

abbrev pub EndedWell : Option RunError → Type 0
EndedWell e = e ≡ none

-- The entry at `d` is the error, and the ones before it are such as `P` says.
abbrev pub FirstAt : (Option RunError → Type 0) → RunError → List (Option RunError) → ℕ → Type 0
FirstAt P why errs d = (get_elem? errs d ≡ some (some why)) × All P (take d errs)

abbrev Root : Option ℕ → ℕ → List (Option RunError) → Option (ℕ × RunError) → Type 0
Root first i errs none = (first ≡ none) × All EndedWell errs
Root first i errs (some (k, canceled)) =
    All NotOwn errs
    × ((first ≡ some k)
        ⊎ ((first ≡ none) × ((d : ℕ) × (k ≡ i + d) × FirstAt EndedWell canceled errs d)))
Root first i errs (some (k, failed_with why)) =
    (d : ℕ) × (k ≡ i + d) × FirstAt NotOwn (failed_with why) errs d

-- A worker before these that ended well.
later :
    (first : Option ℕ) (i : ℕ) (errs : List (Option RunError)) (r : Option (ℕ × RunError))
    → Root first (suc i) errs r
    → Root first i (none ∷ errs) r
later first i errs none (e, a) = (e, (refl, a))
later first i errs (some (k, canceled)) (a, inl e) = ((tt, a), inl e)
later first i errs (some (k, canceled)) (a, inr (e, (d, f, (g, b)))) =
    ((tt, a), inr (e, (suc d, omega arith, (g, (refl, b)))))
later first i errs (some (k, failed_with why)) (d, f, (g, b)) = (suc d, omega arith, (g, (tt, b)))

-- A worker before these that was cancelled, the first or not.
after_cancel :
    (first : Option ℕ) (j i : ℕ) (errs : List (Option RunError)) (r : Option (ℕ × RunError))
    → (first ≡ none) × (j ≡ i) ⊎ (first ≡ some j)
    → Root (some j) (suc i) errs r
    → Root first i (some canceled ∷ errs) r
after_cancel first j i errs none h (e, a) = cc
after_cancel first j i errs (some (k, canceled)) h (a, inr (e, _)) = cc
after_cancel first j i errs (some (k, canceled)) (inl (e, f)) (a, inl g) =
    let same : j ≡ k = cc in ((tt, a), inr (e, (0, omega arith, (refl, tt))))
after_cancel first j i errs (some (k, canceled)) (inr e) (a, inl g) = ((tt, a), inl (e ∙ g))
after_cancel first j i errs (some (k, failed_with why)) h (d, f, (g, b)) =
    (suc d, omega arith, (g, (tt, b)))

scan-Root :
    (first : Option ℕ) (i : ℕ) (errs : List (Option RunError))
    → Root first i errs (scan_run_errors first i errs)
unfolding scan_run_errors
scan-Root none i [] = (refl, tt)
scan-Root (some j) i [] = (tt, inl refl)
scan-Root none i (none ∷ errs) = later none i errs _ (scan-Root none (suc i) errs)
scan-Root (some j) i (none ∷ errs) = later (some j) i errs _ (scan-Root (some j) (suc i) errs)
scan-Root none i (some canceled ∷ errs) =
    after_cancel none i i errs _ (inl (refl, refl)) (scan-Root (some i) (suc i) errs)
scan-Root (some j) i (some canceled ∷ errs) =
    after_cancel (some j) j i errs _ (inr refl) (scan-Root (some j) (suc i) errs)
scan-Root none i (some (failed_with why) ∷ errs) = (0, omega arith, (refl, tt))
scan-Root (some j) i (some (failed_with why) ∷ errs) = (0, omega arith, (refl, tt))

-- What an aborted run reports of the workers' errors.
abbrev pub RootCause : List (Option RunError) → Option (ℕ × RunError) → Type 0
RootCause errs none = All EndedWell errs
RootCause errs (some (i, canceled)) = All NotOwn errs × FirstAt EndedWell canceled errs i
RootCause errs (some (i, failed_with why)) = FirstAt NotOwn (failed_with why) errs i

RootCause-of :
    (errs : List (Option RunError)) (r : Option (ℕ × RunError))
    → Root none 0 errs r
    → RootCause errs r
RootCause-of errs none (e, a) = a
RootCause-of errs (some (k, canceled)) (a, inl e) = cc
RootCause-of errs (some (k, canceled)) (a, inr (e, (d, f, g))) =
    let same : d ≡ k = omega arith in
    (a, subst (λ (i : ℕ). FirstAt EndedWell canceled errs i) same g)
RootCause-of errs (some (k, failed_with why)) (d, f, g) =
    let same : d ≡ k = omega arith in
    subst (λ (i : ℕ). FirstAt NotOwn (failed_with why) errs i) same g

-- A run reports the first worker that failed on its own, whatever cancellations come before it; the
-- first cancellation where none did; and no error exactly where every worker ended well.
pub first_run_error-RootCause :
    (errs : List (Option RunError)) → RootCause errs (first_run_error errs)
unfolding first_run_error
first_run_error-RootCause errs = RootCause-of errs _ (scan-Root none 0 errs)
