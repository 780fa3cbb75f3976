-- ===== src/Importer/Tracked/Tables.antt =====
-- pkg/importer: the changes of a descriptor table that give out no handle.
use ioflux.Prelude.{
  pair_eq, int_eq, ℕ, ℤ, Option, ◌≡◌, none, refl, some, ◌≢◌, sym, ◌==◌, true, false, ◌∙◌,
  Bool-cases, inl, int_eq, inr, nat_eq, String, pair_beq_iff, lookup,
}
use ioflux.Importer.FdTable.{FdTable, FdKey, close_fd, open_dir, set_cursor, advance}
use ioflux.Importer.FdTable.Handles.{
  IsSound, held, perform-IsSound, perform, held-perform, advancing, closing, opening_dir, seeking,
  unless_same, next-update_entry, back-close_entry, next-close_entry,
}

-- The table holds no handle that it did not.
abbrev pub HoldsLess : FdTable → FdTable → Type 0
HoldsLess t t' =
    IsSound t'
    × (t.next_handle ≡ t'.next_handle)
    × ((k : FdKey) (h : ℕ) → held t' k ≡ some h → held t k ≡ some h)

-- The tables that hold no more than before.
pub HoldsLess-self : (t : FdTable) → IsSound t → HoldsLess t t
HoldsLess-self t v = (v, refl, λ k h e. e)

pub HoldsLess-advance : (t : FdTable) (i : FdKey) (n : ℤ) → IsSound t → HoldsLess t (advance i n t)
unfolding perform advance
HoldsLess-advance t i n v = (
  perform-IsSound t (advancing i n) v,
  sym (next-update_entry t _ _ i),
  λ k h e. sym (held-perform t (advancing i n) k) ∙ e,
)

pub HoldsLess-set_cursor :
    (t : FdTable) (i : FdKey) (n : ℤ) → IsSound t → HoldsLess t (set_cursor i n t)
unfolding perform set_cursor
HoldsLess-set_cursor t i n v = (
  perform-IsSound t (seeking i n) v,
  sym (next-update_entry t _ _ i),
  λ k h e. sym (held-perform t (seeking i n) k) ∙ e,
)

pub HoldsLess-open_dir :
    (t : FdTable) (i : FdKey) (path : String) → IsSound t → HoldsLess t (open_dir i path t)
unfolding perform open_dir
HoldsLess-open_dir t i path v = (
  perform-IsSound t (opening_dir i path) v,
  refl,
  λ k h e. unless_same (i == k) (held t k) h (sym (held-perform t (opening_dir i path) k) ∙ e),
)

pub HoldsLess-close : (t : FdTable) (i : FdKey) → IsSound t → HoldsLess t (close_fd i t).0
unfolding perform close_fd
HoldsLess-close t i v = (
  perform-IsSound t (closing i) v,
  sym (next-close_entry t (lookup i t.entries) i),
  λ k h e. unless_same (i == k) (held t k) h (sym (held-perform t (closing i) k) ∙ e),
)

-- The handle that a descriptor gives back when it closes is the one it held, and no key holds it any
-- more.
pub back-close_fd : (t : FdTable) (i : FdKey) → (close_fd i t).1 ≡ held t i
unfolding close_fd
back-close_fd t i = back-close_entry t (lookup i t.entries) i

pub gone-close_fd :
    (t : FdTable) (i k : FdKey) (h : ℕ)
    → IsSound t
    → held t i ≡ some h
    → held (close_fd i t).0 k ≢ some h
unfolding perform
gone-close_fd t i k h v was e = elim (Bool-cases (i == k)) [
  | inl q ↦ absurd (none_some h (sym (held-perform t (closing i) k ∙ rw q) ∙ e))
  | inr q ↦
      let still : held t k ≡ some h = sym (held-perform t (closing i) k ∙ rw q) ∙ e in
      let q' : false ≡ true = sym q ∙ (pair_beq_iff i k).1 (v.apart i k h was still) in
      absurd (false≢true q')
]
  where
    none_some : (h : ℕ) → ◌≢◌ {A = Option ℕ} none (some h)
    none_some h e = cc

    false≢true : false ≢ true
    false≢true e = cc
