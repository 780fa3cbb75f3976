-- ===== src/Importer/FdTable/Handles.antt =====
-- pkg/importer/fdtable.go: handles are never shared and never given twice.
use ioflux.Prelude.{
  ℕ, ◌<◌, ◌≤◌, Bool, true, false, Option, none, some, List, [], ◌∷◌, ◌≡◌, refl, arith, ℤ, String,
  if◌then◌else◌, lookup, ◌⊎◌, ◌==◌, pair_eq, int_eq, lookup-insert, Bool-cases, inl, ◌∙◌, ap, inr,
  sym, pair_beq_iff, lookup-erase, false,
}
use ioflux.Importer.FdTable.{
  Entry, FdTable, FdKey, open_fd, open_dir, advance, set_cursor, close_fd, update_entry,
  close_entry, new_fd_table,
}

-- The calls that change a table.
pub data Call : Type 0 where
  opening : FdKey → ℤ → String → Bool → Call
  opening_dir : FdKey → String → Call
  advancing : FdKey → ℤ → Call
  seeking : FdKey → ℤ → Call
  closing : FdKey → Call

-- The table after a call, and the handle that the call gives out or gives back.
unfoldable pub perform : Call → FdTable → FdTable × Option ℕ
unfolding open_fd open_dir advance set_cursor close_fd
perform (opening k target path mode) t = let (t', h) = open_fd k target path mode t in (t', some h)
perform (opening_dir k path) t = (open_dir k path t, none)
perform (advancing k n) t = (advance k n t, none)
perform (seeking k p) t = (set_cursor k p t, none)
perform (closing k) t = close_fd k t

unfoldable pub perform_all : List Call → FdTable → FdTable
perform_all [] t = t
perform_all (c ∷ cs) t = perform_all cs (perform c t).0

-- The handle that a key holds.
abbrev pub handle_of : Option Entry → Option ℕ
handle_of none = none
handle_of (some e) = if e.has_handle then some e.handle else none

abbrev pub held : FdTable → FdKey → Option ℕ
held t k = handle_of (lookup k t.entries)

-- Every handle in the table is below the next one, and no two descriptors hold the same.
pub record IsSound (t : FdTable) : Type 0 where
  pub below : (k : FdKey) (h : ℕ) → held t k ≡ some h → h < t.next_handle
  pub apart : (j k : FdKey) (h : ℕ) → held t j ≡ some h → held t k ≡ some h → j ≡ k

module _ (t : FdTable) where
  pub held-open_fd :
      (i : FdKey) (target : ℤ) (path : String) (mode : Bool) (k : FdKey)
      → held (open_fd i target path mode t).0 k ≡ (if i == k then some t.next_handle else held t k)
  unfolding open_fd
  held-open_fd i target path mode k = rw lookup-insert (ground arith)

  held-open_dir :
      (i : FdKey) (path : String) (k : FdKey)
      → held (open_dir i path t) k ≡ (if i == k then none else held t k)
  unfolding open_dir
  held-open_dir i path k = rw lookup-insert (ground arith)

  -- A change that leaves an entry's handle alone.
  held-update_entry :
      (o : Option Entry) (f : Entry → Entry) (i k : FdKey)
      → ((e : Entry) → handle_of (some (f e)) ≡ handle_of (some e))
      → o ≡ lookup i t.entries
      → held (update_entry o f i t) k ≡ held t k
  unfolding update_entry
  held-update_entry none f i k same e = refl
  held-update_entry (some x) f i k same e = elim (Bool-cases (i == k)) [
    | inl p ↦
        rw (lookup-insert, p)
          (same x ∙ ap handle_of (e ∙ ap (λ j. lookup j t.entries) ((pair_beq_iff i k).0 p)))
    | inr p ↦ rw (lookup-insert, p)
  ]

  held-close_entry :
      (o : Option Entry) (i k : FdKey)
      → o ≡ lookup i t.entries
      → held (close_entry o i t).0 k ≡ (if i == k then none else held t k)
  unfolding close_entry
  held-close_entry none i k e = elim (Bool-cases (i == k)) [
    | inl p ↦
        rw p (ap handle_of (ap (λ j. lookup j t.entries) (sym ((pair_beq_iff i k).0 p)) ∙ sym e))
    | inr p ↦ rw p
  ]
  held-close_entry (some x) i k e = rw lookup-erase (ground arith)

  pub back-close_entry : (o : Option Entry) (i : FdKey) → (close_entry o i t).1 ≡ handle_of o
  unfolding close_entry
  back-close_entry none i = refl
  back-close_entry (some x) i = refl

  pub next-close_entry :
      (o : Option Entry) (i : FdKey) → (close_entry o i t).0.next_handle ≡ t.next_handle
  unfolding close_entry
  next-close_entry none i = refl
  next-close_entry (some x) i = refl

  pub next-update_entry :
      (o : Option Entry) (f : Entry → Entry) (i : FdKey)
      → (update_entry o f i t).next_handle ≡ t.next_handle
  unfolding update_entry
  next-update_entry none f i = refl
  next-update_entry (some x) f i = refl

  -- A table whose handles are those of a sound one, but for the new handle at one key, is sound.
  IsSound-of_held :
      (t' : FdTable) (i : FdKey)
      → IsSound t
      → t.next_handle ≤ t'.next_handle
      → ((k : FdKey) (h : ℕ)
          → held t' k ≡ some h
          → (held t k ≡ some h) ⊎ ((i ≡ k) × (h ≡ t.next_handle) × (h < t'.next_handle)))
      → IsSound t'
  IsSound-of_held t' i v le old = record {
    below = λ k h e. elim (old k h e) [
      | inl p ↦ let lt = v.below k h p in omega arith
      | inr (same, h', lt) ↦ lt
    ];
    apart = λ j k h e e'. elim (old j h e) [
      | inl p ↦ elim (old k h e') [
        | inl q ↦ v.apart j k h p q
        | inr (same, h', lt) ↦ let low = v.below j h p in absurd (omega arith)
      ]
      | inr (same, h', lt) ↦ elim (old k h e') [
        | inl q ↦ let low = v.below k h q in absurd (omega arith)
        | inr (same', h'', lt') ↦ sym same ∙ same'
      ]
    ];
  }

pub unless_same : (b : Bool) (o : Option ℕ) (h : ℕ) → (if b then none else o) ≡ some h → o ≡ some h
unless_same true o h e = absurd (ground arith)
unless_same false o h e = e

pub new_or_old {ℓ} :
    {P : Type ℓ} (b : Bool) (o : Option ℕ) (n h : ℕ)
    → (b ≡ true → P)
    → (if b then some n else o) ≡ some h
    → (o ≡ some h) ⊎ (P × (h ≡ n))
new_or_old true o n h f e = inr (f refl, ground arith)
new_or_old false o n h f e = inl e

module _ (t : FdTable) where
  -- What a call does to the handle that a key holds.
  abbrev pub held_after : Call → FdKey → Option ℕ
  held_after (opening i target path mode) k = if i == k then some t.next_handle else held t k
  held_after (opening_dir i path) k = if i == k then none else held t k
  held_after (advancing i n) k = held t k
  held_after (seeking i p) k = held t k
  held_after (closing i) k = if i == k then none else held t k

  pub held-perform : (c : Call) (k : FdKey) → held (perform c t).0 k ≡ held_after c k
  unfolding perform advance set_cursor close_fd
  held-perform (opening i target path mode) k = held-open_fd t i target path mode k
  held-perform (opening_dir i path) k = held-open_dir t i path k
  held-perform (advancing i n) k = held-update_entry t _ _ i k (λ e. refl) refl
  held-perform (seeking i p) k = held-update_entry t _ _ i k (λ e. refl) refl
  held-perform (closing i) k = held-close_entry t _ i k refl

  next-perform : (c : Call) → t.next_handle ≤ (perform c t).0.next_handle
  unfolding perform open_fd open_dir advance set_cursor close_fd
  next-perform (opening i target path mode) = omega arith
  next-perform (opening_dir i path) = omega arith
  next-perform (advancing i n) = rw next-update_entry (omega arith)
  next-perform (seeking i p) = rw next-update_entry (omega arith)
  next-perform (closing i) = rw next-close_entry (omega arith)

  -- The key that a call is about.
  abbrev key_of : Call → FdKey
  key_of (opening i _ _ _) = i
  key_of (opening_dir i _) = i
  key_of (advancing i _) = i
  key_of (seeking i _) = i
  key_of (closing i) = i

  old-perform :
      (c : Call) (k : FdKey) (h : ℕ)
      → held_after c k ≡ some h
      → (held t k ≡ some h)
        ⊎ ((key_of c ≡ k) × (h ≡ t.next_handle) × (h < (perform c t).0.next_handle))
  unfolding perform open_fd
  old-perform (opening i target path mode) k h e =
      elim (new_or_old (i == k) (held t k) t.next_handle h (pair_beq_iff i k).0 e) [
        | inl p ↦ inl p
        | inr (p, q) ↦ inr (p, q, omega arith)
      ]
  old-perform (opening_dir i path) k h e = inl (unless_same (i == k) (held t k) h e)
  old-perform (advancing i n) k h e = inl e
  old-perform (seeking i p) k h e = inl e
  old-perform (closing i) k h e = inl (unless_same (i == k) (held t k) h e)

  pub perform-IsSound : (c : Call) → IsSound t → IsSound (perform c t).0
  perform-IsSound c v =
      IsSound-of_held t (perform c t).0 (key_of c) v (next-perform c)
        (λ k h e. old-perform c k h (sym (held-perform c k) ∙ e))

perform_all-IsSound : (cs : List Call) (t : FdTable) → IsSound t → IsSound (perform_all cs t)
unfolding perform_all
perform_all-IsSound [] t v = v
perform_all-IsSound (c ∷ cs) t v = perform_all-IsSound cs (perform c t).0 (perform-IsSound t c v)

pub new_fd_table-held : (k : FdKey) → held new_fd_table k ≡ none
unfolding lookup
new_fd_table-held k = refl

none≢some : (o : Option ℕ) (h : ℕ) → o ≡ none → o ≡ some h → ⊥
none≢some o h e f = ground arith

pub new_fd_table-IsSound : IsSound new_fd_table
new_fd_table-IsSound = record {
  below = λ k h e. absurd (none≢some (held new_fd_table k) h (new_fd_table-held k) e);
  apart = λ j k h e e'. absurd (none≢some (held new_fd_table k) h (new_fd_table-held k) e');
}

-- After any calls on a new table, every handle that a descriptor holds was given out before, since
-- it is below the next one to be given out, and no two descriptors hold the same handle.
pub handles_apart : (cs : List Call) → IsSound (perform_all cs new_fd_table)
handles_apart cs = perform_all-IsSound cs new_fd_table new_fd_table-IsSound
