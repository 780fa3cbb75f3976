-- ===== src/Importer/FdTable/Returned.antt =====
-- pkg/importer/fdtable.go: a close gives back what the open before it gave out.
use ioflux.Prelude.{
  Bool, false, some, List, [], ◌∷◌, ◌≡◌, refl, ℤ, String, ◌==◌, pair_eq, int_eq, ◌∙◌, pair_beq_iff,
  false, All,
}
use ioflux.Importer.FdTable.{FdTable, FdKey, open_fd, close_fd}
use ioflux.Importer.FdTable.Handles.{
  advancing, closing, opening, opening_dir, seeking, perform_all, held, Call, back-close_entry,
  held_after, held-open_fd, perform, held-perform,
}

-- The call neither opens nor closes this key.
abbrev pub Spares : FdKey → Call → Type 0
Spares k (opening i _ _ _) = (i == k) ≡ false
Spares k (opening_dir i _) = (i == k) ≡ false
Spares k (advancing i _) = Unit {0}
Spares k (seeking i _) = Unit {0}
Spares k (closing i) = (i == k) ≡ false

held_after-Spares : (t : FdTable) (c : Call) (k : FdKey) → Spares k c → held_after t c k ≡ held t k
held_after-Spares t (opening i _ _ _) k s = rw s
held_after-Spares t (opening_dir i _) k s = rw s
held_after-Spares t (advancing i _) k s = refl
held_after-Spares t (seeking i _) k s = refl
held_after-Spares t (closing i) k s = rw s

held-perform_all :
    (cs : List Call) (t : FdTable) (k : FdKey)
    → All (Spares k) cs
    → held (perform_all cs t) k ≡ held t k
unfolding perform_all
held-perform_all [] t k a = refl
held-perform_all (c ∷ cs) t k (s, a) =
    held-perform_all cs (perform c t).0 k a ∙ held-perform t c k ∙ held_after-Spares t c k s

held-opened :
    (t : FdTable) (k : FdKey) (target : ℤ) (path : String) (mode : Bool)
    → held (open_fd k target path mode t).0 k ≡ some (open_fd k target path mode t).1
unfolding open_fd
held-opened t k target path mode =
    held-open_fd t k target path mode k ∙ rw (pair_beq_iff k k).1 refl

pub given-open_fd :
    (t : FdTable) (k : FdKey) (target : ℤ) (path : String) (mode : Bool)
    → (open_fd k target path mode t).1 ≡ t.next_handle
unfolding open_fd
given-open_fd t k target path mode = refl

-- The handle that opening a descriptor gives out is the one that its closing gives back, whatever is
-- done in between to it by reads and seeks, and to other descriptors by any call.
pub close-open :
    (t : FdTable) (k : FdKey) (target : ℤ) (path : String) (mode : Bool) (cs : List Call)
    → All (Spares k) cs
    → (close_fd k (perform_all cs (open_fd k target path mode t).0)).1
      ≡ some (open_fd k target path mode t).1
unfolding close_fd
close-open t k target path mode cs a =
    back-close_entry _ _ k
    ∙ held-perform_all cs (open_fd k target path mode t).0 k a
    ∙ held-opened t k target path mode
