-- ===== src/Importer/FdTable.antt =====
-- pkg/importer/fdtable.go. A descriptor is keyed by its stream and number. The counter of handles is
-- a number without bound: it counts the calls of `Open`.
pub mod Handles
pub mod Returned
use ioflux.Prelude.{
  ℕ, suc, Bool, true, false, Option, none, some, List, [], ◌∷◌, ℤ, pos, String, erase, insert,
  lookup, if◌then◌else◌, add64, pair_eq, int_eq,
}

pub record Entry : Type 0 where
  pub has_handle : Bool
  pub handle : ℕ
  pub target_id : ℤ
  pub cursor : ℤ
  pub path : String
  pub append_mode : Bool

abbrev pub FdKey : Type 0
FdKey = ℤ × ℤ

pub record FdTable : Type 0 where
  pub entries : List (FdKey × Entry)
  pub next_handle : ℕ

abbrev pub new_fd_table : FdTable
new_fd_table = record { entries = []; next_handle = 0 }

unfoldable pub open_fd : FdKey → ℤ → String → Bool → FdTable → FdTable × ℕ
open_fd k target_id path append_mode t =
    let e : Entry = record {
      has_handle = true;
      handle = t.next_handle;
      target_id = target_id;
      cursor = pos 0;
      path = path;
      append_mode = append_mode;
    } in
    (record { entries = insert k e t.entries; next_handle = suc t.next_handle }, t.next_handle)

unfoldable pub open_dir : FdKey → String → FdTable → FdTable
open_dir k path t =
    let e : Entry = record {
      has_handle = false;
      handle = 0;
      target_id = pos 0;
      cursor = pos 0;
      path = path;
      append_mode = false;
    } in
    record t { entries = insert k e t.entries }

unfoldable pub resolve : FdKey → FdTable → Option Entry
resolve k t = lookup k t.entries

abbrev pub path_of : Option Entry → Option String
path_of none = none
path_of (some e) = some e.path

unfoldable pub path_for : FdKey → FdTable → Option String
path_for k t = path_of (lookup k t.entries)

-- A change of the entry that a key has, and nothing where it has none.
unfoldable pub update_entry : Option Entry → (Entry → Entry) → FdKey → FdTable → FdTable
update_entry none f k t = t
update_entry (some e) f k t = record t { entries = insert k (f e) t.entries }

unfoldable pub advance : FdKey → ℤ → FdTable → FdTable
unfolding update_entry
advance k n t = update_entry (lookup k t.entries) (λ e. record e { cursor = add64 e.cursor n }) k t

unfoldable pub set_cursor : FdKey → ℤ → FdTable → FdTable
unfolding update_entry
set_cursor k p t = update_entry (lookup k t.entries) (λ e. record e { cursor = p }) k t

unfoldable pub close_entry : Option Entry → FdKey → FdTable → FdTable × Option ℕ
close_entry none k t = (t, none)
close_entry (some e) k t =
    (record t { entries = erase k t.entries }, if e.has_handle then some e.handle else none)

-- `some h` is the result (h, true).
unfoldable pub close_fd : FdKey → FdTable → FdTable × Option ℕ
unfolding close_entry
close_fd k t = close_entry (lookup k t.entries) k t
