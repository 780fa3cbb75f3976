-- ===== src/Engine/Mem.antt =====
-- pkg/engine/mem/mem.go. An object is an address in a heap of byte slices, which handles share. An
-- operation runs whole: the locks, delays and yields are not modelled. The sizes of new objects are
-- a parameter, as they are in the source.
pub mod Reads
use ioflux.Prelude.{
  zero, suc, negsuc, pos, ℤ, [], Option, String, List, ℕ, some, true, add64, lookup, ◌∷◌, take,
  replicate, suc, erase, none, false, if◌then◌else◌, get_elem?, insert, length, string_eq, int_eq,
  ◌++◌, ltb, ltb_ℤ, leb, ◌-◌, drop, pos_part, min,
}
use ioflux.Engine.Types.{
  no_error, not_found, other_error, short_read, unsupported, Capabilities, ObjectInfo, EngineError,
  Transfer, Engine, OpenFlags,
}
use ioflux.Trace.Types.{Mode}

pub record OpenHandle : Type 0 where
  pub target : String
  pub mode : Mode
  pub obj : ℕ

pub record MemEngine : Type 0 where
  pub objects : List (String × ℕ)
  pub heap : List (List ℕ)
  pub handles : List (ℤ × OpenHandle)
  pub next_h : ℕ

abbrev pub new_mem : MemEngine
new_mem = record { objects = []; heap = []; handles = []; next_h = 0 }

-- copy(dst, src), as the bytes of dst afterwards.
abbrev pub copy : List ℕ → List ℕ → List ℕ
copy dst src = take (length dst) src ++ drop (length src) dst

abbrev pub set_at : ℕ → List ℕ → List (List ℕ) → List (List ℕ)
set_at i v [] = []
set_at zero v (x ∷ xs) = v ∷ xs
set_at (suc i) v (x ∷ xs) = x ∷ set_at i v xs

-- make([]byte, size), which panics on a negative size.
abbrev pub make_bytes : ℤ → Option (List ℕ)
make_bytes (pos n) = some (replicate n 0)
make_bytes (negsuc n) = none

abbrev pub mem_caps : Capabilities
mem_caps = record {
  seekable = true;
  partial_write = true;
  durable = false;
  object_api = false;
  multipart = false;
  os_page_cache = false;
}

module _ (size_of : String → ℤ) where
  abbrev pub new_object : String → Option (List ℕ) → MemEngine → Option (MemEngine × ℕ)
  new_object target none e = none
  new_object target (some bytes) e = some (
    record e { objects = insert target (length e.heap) e.objects; heap = e.heap ++ bytes ∷ [] },
    length e.heap,
  )

  abbrev pub object_or_new : String → Option ℕ → MemEngine → Option (MemEngine × ℕ)
  object_or_new target (some a) e = some (e, a)
  object_or_new target none e = new_object target (make_bytes (size_of target)) e

  -- The object of a target, made with its size if there is none.
  unfoldable pub object_of : String → MemEngine → Option (MemEngine × ℕ)
  object_of target e = object_or_new target (lookup target e.objects) e

  unfoldable pub add_handle :
      String → Mode → Option (MemEngine × ℕ) → Option (MemEngine × ℤ × EngineError)
  add_handle target mode none = none
  add_handle target mode (some (e, a)) =
      let h = suc e.next_h in
      let oh : OpenHandle = record { target = target; mode = mode; obj = a } in
      some (record e { next_h = h; handles = insert (pos h) oh e.handles }, pos h, no_error)

  unfoldable pub mem_open :
      String → Mode → OpenFlags → MemEngine → Option (MemEngine × ℤ × EngineError)
  unfolding object_of add_handle
  mem_open target mode flags e = add_handle target mode (object_of target e)

  abbrev pub info_of : String → Option (List ℕ) → ObjectInfo
  info_of target none = record { name = target; size = pos 0 }
  info_of target (some bytes) = record { name = target; size = pos (length bytes) }

  unfoldable pub stat_object :
      String → Option (MemEngine × ℕ) → Option (MemEngine × ObjectInfo × EngineError)
  stat_object target none = none
  stat_object target (some (e, a)) = some (e, info_of target (get_elem? e.heap a), no_error)

  unfoldable pub mem_stat : String → MemEngine → Option (MemEngine × ObjectInfo × EngineError)
  unfolding object_of stat_object
  mem_stat target e = stat_object target (object_of target e)

abbrev pub transfer : ℤ → EngineError → List ℕ → Transfer
transfer n err buf = record { count = n; err = err; buffer = buf }

abbrev pub data_of : Option (List ℕ) → List ℕ
data_of none = []
data_of (some bytes) = bytes

-- copy(buf, data[off:end]), where a slice with end below off panics.
unfoldable pub copy_slice : List ℕ → ℕ → ℤ → ℤ → List ℕ → Option Transfer
copy_slice bytes off (negsuc m) len buf = none
copy_slice bytes off (pos end) len buf =
    if ltb end off
    then none
    else let src = take (end - off) (drop off bytes) in
      let n = pos (min (length buf) (length src)) in
      some (transfer n (if ltb_ℤ n len then short_read else no_error) (copy buf src))

unfoldable pub read_data : List ℕ → ℕ → ℤ → List ℕ → Option Transfer
unfolding copy_slice
read_data bytes off len buf =
    if leb (length bytes) off
    then some (transfer (pos 0) short_read buf)
    else let end = add64 (pos off) len in
      copy_slice bytes off (if ltb_ℤ (pos (length bytes)) end then pos (length bytes) else end) len
        buf

abbrev pub with_state : MemEngine → Option Transfer → Option (MemEngine × Transfer)
with_state e none = none
with_state e (some r) = some (e, r)

unfoldable pub read_handle :
    Option OpenHandle → ℕ → ℤ → List ℕ → MemEngine → Option (MemEngine × Transfer)
unfolding read_data
read_handle none off len buf e = some (e, transfer (pos 0) not_found buf)
read_handle (some oh) off len buf e =
    with_state e (read_data (data_of (get_elem? e.heap oh.obj)) off len buf)

unfoldable pub mem_read : ℤ → ℤ → ℤ → List ℕ → MemEngine → Option (MemEngine × Transfer)
unfolding read_handle
mem_read h (negsuc m) len buf e = some (e, transfer (pos 0) other_error buf)
mem_read h (pos off) len buf e =
    if ltb_ℤ len (pos 0)
    then some (e, transfer (pos 0) other_error buf)
    else read_handle (lookup h e.handles) off len buf e

-- The object grown to an end beyond its own.
unfoldable pub grow : List ℕ → ℤ → List ℕ
grow old end = if ltb_ℤ (pos (length old)) end then copy (replicate (pos_part end) 0) old else old

unfoldable pub overlay : ℕ → List ℕ → List ℕ → List ℕ
overlay off bytes grown = take off grown ++ copy (drop off grown) bytes

-- The object after the write, which panics where `off` is beyond an end that wrapped around.
unfoldable pub write_data : List ℕ → ℕ → List ℕ → Option (List ℕ)
unfolding grow overlay
write_data old off bytes =
    let grown = grow old (add64 (pos off) (pos (length bytes))) in
    if ltb (length grown) off then none else some (overlay off bytes grown)

abbrev pub store_data : ℕ → ℕ → Option (List ℕ) → MemEngine → Option (MemEngine × ℤ × EngineError)
store_data n a none e = none
store_data n a (some bytes) e = some (record e { heap = set_at a bytes e.heap }, pos n, no_error)

unfoldable pub write_handle :
    Option OpenHandle → ℕ → List ℕ → MemEngine → Option (MemEngine × ℤ × EngineError)
unfolding write_data
write_handle none off bytes e = some (e, pos 0, not_found)
write_handle (some oh) off bytes e =
    store_data (length bytes) oh.obj (write_data (data_of (get_elem? e.heap oh.obj)) off bytes) e

unfoldable pub mem_write : ℤ → ℤ → List ℕ → MemEngine → Option (MemEngine × ℤ × EngineError)
unfolding write_handle
mem_write h (negsuc m) bytes e = some (e, pos 0, other_error)
mem_write h (pos off) bytes e = write_handle (lookup h e.handles) off bytes e

abbrev pub mem_fsync : ℤ → MemEngine → Option (MemEngine × EngineError)
mem_fsync h e = some (e, unsupported)

unfoldable pub close_handle : Option OpenHandle → ℤ → MemEngine → Option (MemEngine × EngineError)
close_handle none h e = some (e, not_found)
close_handle (some oh) h e = some (record e { handles = erase h e.handles }, no_error)

unfoldable pub mem_close : ℤ → MemEngine → Option (MemEngine × EngineError)
unfolding close_handle
mem_close h e = close_handle (lookup h e.handles) h e

abbrev pub mem_put : String → List ℕ → ℤ → MemEngine → Option (MemEngine × EngineError)
mem_put key bytes size e = some (e, unsupported)

abbrev pub mem_get : String → ℤ → ℤ → List ℕ → MemEngine → Option (MemEngine × Transfer)
mem_get key off len buf e = some (e, transfer (pos 0) unsupported buf)

abbrev pub mem_head : String → MemEngine → Option (MemEngine × ObjectInfo × EngineError)
mem_head key e = some (e, record { name = ""; size = pos 0 }, unsupported)

abbrev pub mem_delete : String → MemEngine → Option (MemEngine × EngineError)
mem_delete key e = some (e, unsupported)

unfoldable pub mem_engine : (String → ℤ) → Engine MemEngine
unfolding mem_open mem_stat mem_read mem_write mem_close
mem_engine size_of = record {
  caps = mem_caps;
  open_target = mem_open size_of;
  read = mem_read;
  write = mem_write;
  fsync = mem_fsync;
  close = mem_close;
  stat = mem_stat size_of;
  put = mem_put;
  get = mem_get;
  head = mem_head;
  delete = mem_delete;
}
