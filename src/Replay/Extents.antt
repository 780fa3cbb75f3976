-- ===== src/Replay/Extents.antt =====
-- pkg/replay/executor.go: the metadata that the preparation of targets needs, collected op by op.
use ioflux.Prelude.{
  Option, List, ℤ, some, if◌then◌else◌, insert, erase, none, ltb_ℤ, add64, lookup, int_eq,
  string_eq, nat_eq,
}
use ioflux.Trace.Types.{
  op_close, op_get, op_open, op_put, op_read, op_write, OpKind, Op, transferred_bytes,
}
use ioflux.Prepare.{or_zero_size}

pub record Extents : Type 0 where
  pub extents : List (ℤ × ℤ)
  pub handle_to_target : List (ℤ × ℤ)

-- end > meta.Extents[idx]
unfoldable pub raise_to : ℤ → ℤ → Extents → Extents
raise_to idx end st =
    if ltb_ℤ (or_zero_size (lookup idx st.extents)) end
    then record st { extents = insert idx end st.extents }
    else st

abbrev pub update_open : Option ℤ → Option ℤ → Extents → Extents
update_open (some h) (some tgt) st = record st {
  handle_to_target = insert h tgt st.handle_to_target;
}
update_open _ _ st = st

abbrev pub raise_known : Option ℤ → ℤ → Extents → Extents
raise_known none end st = st
raise_known (some idx) end st = raise_to idx end st

unfoldable pub update_data : Option ℤ → Option ℤ → Option ℤ → Op → Extents → Extents
unfolding raise_to
update_data (some h) (some off) (some len) op st =
    raise_known (lookup h st.handle_to_target) (add64 off (or_zero_size (transferred_bytes op))) st
update_data _ _ _ op st = st

abbrev pub update_close : Option ℤ → Extents → Extents
update_close none st = st
update_close (some h) st = record st { handle_to_target = erase h st.handle_to_target }

unfoldable pub update_object : Option ℤ → Option ℤ → Op → Extents → Extents
unfolding raise_to
update_object (some tgt) (some len) op st =
    raise_to tgt (add64 (or_zero_size op.off) (or_zero_size (transferred_bytes op))) st
update_object _ _ op st = st

unfoldable pub update_kind : OpKind → Op → Extents → Extents
unfolding update_data update_object
update_kind op_open op st = update_open op.h op.tgt st
update_kind op_read op st = update_data op.h op.off op.len op st
update_kind op_write op st = update_data op.h op.off op.len op st
update_kind op_close op st = update_close op.h st
update_kind op_get op st = update_object op.tgt op.len op st
update_kind op_put op st = update_object op.tgt op.len op st
update_kind _ op st = st

unfoldable pub update_prep_metadata : Op → Extents → Extents
unfolding update_kind
update_prep_metadata op st = update_kind op.op op st

-- What the callback changes.
