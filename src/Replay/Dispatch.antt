-- ===== src/Replay/Dispatch.antt =====
-- `dispatchOp` of pkg/replay/scheduler.go: one op against any engine. A panic is `none`: a nil pointer
-- read, an index out of range, a slice of a negative length, or the engine's own. The pipe that feeds
use ioflux.Replay.Stream.{
  ObjectPipes, grow_buf, OpResult, ReplayStream, parse_open_flags, ReplayHandle, target_name,
  or_no_handle, done, prefix, op_id_of, size_for_write, rewrite_prefix, of_write, of_read, count_of,
}
-- a coalesced Put is a parameter, since io.Pipe and the goroutine of the Put are the runtime's.
-- A case that reads a nil pointer panics at its start, where Go may first call the engine; and the
-- bytes of a WRITE at a negative offset are those at 0. The validator rejects both.
pub mod Bytes
use ioflux.Replay.Transfer.{
  engine_error, WriteOutcome, ReadOutcome, OpError, checked_read_transfer, checked_write_transfer,
}
use ioflux.Trace.Types.{
  mode_write, op_close, op_delete, op_fsync, op_get, op_head, op_open, op_other, op_put, op_read,
  op_stat, op_write, TargetInfo, Mode, OpKind, Op, transferred_bytes,
}
use ioflux.Prelude.{
  negsuc, pos, Option, String, ℤ, List, none, some, ◌∷◌, ℕ, if◌then◌else◌, false, Bool, leb_ℤ, [],
  ◌==◌, leb, ◌++◌, insert, drop, length, true, lookup, take, replicate, string_eq, int_eq, pos_part,
  ◌>>=◌, erase,
}
use ioflux.Engine.Types.{no_error, Engine, EngineError, OpenFlags, open_flag_none, is_nil_error}
use ioflux.Payload.Fill.{Config, fill}
use ioflux.Replay.ObjectWrite.{target_at}

module _ {S : Type 0} (engine : Engine S) (pipes : ObjectPipes S) (hash_string64 : String → ℕ)
    (targets : List TargetInfo) (fill_config : Config) (obj_sizes : List (ℤ × ℤ)) where
  -- The entry that a successful Open makes.
  abbrev pub opened : String → ℤ → ℤ → EngineError → S → ReplayStream S → ReplayStream S
  opened name h handle no_error e st =
      let rh : ReplayHandle = record { handle = handle; target = name; obj_write = none } in
      record st { eng = e; handle_map = insert h rh st.handle_map }
  opened name h handle err e st = record st { eng = e }

  unfoldable pub open_stream :
      Option ℤ
      → String
      → ℤ
      → Mode
      → List String
      → ReplayStream S
      → Option (ReplayStream S × OpResult)
  unfolding parse_open_flags
  open_stream (some size) name h mode flags st = do
    (e, pipe) ← pipes.start_object_put name size st.eng
    let rh : ReplayHandle = record { handle = pos 0; target = name; obj_write = some pipe }
    some (record st { eng = e; handle_map = insert h rh st.handle_map }, done no_error)
  open_stream none name h mode flags st = do
    (e, handle, err) ← engine.open_target name mode (parse_open_flags flags) st.eng
    some (opened name h handle err e st, done err)

  unfoldable pub dispatch_open : Op → ReplayStream S → Option (ReplayStream S × OpResult)
  unfolding open_stream
  dispatch_open op st = do
    tgt ← op.tgt
    name ← target_name targets tgt
    h ← op.h
    open_stream (size_for_write (lookup tgt obj_sizes) op.mode) name h op.mode op.flags st

  abbrev pub handle_for : ℤ → ReplayStream S → ReplayHandle
  handle_for h st = or_no_handle (lookup h st.handle_map)

  unfoldable pub dispatch_read : Op → ReplayStream S → Option (ReplayStream S × OpResult)
  unfolding grow_buf checked_read_transfer
  dispatch_read op st = do
    h ← op.h
    off ← op.off
    requested ← op.len
    let grown = grow_buf st.buf requested
    bytes ← prefix grown requested
    (e, r) ← engine.read (handle_for h st).handle off requested bytes st.eng
    some (
      record st { eng = e; buf = rewrite_prefix r.buffer grown },
      of_read (checked_read_transfer r.count requested (count_of (transferred_bytes op)) r.err),
    )

  abbrev pub write_to : Option ℕ → ℤ → ℤ → List ℕ → S → Option (S × ℤ × EngineError)
  write_to (some pipe) handle off bytes e = pipes.write_pipe pipe bytes e
  write_to none handle off bytes e = engine.write handle off bytes e

  unfoldable pub dispatch_write : Op → ReplayStream S → Option (ReplayStream S × OpResult)
  unfolding grow_buf checked_write_transfer fill
  dispatch_write op st = do
    h ← op.h
    off ← op.off
    len ← op.len
    let grown = grow_buf st.buf len
    old ← prefix grown len
    let rh = handle_for h st
    let bytes =
        fill hash_string64 (length old) fill_config (op_id_of op.op_id) rh.target (pos_part off)
    (e, n, err) ← write_to rh.obj_write rh.handle off bytes st.eng
    some (
      record st { eng = e; buf = rewrite_prefix bytes grown },
      of_write (checked_write_transfer n len err),
    )

  abbrev pub fsync_handle : ReplayHandle → S → Option (S × EngineError)
  fsync_handle rh e = elim rh.obj_write [
    | none ↦ engine.fsync rh.handle e
    | some pipe ↦ some (e, no_error)
  ]

  unfoldable pub dispatch_fsync : Op → ReplayStream S → Option (ReplayStream S × OpResult)
  dispatch_fsync op st = do
    h ← op.h
    (e, err) ← fsync_handle (handle_for h st) st.eng
    some (record st { eng = e }, done err)

  abbrev pub close_replay : ReplayHandle → S → Option (S × EngineError)
  close_replay rh e = elim rh.obj_write [
    | none ↦ engine.close rh.handle e
    | some pipe ↦ pipes.finish pipe e
  ]

  unfoldable pub dispatch_close : Op → ReplayStream S → Option (ReplayStream S × OpResult)
  dispatch_close op st = do
    h ← op.h
    (e, err) ← close_replay (handle_for h st) st.eng
    some (
      record st {
        eng = e;
        handle_map = if is_nil_error err then erase h st.handle_map else st.handle_map;
      },
      done err,
    )

  unfoldable pub dispatch_stat : Op → ReplayStream S → Option (ReplayStream S × OpResult)
  dispatch_stat op st = do
    tgt ← op.tgt
    name ← target_name targets tgt
    (e, info, err) ← engine.stat name st.eng
    some (record st { eng = e }, done err)

  abbrev pub put_result : ℤ → EngineError → OpResult
  put_result len no_error = record (done no_error) { bytes_n = len }
  put_result len err = done err

  unfoldable pub dispatch_put : Op → ReplayStream S → Option (ReplayStream S × OpResult)
  unfolding grow_buf fill
  dispatch_put op st = do
    tgt ← op.tgt
    key ← target_name targets tgt
    len ← op.len
    let grown = grow_buf st.buf len
    old ← prefix grown len
    let bytes = fill hash_string64 (length old) fill_config (op_id_of op.op_id) key 0
    (e, err) ← engine.put key bytes len st.eng
    some (record st { eng = e; buf = rewrite_prefix bytes grown }, put_result len err)

  unfoldable pub dispatch_get : Op → ReplayStream S → Option (ReplayStream S × OpResult)
  unfolding grow_buf checked_read_transfer
  dispatch_get op st = do
    tgt ← op.tgt
    key ← target_name targets tgt
    off ← op.off
    requested ← op.len
    let grown = grow_buf st.buf requested
    bytes ← prefix grown requested
    (e, r) ← engine.get key off requested bytes st.eng
    some (
      record st { eng = e; buf = rewrite_prefix r.buffer grown },
      of_read (checked_read_transfer r.count requested (count_of (transferred_bytes op)) r.err),
    )

  unfoldable pub dispatch_head : Op → ReplayStream S → Option (ReplayStream S × OpResult)
  dispatch_head op st = do
    tgt ← op.tgt
    name ← target_name targets tgt
    (e, info, err) ← engine.head name st.eng
    some (record st { eng = e }, done err)

  unfoldable pub dispatch_delete : Op → ReplayStream S → Option (ReplayStream S × OpResult)
  dispatch_delete op st = do
    tgt ← op.tgt
    name ← target_name targets tgt
    (e, err) ← engine.delete name st.eng
    some (record st { eng = e }, done err)

  unfoldable pub dispatch_kind : OpKind → Op → ReplayStream S → Option (ReplayStream S × OpResult)
  dispatch_kind op_open op st = dispatch_open op st
  dispatch_kind op_read op st = dispatch_read op st
  dispatch_kind op_write op st = dispatch_write op st
  dispatch_kind op_fsync op st = dispatch_fsync op st
  dispatch_kind op_close op st = dispatch_close op st
  dispatch_kind op_stat op st = dispatch_stat op st
  dispatch_kind op_put op st = dispatch_put op st
  dispatch_kind op_get op st = dispatch_get op st
  dispatch_kind op_head op st = dispatch_head op st
  dispatch_kind op_delete op st = dispatch_delete op st
  dispatch_kind (op_other s) op st = some (st, done no_error)

  unfoldable pub dispatch_op : Op → ReplayStream S → Option (ReplayStream S × OpResult)
  unfolding dispatch_kind
  dispatch_op op st = dispatch_kind op.op op st
