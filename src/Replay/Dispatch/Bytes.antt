-- ===== src/Replay/Dispatch/Bytes.antt =====
-- `dispatchOp` of pkg/replay/scheduler.go: the bytes that an op is credited with.
use ioflux.Prelude.{
  ℤ, pos, refl, ◌>>=◌, Option, ◌≡◌, some, String, none, ℕ, ◌≤ℤ◌, arith, List, subst, sym, lookup,
  length, int_eq, pos_part,
}
use ioflux.Engine.Types.{
  Engine, EngineError, no_error, not_found, other_error, outside_root, short_read, short_write,
  unsupported, Transfer,
}
use ioflux.Replay.Dispatch.{
  ObjectPipes, ReplayStream, OpResult, open_stream, dispatch_get, dispatch_write, dispatch_read,
  put_result, prefix, parse_open_flags, target_name, grow_buf, dispatch_kind, dispatch_put,
  dispatch_head, dispatch_open, write_to, dispatch_close, dispatch_stat, or_no_handle,
  dispatch_delete, dispatch_op, dispatch_fsync, close_replay, fsync_handle, size_for_write,
  op_id_of,
}
use ioflux.Trace.Types.{
  TargetInfo, Op, Mode, op_close, op_delete, op_fsync, op_get, op_head, op_open, op_other, op_put,
  op_read, op_stat, op_write, OpKind,
}
use ioflux.Payload.Fill.{Config, fill}
use ioflux.Replay.Transfer.{
  checked_read_transfer, checked_write_transfer, write_bytes_bounded, read_bytes_bounded,
}

-- The op panics, or moves at most n bytes.
abbrev pub IsWithin : {S : Type 0} → ℤ → Option (ReplayStream S × OpResult) → Type 0
IsWithin n none = Unit {0}
IsWithin n (some (st, r)) = (pos 0 ≤ℤ r.bytes_n) × (r.bytes_n ≤ℤ n)

bind-IsWithin :
    {S A : Type 0} (n : ℤ) (o : Option A) (f : A → Option (ReplayStream S × OpResult))
    → ((a : A) → o ≡ some a → IsWithin n (f a))
    → IsWithin n (o >>= f)
bind-IsWithin n none f h = tt
bind-IsWithin n (some a) f h = h a refl

same_size : (n : ℤ) (o : Option ℤ) (a : ℤ) → o ≡ some n → o ≡ some a → n ≡ a
same_size n none a e f = absurd (ground arith)
same_size n (some x) a e f = ground arith

module _ {S : Type 0} (engine : Engine S) (pipes : ObjectPipes S) (hash_string64 : String → ℕ)
    (targets : List TargetInfo) (fill_config : Config) (obj_sizes : List (ℤ × ℤ)) where
  module _ (n : ℤ) (natural : pos 0 ≤ℤ n) where
    none_moved : (pos 0 ≤ℤ pos 0) × (pos 0 ≤ℤ n)
    none_moved = (omega arith, natural)

    open-IsWithin :
        (o : Option ℤ) (name : String) (h : ℤ) (mode : Mode) (flags : List String)
        (st : ReplayStream S)
        → IsWithin n (
            open_stream engine pipes hash_string64 targets fill_config obj_sizes o name h mode flags
              st)
    unfolding open_stream
    open-IsWithin (some size) name h mode flags st =
        bind-IsWithin n (pipes.start_object_put name size st.eng) _ (λ a e. none_moved)
    open-IsWithin none name h mode flags st =
        bind-IsWithin n (engine.open_target name mode (parse_open_flags flags) st.eng) _
          (λ a e. none_moved)

    read-IsWithin :
        (m count expected : ℤ) (err : EngineError)
        → n ≡ m
        → (pos 0 ≤ℤ (checked_read_transfer count m expected err).bytes)
          × ((checked_read_transfer count m expected err).bytes ≤ℤ n)
    read-IsWithin m count expected err same =
        let large = subst (λ (x : ℤ). pos 0 ≤ℤ x) same natural in
        let (low, high) = read_bytes_bounded count m expected err large in
        (
          low,
          subst (λ (x : ℤ). (checked_read_transfer count m expected err).bytes ≤ℤ x) (sym same)
              high,
        )

    write-IsWithin :
        (m count : ℤ) (err : EngineError)
        → n ≡ m
        → (pos 0 ≤ℤ (checked_write_transfer count m err).bytes)
          × ((checked_write_transfer count m err).bytes ≤ℤ n)
    write-IsWithin m count err same =
        let large = subst (λ (x : ℤ). pos 0 ≤ℤ x) same natural in
        let (low, high) = write_bytes_bounded count m err large in
        (low, subst (λ (x : ℤ). (checked_write_transfer count m err).bytes ≤ℤ x) (sym same) high)

    put-IsWithin :
        (m : ℤ) (err : EngineError)
        → n ≡ m
        → (pos 0
            ≤ℤ (put_result engine pipes hash_string64 targets fill_config obj_sizes m err).bytes_n)
          × ((put_result engine pipes hash_string64 targets fill_config obj_sizes m err).bytes_n
              ≤ℤ n)
    put-IsWithin m no_error same =
        let low = subst (λ (x : ℤ). pos 0 ≤ℤ x) same natural in
        let high = subst (λ (x : ℤ). x ≤ℤ n) same (omega arith) in (low, high)
    put-IsWithin m unsupported same = none_moved
    put-IsWithin m not_found same = none_moved
    put-IsWithin m short_read same = none_moved
    put-IsWithin m short_write same = none_moved
    put-IsWithin m outside_root same = none_moved
    put-IsWithin m other_error same = none_moved

    module _ (op : Op) (st : ReplayStream S) (len : op.len ≡ some n) where
      dispatch_read-IsWithin :
          IsWithin n (dispatch_read engine pipes hash_string64 targets fill_config obj_sizes op st)
      unfolding dispatch_read
      dispatch_read-IsWithin = bind-IsWithin n op.h _ (λ h e1. bind-IsWithin n op.off _ (λ off e2.
          bind-IsWithin n op.len _ (λ m e3.
            bind-IsWithin n (prefix (grow_buf st.buf m) m) _ (λ bytes e4.
              bind-IsWithin n
                (engine.read (or_no_handle (lookup h st.handle_map)).handle off m bytes st.eng) _
                (λ (r : S × Transfer) e5.
                  read-IsWithin m r.1.count _ r.1.err (same_size n op.len m len e3))))))

      dispatch_get-IsWithin :
          IsWithin n (dispatch_get engine pipes hash_string64 targets fill_config obj_sizes op st)
      unfolding dispatch_get
      dispatch_get-IsWithin = bind-IsWithin n op.tgt _ (λ tgt e0.
          bind-IsWithin n (target_name targets tgt) _ (λ key e1. bind-IsWithin n op.off _ (λ off e2.
            bind-IsWithin n op.len _ (λ m e3.
              bind-IsWithin n (prefix (grow_buf st.buf m) m) _ (λ bytes e4.
                bind-IsWithin n (engine.get key off m bytes st.eng) _ (λ (r : S × Transfer) e5.
                  read-IsWithin m r.1.count _ r.1.err (same_size n op.len m len e3)))))))

      dispatch_write-IsWithin :
          IsWithin n (dispatch_write engine pipes hash_string64 targets fill_config obj_sizes op st)
      unfolding dispatch_write
      dispatch_write-IsWithin = bind-IsWithin n op.h _ (λ h e1. bind-IsWithin n op.off _ (λ off e2.
          bind-IsWithin n op.len _ (λ m e3.
            bind-IsWithin n (prefix (grow_buf st.buf m) m) _ (λ bytes e4.
              bind-IsWithin n
                (write_to engine pipes hash_string64 targets fill_config obj_sizes
                  (or_no_handle (lookup h st.handle_map)).obj_write
                  (or_no_handle (lookup h st.handle_map)).handle off
                  (fill hash_string64 (length bytes) fill_config (op_id_of op.op_id)
                    (or_no_handle (lookup h st.handle_map)).target (pos_part off))
                  st.eng)
                _
                (λ (r : S × ℤ × EngineError) e5.
                  write-IsWithin m r.1 r.2 (same_size n op.len m len e3))))))

      dispatch_put-IsWithin :
          IsWithin n (dispatch_put engine pipes hash_string64 targets fill_config obj_sizes op st)
      unfolding dispatch_put
      dispatch_put-IsWithin = bind-IsWithin n op.tgt _ (λ tgt e0.
          bind-IsWithin n (target_name targets tgt) _ (λ key e1. bind-IsWithin n op.len _ (λ m e3.
            bind-IsWithin n (prefix (grow_buf st.buf m) m) _ (λ old e4.
              bind-IsWithin n
                (engine.put key
                  (fill hash_string64 (length old) fill_config (op_id_of op.op_id) key 0) m st.eng)
                _ (λ (r : S × EngineError) e5. put-IsWithin m r.1 (same_size n op.len m len e3))))))

      dispatch_open-IsWithin :
          IsWithin n (dispatch_open engine pipes hash_string64 targets fill_config obj_sizes op st)
      unfolding dispatch_open
      dispatch_open-IsWithin = bind-IsWithin n op.tgt _ (λ tgt e0.
          bind-IsWithin n (target_name targets tgt) _ (λ name e1. bind-IsWithin n op.h _ (λ h e2.
            open-IsWithin (size_for_write (lookup tgt obj_sizes) op.mode) name h op.mode op.flags
              st)))

      dispatch_fsync-IsWithin :
          IsWithin n (dispatch_fsync engine pipes hash_string64 targets fill_config obj_sizes op st)
      unfolding dispatch_fsync
      dispatch_fsync-IsWithin = bind-IsWithin n op.h _ (λ h e0.
          bind-IsWithin n
            (fsync_handle engine pipes hash_string64 targets fill_config obj_sizes
              (or_no_handle (lookup h st.handle_map)) st.eng)
            _ (λ (r : S × EngineError) e1. none_moved))

      dispatch_close-IsWithin :
          IsWithin n (dispatch_close engine pipes hash_string64 targets fill_config obj_sizes op st)
      unfolding dispatch_close
      dispatch_close-IsWithin = bind-IsWithin n op.h _ (λ h e0.
          bind-IsWithin n
            (close_replay engine pipes hash_string64 targets fill_config obj_sizes
              (or_no_handle (lookup h st.handle_map)) st.eng)
            _ (λ (r : S × EngineError) e1. none_moved))

      dispatch_stat-IsWithin :
          IsWithin n (dispatch_stat engine pipes hash_string64 targets fill_config obj_sizes op st)
      unfolding dispatch_stat
      dispatch_stat-IsWithin = bind-IsWithin n op.tgt _ (λ tgt e0.
          bind-IsWithin n (target_name targets tgt) _
            (λ name e1. bind-IsWithin n (engine.stat name st.eng) _ (λ r e2. none_moved)))

      dispatch_head-IsWithin :
          IsWithin n (dispatch_head engine pipes hash_string64 targets fill_config obj_sizes op st)
      unfolding dispatch_head
      dispatch_head-IsWithin = bind-IsWithin n op.tgt _ (λ tgt e0.
          bind-IsWithin n (target_name targets tgt) _
            (λ name e1. bind-IsWithin n (engine.head name st.eng) _ (λ r e2. none_moved)))

      dispatch_delete-IsWithin :
          IsWithin n
            (dispatch_delete engine pipes hash_string64 targets fill_config obj_sizes op st)
      unfolding dispatch_delete
      dispatch_delete-IsWithin = bind-IsWithin n op.tgt _ (λ tgt e0.
          bind-IsWithin n (target_name targets tgt) _
            (λ name e1. bind-IsWithin n (engine.delete name st.eng) _ (λ r e2. none_moved)))

      kind-IsWithin :
          (k : OpKind)
          → IsWithin n
              (dispatch_kind engine pipes hash_string64 targets fill_config obj_sizes k op st)
      unfolding dispatch_kind
      kind-IsWithin op_open = dispatch_open-IsWithin
      kind-IsWithin op_read = dispatch_read-IsWithin
      kind-IsWithin op_write = dispatch_write-IsWithin
      kind-IsWithin op_fsync = dispatch_fsync-IsWithin
      kind-IsWithin op_close = dispatch_close-IsWithin
      kind-IsWithin op_stat = dispatch_stat-IsWithin
      kind-IsWithin op_put = dispatch_put-IsWithin
      kind-IsWithin op_get = dispatch_get-IsWithin
      kind-IsWithin op_head = dispatch_head-IsWithin
      kind-IsWithin op_delete = dispatch_delete-IsWithin
      kind-IsWithin (op_other s) = none_moved

      -- An op with a length that is not negative, on any engine and in any state: if the dispatch does
      -- not panic, the bytes that the op is credited with lie between 0 and that length.
      pub dispatch_op-IsWithin :
          IsWithin n (dispatch_op engine pipes hash_string64 targets fill_config obj_sizes op st)
      unfolding dispatch_op
      dispatch_op-IsWithin = kind-IsWithin op.op
