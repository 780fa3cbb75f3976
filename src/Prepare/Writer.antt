-- ===== src/Prepare/Writer.antt =====
-- pkg/prepare/prepare.go: the writer of synthetic targets, over any engine. The buffer is of `chunk`
-- bytes. The loop runs on fuel, one turn for each byte of the target. An offset is a natural number,
-- since a count that passes validateWriteCount is natural and stays within the target.
use ioflux.Prepare.{
  engine_failed, out_of_fuel, size_unknown, validate_write_count, PrepareError,
  compute_required_sizes, Metadata, failure_of, Stats, no_stats, stopped, or_zero_size,
}
use ioflux.Trace.Types.{mode_write, TargetInfo}
use ioflux.Engine.Types.{no_error, Engine, OpenFlags, open_flag_none, EngineError}
use ioflux.Payload.Fill.{normalize, fill, Config}
use ioflux.Prelude.{
  ℕ, pos, ℤ, min, String, pos_part, true, List, ◌-◌, Option, ◌>>=◌, some, if◌then◌else◌, ◌==◌, none,
  ltb_ℤ, suc, ◌∷◌, int_eq, ◌+◌, ◌&&◌, lookup, zero, [], string_eq,
}
pub mod Ends
pub mod Written
pub mod InMemory
pub mod Source

abbrev pub create_trunc : OpenFlags
create_trunc = record open_flag_none { create = true; trunc = true }

-- How many bytes the next turn writes.
abbrev pub chunk_size : ℕ → ℤ → ℕ → ℕ
chunk_size chunk size off = min chunk (pos_part size - off)

module _ {S : Type 0} (engine : Engine S) (ctx_err : S → EngineError) (hash_string64 : String → ℕ)
    (chunk : ℕ) where
  -- _ = eng.Close(ctx, h), with the error that stops the writer.
  abbrev pub close_with : ℤ → PrepareError → S → Option (S × Option PrepareError)
  close_with h why e = do (e', _) ← engine.close h e; some (e', some why)

  unfoldable pub close_target : ℤ → S → Option (S × Option PrepareError)
  close_target h e = do (e', err) ← engine.close h e; some (e', failure_of err)

  abbrev pub unless_failed :
      Option PrepareError
      → ℤ
      → S
      → Option (S × Option PrepareError)
      → Option (S × Option PrepareError)
  unless_failed none h e rest = rest
  unless_failed (some why) h e rest = close_with h why e

  unfoldable pub sync_target : ℤ → S → Option (S × Option PrepareError)
  unfolding close_target
  sync_target h e =
      engine.fsync h e >>= λ r. unless_failed (failure_of r.1) h r.0 (close_target h r.0)

  unfoldable pub sync_and_close : ℤ → S → Option (S × Option PrepareError)
  unfolding sync_target
  sync_and_close h e = if engine.caps.durable then sync_target h e else close_target h e

  unfoldable pub write_chunks :
      ℕ → ℤ → String → ℤ → Config → ℕ → S → Option (S × Option PrepareError)
  unfolding validate_write_count sync_and_close fill
  write_chunks zero h name size cfg off e =
      if ltb_ℤ (pos off) size then close_with h out_of_fuel e else sync_and_close h e
  write_chunks (suc fuel) h name size cfg off e =
      let n = chunk_size chunk size off in
      let turn = engine.write h (pos off) (fill hash_string64 n cfg (pos 0) name off) e >>= λ r.
      unless_failed (validate_write_count r.1 (pos n) r.2) h r.0
        (write_chunks fuel h name size cfg (off + pos_part r.1) r.0) in
      if ltb_ℤ (pos off) size
      then unless_failed (failure_of (ctx_err e)) h e turn
      else sync_and_close h e

  abbrev pub write_opened :
      EngineError → ℤ → String → ℤ → Config → S → Option (S × Option PrepareError)
  write_opened no_error h name size cfg e = write_chunks (pos_part size) h name size cfg 0 e
  write_opened err h name size cfg e = some (e, some (engine_failed err))

  unfoldable pub write_posix : String → ℤ → Config → S → Option (S × Option PrepareError)
  unfolding write_chunks
  write_posix name size cfg e = engine.open_target name mode_write create_trunc e >>= λ r.
      write_opened r.2 r.1 name size cfg r.0

  -- A Put reads its source to the end.
  unfoldable pub put_target : String → ℤ → Config → S → Option (S × Option PrepareError)
  unfolding fill
  put_target name size cfg e = do
    (e', err) ← engine.put name (fill hash_string64 (pos_part size) cfg (pos 0) name 0) size e
    some (e', failure_of err)

  unfoldable pub write_target : String → ℤ → Config → S → Option (S × Option PrepareError)
  unfolding write_posix put_target normalize
  write_target name size cfg e =
      if engine.caps.object_api
      then put_target name size (normalize cfg) e
      else write_posix name size (normalize cfg) e

  abbrev pub count_created : TargetInfo → Metadata → Stats → Stats
  count_created tgt meta stats = record stats {
    created = suc stats.created;
    derived_size_from_ops =
        if tgt.size == pos 0 && ltb_ℤ (pos 0) (or_zero_size (lookup tgt.id meta.extents))
        then suc stats.derived_size_from_ops
        else stats.derived_size_from_ops;
  }

  abbrev pub known_size : Option ℤ → Option ℤ
  known_size none = none
  known_size (some size) = if size == pos 0 then none else some size

  abbrev pub write_sized : Option ℤ → TargetInfo → Config → S → Option (S × Option PrepareError)
  write_sized none tgt cfg e = some (e, some (size_unknown tgt.name))
  write_sized (some size) tgt cfg e = write_target tgt.name size cfg e

  unfoldable pub materialize_targets :
      List (String × ℤ)
      → Metadata
      → List TargetInfo
      → Stats
      → S
      → Option (S × Stats × Option PrepareError)
  unfolding write_target
  materialize_targets sizes meta [] stats e =
      some (e, record stats { touched_same_data = true }, none)
  materialize_targets sizes meta (tgt ∷ targets) stats e =
      stopped engine ctx_err (failure_of (ctx_err e)) (e, stats, failure_of (ctx_err e))
        (write_sized (known_size (lookup tgt.name sizes)) tgt meta.fill_config e >>= λ r.
          stopped engine ctx_err r.1 (r.0, stats, r.1)
            (materialize_targets sizes meta targets (count_created tgt meta stats) r.0))

  unfoldable pub materialize_synthetic :
      List TargetInfo → Metadata → S → Option (S × Stats × Option PrepareError)
  unfolding materialize_targets compute_required_sizes normalize
  materialize_synthetic targets meta e =
      let meta' : Metadata = record meta { fill_config = normalize meta.fill_config } in
      materialize_targets (compute_required_sizes targets meta') meta' targets no_stats e
