-- ===== src/Replay/Transfer.antt =====
-- The checks of pkg/replay/scheduler.go on what an engine reports of a transfer.
use ioflux.Prelude.{
  ℤ, pos, Bool, if◌then◌else◌, ◌≡◌, ◌≤ℤ◌, ltb_ℤ, ◌||◌, false, true, arith, not, ◌↔◌, int_beq_iff,
  ◌==◌, ◌&&◌, int_eq,
}
use ioflux.Engine.Types.{no_error, EngineError, is_nil_error, is_short_read}

-- The error of an op: nil, the engine's own, or one that a check makes.
pub data OpError : Type 0 where
  engine_error : EngineError → OpError
  invalid_count : ℤ → ℤ → OpError
  read_mismatch : ℤ → ℤ → ℤ → OpError
  write_mismatch : ℤ → ℤ → OpError

abbrev pub op_succeeded : OpError → Bool
op_succeeded (engine_error err) = is_nil_error err
op_succeeded _ = false

pub record ReadOutcome : Type 0 where
  pub bytes : ℤ
  pub short : Bool
  pub error : OpError

pub record WriteOutcome : Type 0 where
  pub bytes : ℤ
  pub error : OpError

abbrev pub valid_transferred_bytes : ℤ → ℤ → ℤ
valid_transferred_bytes n requested =
    if ltb_ℤ n (pos 0) then pos 0 else if ltb_ℤ requested n then requested else n

unfoldable pub checked_read_transfer : ℤ → ℤ → ℤ → EngineError → ReadOutcome
checked_read_transfer n requested expected err =
    let bytes = valid_transferred_bytes n requested in
    if ltb_ℤ n (pos 0) || ltb_ℤ requested n
    then record { bytes = bytes; short = true; error = invalid_count n requested }
    else if not (n == expected)
    then record {
      bytes = bytes;
      short = true;
      error = if is_nil_error err then read_mismatch n expected requested else engine_error err;
    }
    else record {
      bytes = bytes;
      short = false;
      error = if is_short_read err then engine_error no_error else engine_error err;
    }

unfoldable pub checked_write_transfer : ℤ → ℤ → EngineError → WriteOutcome
checked_write_transfer n requested err =
    let bytes = valid_transferred_bytes n requested in
    if ltb_ℤ n (pos 0) || ltb_ℤ requested n
    then record { bytes = bytes; error = invalid_count n requested }
    else record {
      bytes = bytes;
      error =
          if not (n == requested) && is_nil_error err
          then write_mismatch n requested
          else engine_error err;
    }

-- For a request of a length that is not negative, the bytes that a read counts as moved lie between
-- 0 and that length, whatever count the engine returns.
pub read_bytes_bounded :
    (n requested expected : ℤ) (err : EngineError)
    → pos 0 ≤ℤ requested
    → (pos 0 ≤ℤ (checked_read_transfer n requested expected err).bytes)
      × ((checked_read_transfer n requested expected err).bytes ≤ℤ requested)
unfolding checked_read_transfer
read_bytes_bounded n requested expected err h = ground arith

-- A read succeeds exactly where the engine's count is a possible one, is the one that the trace
-- records, and the engine's error is nil or the sentinel of a short read.
pub read_succeeds_iff :
    (n requested expected : ℤ) (err : EngineError)
    → (op_succeeded (checked_read_transfer n requested expected err).error ≡ true) ↔ (
        (pos 0 ≤ℤ n)
        × (n ≤ℤ requested)
        × (n ≡ expected)
        × ((is_nil_error err || is_short_read err) ≡ true))
unfolding checked_read_transfer
read_succeeds_iff n requested expected err = ground (arith, int_beq_iff n expected)

-- A write succeeds exactly where the engine reports no error and took the whole request.
pub write_succeeds_iff :
    (n requested : ℤ) (err : EngineError)
    → (op_succeeded (checked_write_transfer n requested err).error ≡ true)
      ↔ ((pos 0 ≤ℤ n) × (n ≡ requested) × (is_nil_error err ≡ true))
unfolding checked_write_transfer
write_succeeds_iff n requested err = ground (arith, int_beq_iff n requested)

-- The same of a write.
pub write_bytes_bounded :
    (n requested : ℤ) (err : EngineError)
    → pos 0 ≤ℤ requested
    → (pos 0 ≤ℤ (checked_write_transfer n requested err).bytes)
      × ((checked_write_transfer n requested err).bytes ≤ℤ requested)
unfolding checked_write_transfer
write_bytes_bounded n requested err h = ground arith
