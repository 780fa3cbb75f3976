-- ===== src/Replay/Stream.antt =====
-- pkg/replay/scheduler.go: what the loop over a stream keeps, open flags and the buffer.
use ioflux.Replay.Transfer.{engine_error, WriteOutcome, ReadOutcome, OpError}
use ioflux.Trace.Types.{mode_write, TargetInfo, Mode}
use ioflux.Prelude.{
  negsuc, pos, Option, String, ℤ, List, none, some, ◌∷◌, ℕ, if◌then◌else◌, false, Bool, leb_ℤ, [],
  ◌==◌, leb, ◌++◌, drop, length, true, take, replicate, string_eq, int_eq, pos_part, ◌>>=◌,
}
use ioflux.Engine.Types.{EngineError, OpenFlags, open_flag_none}
use ioflux.Replay.ObjectWrite.{target_at}

pub record ObjectPipes (S : Type 0) : Type 0 where
  pub start_object_put : String → ℤ → S → Option (S × ℕ)
  pub write_pipe : ℕ → List ℕ → S → Option (S × ℤ × EngineError)
  pub finish : ℕ → S → Option (S × EngineError)

pub record ReplayHandle : Type 0 where
  pub handle : ℤ
  pub target : String
  pub obj_write : Option ℕ

-- What a missing key of the map gives.
abbrev pub no_replay_handle : ReplayHandle
no_replay_handle = record { handle = pos 0; target = ""; obj_write = none }

abbrev pub or_no_handle : Option ReplayHandle → ReplayHandle
or_no_handle none = no_replay_handle
or_no_handle (some rh) = rh

pub record ReplayStream (S : Type 0) : Type 0 where
  pub eng : S
  pub handle_map : List (ℤ × ReplayHandle)
  pub buf : List ℕ

pub record OpResult : Type 0 where
  pub bytes_n : ℤ
  pub short_read : Bool
  pub op_err : OpError

abbrev pub done : EngineError → OpResult
done err = record { bytes_n = pos 0; short_read = false; op_err = engine_error err }

abbrev pub of_read : ReadOutcome → OpResult
of_read r = record { bytes_n = r.bytes; short_read = r.short; op_err = r.error }

abbrev pub of_write : WriteOutcome → OpResult
of_write r = record { bytes_n = r.bytes; short_read = false; op_err = r.error }

abbrev pub set_flag : String → OpenFlags → OpenFlags
set_flag s f =
    if s == "direct"
    then record f { direct = true }
    else if s == "seq"
    then record f { seq = true }
    else if s == "rand"
    then record f { rand = true }
    else if s == "sync"
    then record f { sync = true }
    else if s == "append"
    then record f { append = true }
    else if s == "create"
    then record f { create = true }
    else if s == "trunc"
    then record f { trunc = true }
    else f

unfoldable pub set_flags : OpenFlags → List String → OpenFlags
set_flags f [] = f
set_flags f (s ∷ flags) = set_flags (set_flag s f) flags

unfoldable pub parse_open_flags : List String → OpenFlags
unfolding set_flags
parse_open_flags flags = set_flags open_flag_none flags

-- make([]byte, need) panics on no length that is tested to be larger than one.
unfoldable pub grow_buf : List ℕ → ℤ → List ℕ
grow_buf buf need = if leb_ℤ need (pos (length buf)) then buf else replicate (pos_part need) 0

-- buf[:n]
abbrev pub prefix : List ℕ → ℤ → Option (List ℕ)
prefix buf (negsuc m) = none
prefix buf (pos n) = if leb n (length buf) then some (take n buf) else none

-- buf after its prefix has been written.
abbrev pub rewrite_prefix : List ℕ → List ℕ → List ℕ
rewrite_prefix bytes buf = bytes ++ drop (length bytes) buf

-- hdr.Targets[*op.Tgt].Name
abbrev pub target_name : List TargetInfo → ℤ → Option String
target_name targets idx = do tgt ← target_at idx targets; some tgt.name

abbrev pub op_id_of : Option ℤ → ℤ
op_id_of none = pos 0
op_id_of (some id) = id

-- An op's count where there is one, and 0 where there is none.
abbrev pub count_of : Option ℤ → ℤ
count_of none = pos 0
count_of (some n) = n

abbrev pub size_for_write : Option ℤ → Mode → Option ℤ
size_for_write (some size) mode_write = some size
size_for_write _ _ = none
