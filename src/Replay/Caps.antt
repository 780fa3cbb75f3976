-- ===== src/Replay/Caps.antt =====
-- `checkOpCaps` and `checkTargetContainment` of pkg/replay/executor.go: what an engine must offer for
-- a trace to be replayed on it. An engine that implements TargetChecker gives its CheckTarget.
use ioflux.Prelude.{Option, String, List, if◌then◌else◌, ◌∷◌, is_some, some, not, ◌&&◌, none, []}
use ioflux.Engine.Types.{no_error, EngineError, Capabilities}
use ioflux.Trace.Types.{
  op_delete, op_fsync, op_get, op_head, op_put, op_read, op_stat, op_write, OpKind, Op, TargetInfo,
}

pub data CapsError : Type 0 where
  not_seekable : OpKind → CapsError
  not_durable : CapsError
  no_partial_write : CapsError
  no_object_api : OpKind → CapsError

unfoldable pub check_write_caps : Op → Capabilities → Option CapsError
check_write_caps op caps =
    if is_some op.off && not caps.seekable
    then some (not_seekable op_write)
    else if is_some op.off && not caps.partial_write && not caps.object_api
    then some no_partial_write
    else none

abbrev pub require_seekable : OpKind → Capabilities → Option CapsError
require_seekable k caps = if not caps.seekable then some (not_seekable k) else none

abbrev pub require_objects : OpKind → Capabilities → Option CapsError
require_objects k caps = if not caps.object_api then some (no_object_api k) else none

unfoldable pub check_kind_caps : OpKind → Op → Capabilities → Option CapsError
unfolding check_write_caps
check_kind_caps op_read op caps = require_seekable op_read caps
check_kind_caps op_fsync op caps =
    if not caps.durable && not caps.object_api then some not_durable else none
check_kind_caps op_write op caps = check_write_caps op caps
check_kind_caps op_stat op caps = require_seekable op_stat caps
check_kind_caps op_put op caps = require_objects op_put caps
check_kind_caps op_get op caps = require_objects op_get caps
check_kind_caps op_head op caps = require_objects op_head caps
check_kind_caps op_delete op caps = require_objects op_delete caps
check_kind_caps _ op caps = none

unfoldable pub check_op_caps : Op → Capabilities → Option CapsError
unfolding check_kind_caps
check_op_caps op caps = check_kind_caps op.op op caps

abbrev pub or_check : EngineError → EngineError → EngineError
or_check no_error rest = rest
or_check err rest = err

-- The first target that the engine rejects.
unfoldable pub check_targets : (String → EngineError) → List TargetInfo → EngineError
check_targets check [] = no_error
check_targets check (tgt ∷ targets) = or_check (check tgt.name) (check_targets check targets)

unfoldable pub check_target_containment :
    Option (String → EngineError) → List TargetInfo → EngineError
unfolding check_targets
check_target_containment none targets = no_error
check_target_containment (some check) targets = check_targets check targets
