-- ===== src/Tests/Tracing.antt =====
-- DFTracer's events: a file that is named by its hash only. The decoder knows four lines.
use ioflux.Prelude.{
  add64, wrap64, ◌+ℤ◌, sub64, ◌-ℤ◌, insert, string_eq, int_eq, pair_eq, lookup, pos, List, String,
  [], ◌≡◌, ◌∷◌, none, ℤ, Option, map, if◌then◌else◌, Ordered, some, ◌==◌, refl,
}
use ioflux.Importer.Builder.{add, target, skip, note}
use ioflux.Prelude.{lookup, insert, sub64, wrap64, ◌-ℤ◌, add64, ◌+ℤ◌}
use ioflux.Importer.FdTable.{close_fd, resolve, open_fd, advance}
use ioflux.Importer.FdTable.{close_fd, resolve, open_fd, advance}
use ioflux.Importer.Builder.{add, target, skip, Assembled, assemble}
use ioflux.Importer.Dftracer.Events.{raw_absent, raw_number, raw_text, DfParser, DfEvent, DfArgs}
use ioflux.Importer.Dftracer.Passes.{import_dftracer, both_passes, dftracer_meta}
use ioflux.Validate.Lifecycle.{Lifecycle}
use ioflux.Validate.Order.{TimeLe}
use ioflux.Importer.Dftracer.Lifecycles.{import_dftracer-Lifecycle}

abbrev hashed : DfArgs
hashed = record {
  fname = "";
  fhash = "aaa";
  fd = none;
  offset = none;
  count = raw_absent;
  return_val = raw_absent;
  ret = raw_absent;
  flags = raw_number (pos 66);
  meta_name = "";
  meta_value = "";
}

abbrev event : String → ℤ → DfArgs → DfEvent
event name t args = record {
  name = name;
  cat = "POSIX";
  ts_ns = t;
  dur_ns = none;
  pid = pos 1;
  tid = pos 1;
  args = args;
}

abbrev naming : DfEvent
naming = record (event "FH" (pos 0) (record hashed { meta_name = "/data"; meta_value = "aaa" })) {
  cat = "dftracer";
}

abbrev decode_line : String → Option DfEvent
decode_line s =
    if s == "{open}"
    then some (event "open64" (pos 10) hashed)
    else if s == "{read}"
    then some (event "read" (pos 20) (record hashed { ret = raw_text "40" }))
    else if s == "{close}"
    then some (event "close" (pos 30) (record hashed { ret = raw_number (pos 0) }))
    else if s == "{name}"
    then some naming
    else none

abbrev event_log : List String
event_log = "[" ∷ "{open}," ∷ "{read}," ∷ " {read}," ∷ "{oops}" ∷ "{close}," ∷ "{name}" ∷ "]" ∷ []

abbrev no_df_notes : DfParser → String
no_df_notes p = ""

abbrev event_trace : Assembled
event_trace = assemble (both_passes decode_line event_log).b (dftracer_meta "" "")

-- The second read starts where the first ended.
event_offsets : map (λ op. op.off) event_trace.ops ≡ none ∷ some (pos 0) ∷ some (pos 40) ∷ none ∷ []
unfolding import_dftracer close_fd lookup resolve insert open_fd advance add skip note target sub64
    wrap64 ◌-ℤ◌ add64 ◌+ℤ◌
event_offsets = refl

event_imported : import_dftracer decode_line "" no_df_notes event_log ≡ some event_trace
unfolding import_dftracer close_fd lookup resolve insert open_fd advance
event_imported = refl

import_dftracer-Lifecycle_example : Lifecycle [] event_trace.ops × Ordered TimeLe event_trace.ops
import_dftracer-Lifecycle_example =
    import_dftracer-Lifecycle decode_line "" no_df_notes event_log event_trace event_imported
