-- ===== src/Tests/Stracing.antt =====
-- What strace prints, read line by line.
use ioflux.Importer.Builder.{add}
use ioflux.Importer.Builder.{target}
use ioflux.Importer.Builder.{skip}
use ioflux.Importer.FdTable.{close_fd}
use ioflux.Importer.FdTable.{resolve}
use ioflux.Importer.FdTable.{open_fd}
use ioflux.Importer.FdTable.{advance}
use ioflux.Prelude.{
  add64, wrap64, ◌+ℤ◌, sub64, ◌-ℤ◌, insert, pos, List, String, ℤ, ◌∷◌, Option, lookup, map, [],
  none, ◌≡◌, int_eq, some, refl, Ordered,
}
use ioflux.Importer.Strace.Lines.{lines, import_strace, finish, strace_meta}
use ioflux.Importer.Strace.Parser.{Parser, new_parser}
use ioflux.Trace.Types.{Op}
use ioflux.Importer.Builder.{or_empty, Assembled, assemble}
use ioflux.Validate.Lifecycle.{Lifecycle}
use ioflux.Validate.Order.{TimeLe}
use ioflux.Importer.Strace.Imported.{import_strace-Lifecycle}
use ioflux.Importer.Strace.Scan.{trim_space, byte_char, one_char}
use ioflux.Importer.Strace.Quoted.{decode_escape}

abbrev whole_seconds : String → Option ℤ
whole_seconds s = none

abbrev log_lines : List String
log_lines =
    "7 09:00:00.000001 openat(AT_FDCWD, \"/a\\\"b\", O_RDWR|O_CREAT, 0644) = 3"
    ∷ "7 09:00:00.000002 read(3, \"x, (y\"..., 100) = 40 <0.5>"
    ∷ "8 09:00:00.000003 read(3, \"\", 10) = 10"
    ∷ "7 09:00:00.000004 pread64(3, \"z\", 8, 16 <unfinished ...>"
    ∷ "7 09:00:00.000009 <... pread64 resumed>) = 8" ∷ "7 09:00:00.000010 close(3) = 0" ∷ "garbage"
    ∷ []

log_parsed : Parser
log_parsed = lines whole_seconds log_lines new_parser

abbrev ops_of_stream : ℤ → Parser → List Op
ops_of_stream s p = map (λ so. so.op) (or_empty (lookup s p.b.per_stream))

log_reads :
    map (λ op. op.len) (ops_of_stream (pos 0) log_parsed)
    ≡ none ∷ some (pos 100) ∷ some (pos 8) ∷ none ∷ []
unfolding log_parsed lines lookup skip close_fd resolve add64 wrap64 ◌+ℤ◌ sub64 ◌-ℤ◌ insert open_fd
    advance add target
log_reads = refl

abbrev no_notes : Parser → String
no_notes p = ""

log_trace : Assembled
log_trace = assemble (finish (lines whole_seconds log_lines new_parser)).b (strace_meta "" "")

log_imported : import_strace whole_seconds "" no_notes log_lines ≡ some log_trace
unfolding import_strace log_trace lookup skip close_fd resolve add64 wrap64 ◌+ℤ◌ sub64 ◌-ℤ◌ insert
    open_fd advance add target
log_imported = refl

import_strace-Lifecycle_example : Lifecycle [] log_trace.ops × Ordered TimeLe log_trace.ops
import_strace-Lifecycle_example =
    import_strace-Lifecycle whole_seconds "" no_notes log_lines log_trace log_imported

-- The path of the first line, with its escaped quotation mark.
log_path : map (λ t. t.name) log_parsed.b.targets ≡ "/a\"b" ∷ []
unfolding log_parsed lines lookup skip close_fd resolve add64 wrap64 ◌+ℤ◌ sub64 ◌-ℤ◌ insert open_fd
    advance add target
log_path = refl

-- U+00A0 in its two bytes, and what an escape of the byte 0xE9 stands for: U+00E9 in its two bytes.
blank_trimmed : trim_space (String.◌∷◌ (byte_char 0xc2) (String.◌∷◌ (byte_char 0xa0) "x ")) ≡ "x"
unfolding trim_space byte_char
blank_trimmed = refl

accent_read :
    (decode_escape (one_char (byte_char 0xe9))).0
    ≡ String.◌∷◌ (byte_char 0xc3) (one_char (byte_char 0xa9))
unfolding decode_escape byte_char
accent_read = refl
