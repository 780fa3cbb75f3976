-- ===== src/Importer/Dftracer/Passes.antt =====
-- pkg/importer/dftracer/parse.go: the two passes over the lines.
use ioflux.Prelude.{
  ℕ, pair_eq, int_eq, string_eq, pos, Bool, Option, String, ℤ, is_some, List, ◌==◌, ◌||◌,
  cut_prefix, ◌∷◌, if◌then◌else◌, lookup, some, nat_eq, ◌&&◌, suc, [], ltb, not, none, insert, ◌++◌,
}
use ioflux.Trace.Types.{capture_import, trace_imported}
use ioflux.Importer.Builder.{assemble, HeaderMeta, skip, Assembled}
use ioflux.Importer.Dftracer.Events.{DfEvent, DfParser, new_df_parser, skip_event}
use ioflux.Importer.Dftracer.Handlers.{event_case, dispatch_event}
use ioflux.Importer.Strace.Scan.{trim_space, trim_right}

-- p.stream(pt)
abbrev pub stream_assigned : ℤ × ℤ → DfParser → Option ℕ → DfParser × ℤ
stream_assigned pt p (some sid) = (p, pos sid)
stream_assigned pt p none = (
  record p {
    next_stream = suc p.next_stream;
    pt_to_stream = insert pt p.next_stream p.pt_to_stream;
    stream_order = p.stream_order ++ pt ∷ [];
  },
  pos p.next_stream,
)

unfoldable pub event_stream : ℤ × ℤ → DfParser → DfParser × ℤ
event_stream pt p = stream_assigned pt p (lookup pt p.pt_to_stream)

unfoldable pub posix_event : DfEvent → DfParser → DfParser
unfolding event_stream event_case dispatch_event
posix_event ev p =
    let (p', s) = event_stream (ev.pid, ev.tid) p in
    dispatch_event (event_case ev.name) s ev.ts_ns ev.dur_ns ev.args p'

abbrev pub category_event : DfEvent → DfParser → DfParser
category_event ev p =
    if ev.cat == "POSIX"
    then posix_event ev p
    else if ev.cat == "dftracer"
    then p
    else skip_event "non_posix_event" p

abbrev pub decoded_event : Option DfEvent → DfParser → DfParser
decoded_event none p = record p {
  b = skip "unparseable_event" p.b;
  line_unparsed = suc p.line_unparsed;
}
decoded_event (some ev) p = category_event ev (record p { parsed_events = suc p.parsed_events })

abbrev pub is_frame : String → Bool
is_frame s = s == "" || s == "[" || s == "]"

abbrev pub is_comma : ℕ → Bool
is_comma c = c == b','

abbrev pub starts_object : String → Bool
starts_object s = is_some (cut_prefix "{" s)

abbrev pub meta_entry : Option DfEvent → DfParser → DfParser
meta_entry none p = p
meta_entry (some ev) p =
    if ev.cat == "dftracer"
      && ev.name == "FH"
      && not (ev.args.meta_value == "")
      && not (ev.args.meta_name == "")
    then record p { fhash_to_path = insert ev.args.meta_value ev.args.meta_name p.fhash_to_path }
    else p

-- What json.Unmarshal makes of a line is the parameter: none where it fails.
module _ (decode : String → Option DfEvent) where
  unfoldable pub scan_meta : String → DfParser → DfParser
  unfolding trim_space trim_right cut_prefix
  scan_meta raw p =
      let s = trim_space raw in
      if starts_object s then meta_entry (decode (trim_right is_comma s)) p else p

  unfoldable pub event_line : String → DfParser → DfParser
  unfolding trim_space trim_right cut_prefix posix_event
  event_line raw p =
      let s = trim_space (trim_right is_comma (trim_space raw)) in
      if is_frame (trim_space raw)
      then p
      else if is_frame s
      then p
      else if starts_object s
      then decoded_event (decode s) p
      else record p { line_unparsed = suc p.line_unparsed }

  unfoldable pub scan_metas : List String → DfParser → DfParser
  unfolding scan_meta
  scan_metas [] p = p
  scan_metas (raw ∷ raws) p = scan_metas raws (scan_meta raw p)

  unfoldable pub event_lines : List String → DfParser → DfParser
  unfolding event_line
  event_lines [] p = p
  event_lines (raw ∷ raws) p = event_lines raws (event_line raw p)

  abbrev pub both_passes : List String → DfParser
  both_passes raws = event_lines raws (scan_metas raws new_df_parser)

abbrev pub dftracer_meta : String → String → HeaderMeta
dftracer_meta limitations notes = record {
  kind = trace_imported;
  capture_method = capture_import "dftracer";
  capture_limitations = limitations;
  generated_by = "ioflux-import 0.1.0 / dftracer";
  notes = notes;
  created_utc = "";
}

-- Import up to the encoding of the trace: none where no line was an event and some line was not
-- understood.
unfoldable pub import_dftracer :
    (String → Option DfEvent) → String → (DfParser → String) → List String → Option Assembled
unfolding scan_metas event_lines assemble
import_dftracer decode limitations notes raws =
    let p = both_passes decode raws in
    if p.parsed_events == 0 && ltb 0 p.line_unparsed
    then none
    else some (assemble p.b (dftracer_meta limitations (notes p)))
