-- ===== src/Importer/Dftracer/Events.antt =====
-- pkg/importer/dftracer/parse.go: events and the parser's state. Decoding a line of JSON into an event
-- is the standard library's: an event comes with its times as whole nanoseconds, the duration none
use ioflux.Importer.Checked.{ignored, ok, skipped, Checked}
use ioflux.Trace.Types.{mode_read, mode_read_write, mode_write, Mode}
use ioflux.Importer.Builder.{new_builder, Builder, skip}
use ioflux.Importer.Strace.Scan.{parse_signed, split_run, is_digit}
use ioflux.Importer.FdTable.{FdTable, new_fd_table}
use Prim.Native.Char.{code}
-- where it is not positive, and with each raw value as what json.Unmarshal makes of it.
use ioflux.Importer.Flags.{OpenFlags, parse_open_flags, no_flags}
use ioflux.Prelude.{
  ℕ, negsuc, pos, ◌^◌, Bool, String, ℤ, Option, some, if◌then◌else◌, ◌%◌, none, ◌/◌, List, [], ◌-◌,
  ◌==◌, true, nat_eq, false, ◌||◌,
}

pub data RawValue : Type 0 where
  raw_absent raw_other : RawValue
  raw_number : ℤ → RawValue
  raw_text : String → RawValue

pub record DfArgs : Type 0 where
  pub fname : String
  pub fhash : String
  pub fd : Option ℤ
  pub offset : Option ℤ
  pub count : RawValue
  pub return_val : RawValue
  pub ret : RawValue
  pub flags : RawValue
  pub meta_name : String
  pub meta_value : String

pub record DfEvent : Type 0 where
  pub name : String
  pub cat : String
  pub ts_ns : ℤ
  pub dur_ns : Option ℤ
  pub pid : ℤ
  pub tid : ℤ
  pub args : DfArgs

-- strconv.ParseInt(s, 10, 64): digits to the end of the text.
abbrev pub whole_digits : Bool → String × String → Option ℤ
whole_digits negative (String.[], rest) = none
whole_digits negative (digits, String.[]) = parse_signed negative digits
whole_digits negative (digits, rest) = none

unfoldable pub parse_int : String → Option ℤ
unfolding parse_signed split_run
parse_int String.[] = none
parse_int (String.◌∷◌ c s) =
    if code c == b'-'
    then whole_digits true (split_run is_digit s)
    else if code c == b'+'
    then whole_digits false (split_run is_digit s)
    else whole_digits false (split_run is_digit (String.◌∷◌ c s))

unfoldable pub raw_int : RawValue → Option ℤ
unfolding parse_int
raw_int (raw_number n) = some n
raw_int (raw_text s) = parse_int s
raw_int _ = none

abbrev pub or_value : Option ℤ → RawValue → Option ℤ
or_value (some n) raw = some n
or_value none raw = raw_int raw

unfoldable pub ret_val : DfArgs → Option ℤ
unfolding raw_int
ret_val a = or_value (raw_int a.return_val) a.ret

-- The bits of an int64 in two's complement.
abbrev pub bits_of : ℤ → ℕ
bits_of (pos n) = n % 2 ^ 64
bits_of (negsuc n) = 2 ^ 64 - 1 - n % 2 ^ 64

abbrev pub has_bit : ℤ → ℕ → Bool
has_bit n k = (bits_of n / 2 ^ k) % 2 == 1

-- n & O_ACCMODE
abbrev pub access_mode : ℕ → Mode
access_mode m = if m == 1 then mode_write else if m == 2 then mode_read_write else mode_read

unfoldable pub parse_int_flags : ℤ → OpenFlags
parse_int_flags n = record {
  mode = access_mode (bits_of n % 4);
  direct = has_bit n 14;
  create = has_bit n 6;
  trunc = has_bit n 9;
  is_app = has_bit n 10;
  sync = has_bit n 12 || has_bit n 20;
  is_dir = has_bit n 16;
}

unfoldable pub parse_raw_flags : RawValue → OpenFlags
unfolding parse_int_flags parse_open_flags
parse_raw_flags (raw_number n) = parse_int_flags n
parse_raw_flags (raw_text s) = parse_open_flags s
parse_raw_flags _ = no_flags

pub record DfParser : Type 0 where
  pub b : Builder
  pub fdt : FdTable
  pub pt_to_stream : List ((ℤ × ℤ) × ℕ)
  pub stream_order : List (ℤ × ℤ)
  pub next_stream : ℕ
  pub fhash_to_path : List (String × String)
  pub fhash_fd : List (String × ℤ)
  pub next_synth_fd : ℕ
  pub parsed_events : ℕ
  pub line_unparsed : ℕ

abbrev pub new_df_parser : DfParser
new_df_parser = record {
  b = new_builder;
  fdt = new_fd_table;
  pt_to_stream = [];
  stream_order = [];
  next_stream = 0;
  fhash_to_path = [];
  fhash_fd = [];
  next_synth_fd = 0;
  parsed_events = 0;
  line_unparsed = 0;
}

abbrev pub synth_fd_base : ℕ
synth_fd_base = 2 ^ 30

abbrev pub skip_event : String → DfParser → DfParser
skip_event reason p = record p { b = skip reason p.b }

abbrev pub settle_event : DfParser → Checked DfParser → DfParser
settle_event p (ok p') = p'
settle_event p (skipped reason) = skip_event reason p
settle_event p ignored = p
