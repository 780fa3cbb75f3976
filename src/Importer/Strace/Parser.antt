-- ===== src/Importer/Strace/Parser.antt =====
-- pkg/importer/strace/parse.go: the parser's state, its helpers and the open flags.
use ioflux.Prelude.{
  ℕ, pos, Bool, Option, String, cut_prefix, false, List, some, ℤ, not, text_append, ◌∷◌, suc, ltb_ℤ,
  ◌==◌, [], none, zero, ◌||◌, string_eq, nat_eq,
}
use ioflux.Importer.Strace.Scan.{parse_leading_int, trim_space, split_run}
use ioflux.Importer.Builder.{Builder, new_builder, skip}
use ioflux.Importer.FdTable.{FdTable, new_fd_table}
use ioflux.Importer.Checked.{ignored, ok, skipped, Checked}

pub record Pending : Type 0 where
  pub name : String
  pub args : String
  pub t_ns : ℤ

pub record Parser : Type 0 where
  pub b : Builder
  pub fdt : FdTable
  pub day_offset : ℤ
  pub prev_abs : ℤ
  pub have_prev : Bool
  pub pid_to_stream : List (ℤ × ℕ)
  pub stream_order : List ℤ
  pub next_stream : ℕ
  pub unfinished : List (ℤ × Pending)
  pub parsed_syscalls : ℕ
  pub line_unparsed : ℕ

abbrev pub new_parser : Parser
new_parser = record {
  b = new_builder;
  fdt = new_fd_table;
  day_offset = pos 0;
  prev_abs = pos 0;
  have_prev = false;
  pid_to_stream = [];
  stream_order = [];
  next_stream = 0;
  unfinished = [];
  parsed_syscalls = 0;
  line_unparsed = 0;
}

-- p.b.Skip(reason)
abbrev pub skip_call : String → Parser → Parser
skip_call reason p = record p { b = skip reason p.b }

unfoldable pub unparsed_line : Parser → Parser
unparsed_line p = record p { b = skip "unparsed_line" p.b; line_unparsed = suc p.line_unparsed }

abbrev pub settle : Parser → Checked Parser → Parser
settle p (ok p') = p'
settle p (skipped reason) = skip_call reason p
settle p ignored = p

abbrev pub is_negative : Option ℤ → Bool
is_negative none = false
is_negative (some n) = ltb_ℤ n (pos 0)

unfoldable pub failed_ret : String → Bool
unfolding parse_leading_int
failed_ret ret = is_negative (parse_leading_int ret)

abbrev pub arg_at : List String → ℕ → String
arg_at [] i = ""
arg_at (a ∷ args) zero = a
arg_at (a ∷ args) (suc i) = arg_at args i

-- The text of s up to the first comma or closing brace.
abbrev field_end : ℕ → Bool
field_end c = not (c == b',' || c == b'}')

-- s[i+len(key):] at i = strings.Index(s, key).
unfoldable pub after_first : String → String → Option String
unfolding cut_prefix
after_first key String.[] = cut_prefix key String.[]
after_first key (String.◌∷◌ c s) =
    let later = after_first key s in
    elim (cut_prefix key (String.◌∷◌ c s)) [ none ↦ later | some rest ↦ some rest ]

abbrev field_value : Option String → Option String
field_value none = none
field_value (some v) = some (trim_space (split_run field_end v).0)

unfoldable pub struct_field : String → String → Option String
unfolding after_first split_run trim_space
struct_field s field = field_value (after_first (text_append field "=") s)
