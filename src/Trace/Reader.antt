-- ===== src/Trace/Reader.antt =====
-- pkg/trace/jsonl.go, `Reader`. A scanner's lines and its error are the input; whether a line is
-- blank and how JSON decodes into an op are parameters, since both are the standard library's.
use ioflux.Prelude.{ℕ, ◌+◌, Bool, true, false, Option, none, some, List, [], ◌∷◌}
use ioflux.Trace.Types.{Op}

-- What stopped the iteration: io.EOF, the scanner's error after a line, or a line that is no op.
pub data End : Type 0 where
  eof : End
  scan_error : ℕ → End
  parse_error : ℕ → End

-- The ops that repeated calls of `Next` return, each with `Line()` after the call.
pub record Stream : Type 0 where
  pub records : List (ℕ × Op)
  pub finish : End

abbrev pub consing : ℕ × Op → Stream → Stream
consing r st = record { records = r ∷ st.records; finish = st.finish }

module _ {Raw : Type 0} (is_blank : Raw → Bool) (unmarshal : Raw → Option Op) where
  -- `line` is the reader's line before the call.
  unfoldable pub next_all : Bool → ℕ → List Raw → Stream
  next_all scan_err line [] = record {
    records = [];
    finish = elim scan_err [ true ↦ scan_error line | false ↦ eof ];
  }
  next_all scan_err line (raw ∷ rest) = elim (is_blank raw) [
    | true ↦ next_all scan_err (line + 1) rest
    | false ↦ elim (unmarshal raw) [
      | none ↦ record { records = []; finish = parse_error (line + 1) }
      | some op ↦ consing (line + 1, op) (next_all scan_err (line + 1) rest)
    ]
  ]
