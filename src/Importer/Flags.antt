-- ===== src/Importer/Flags.antt =====
-- pkg/importer: the flags of an open, which strace/parse.go and dftracer/parse.go read by the same text.
use ioflux.Prelude.{
  Bool, String, false, List, true, if◌then◌else◌, ◌++◌, ◌∷◌, ◌==◌, [], ◌||◌, string_eq, nat_eq,
}
use ioflux.Trace.Types.{mode_read, mode_read_write, mode_write, Mode}
use ioflux.Importer.Strace.Scan.{trim_space, one_char}
use Prim.Native.Char.{Char, code}

pub record OpenFlags : Type 0 where
  pub mode : Mode
  pub direct : Bool
  pub create : Bool
  pub trunc : Bool
  pub is_app : Bool
  pub sync : Bool
  pub is_dir : Bool

abbrev pub no_flags : OpenFlags
no_flags = record {
  mode = mode_read;
  direct = false;
  create = false;
  trunc = false;
  is_app = false;
  sync = false;
  is_dir = false;
}

-- The turn of the loop for one flag.
abbrev set_flag : String → OpenFlags → OpenFlags
set_flag f r =
    if f == "O_WRONLY"
    then record r { mode = mode_write }
    else if f == "O_RDWR"
    then record r { mode = mode_read_write }
    else if f == "O_DIRECT"
    then record r { direct = true }
    else if f == "O_CREAT"
    then record r { create = true }
    else if f == "O_TRUNC"
    then record r { trunc = true }
    else if f == "O_APPEND"
    then record r { is_app = true }
    else if f == "O_SYNC" || f == "O_DSYNC"
    then record r { sync = true }
    else if f == "O_DIRECTORY"
    then record r { is_dir = true }
    else r

abbrev cons_piece : Char → List String → List String
cons_piece c [] = one_char c ∷ []
cons_piece c (piece ∷ rest) = String.◌∷◌ c piece ∷ rest

-- strings.Split(s, "|")
unfoldable pub split_bars : String → List String
split_bars String.[] = String.[] ∷ []
split_bars (String.◌∷◌ c s) =
    let rest = split_bars s in if code c == b'|' then String.[] ∷ rest else cons_piece c rest

unfoldable pub set_flags : List String → OpenFlags → OpenFlags
unfolding trim_space
set_flags [] r = r
set_flags (f ∷ fs) r = set_flags fs (set_flag (trim_space f) r)

unfoldable pub parse_open_flags : String → OpenFlags
unfolding set_flags split_bars
parse_open_flags s = set_flags (split_bars s) no_flags

abbrev name_if : Bool → String → List String
name_if true name = name ∷ []
name_if false name = []

-- The modeled flags, in their fixed order.
abbrev pub flag_names : OpenFlags → List String
flag_names r =
    name_if r.direct "direct"
    ++ name_if r.create "create"
    ++ name_if r.trunc "trunc"
    ++ name_if r.is_app "append"
    ++ name_if r.sync "sync"
