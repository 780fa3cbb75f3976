-- ===== src/Importer/Strace/Scan.antt =====
-- pkg/importer/strace/scan.go. A string is its bytes, one character for each, so the characters are
-- below 256. A result (v, true) is `some v`.
use ioflux.Prelude.{
  ℕ, pos, Bool, Option, String, ◌%◌, ◌*◌, if◌then◌else◌, none, ℤ, ◌==◌, leb, some, ◌^◌, ◌+◌, ◌||◌,
  true, ◌&&◌, nat_eq, ◌-◌, false, sub_ℕ, ltb, List, add64, ◌≡◌, cut_prefix, string_eq, int_eq, ◌∷◌,
  [], sub64, arith, map, suc, zero,
}
use Prim.Native.Char.{Char, char, code, IsScalar}
use Prim.Native.Nat.{compare, Ordering}

compare_byte : (n : ℕ) → compare (n % 256) 55296 ≡ Ordering.lt
compare_byte n = ground arith

IsScalar-of_lt : (n : ℕ) → compare n 55296 ≡ Ordering.lt → IsScalar n
IsScalar-of_lt n e = rw e tt

pub IsScalar-byte : (n : ℕ) → IsScalar (n % 256)
IsScalar-byte n = IsScalar-of_lt (n % 256) (compare_byte n)

-- string([]byte{byte(n)})
unfoldable pub byte_char : ℕ → Char
byte_char n = char (n % 256) (IsScalar-byte n)

abbrev pub one_char : Char → String
one_char c = String.◌∷◌ c String.[]

-- ASCII's white space.
abbrev pub is_space : ℕ → Bool
is_space c = c == b' ' || (leb 9 c && leb c 13)

unfoldable pub trim_left : (ℕ → Bool) → String → String
trim_left drops String.[] = String.[]
trim_left drops (String.◌∷◌ c s) =
    let rest = trim_left drops s in if drops (code c) then rest else String.◌∷◌ c s

abbrev cons_unless_last : Bool → Char → String → String
cons_unless_last true c String.[] = String.[]
cons_unless_last _ c s = String.◌∷◌ c s

unfoldable pub trim_right : (ℕ → Bool) → String → String
trim_right drops String.[] = String.[]
trim_right drops (String.◌∷◌ c s) = cons_unless_last (drops (code c)) c (trim_right drops s)

-- The white space of two and of three bytes in UTF-8: U+0085, U+00A0; U+1680, U+2000 to U+200A, U+2028,
-- U+2029, U+202F, U+205F and U+3000.
abbrev pub is_space2 : ℕ → ℕ → Bool
is_space2 c d = c == 0xc2 && (d == 0x85 || d == 0xa0)

abbrev pub is_space3 : ℕ → ℕ → ℕ → Bool
is_space3 c d e =
    (c == 0xe1 && d == 0x9a && e == 0x80)
    || (c == 0xe2
        && d == 0x80
        && ((leb 0x80 e && leb e 0x8a) || e == 0xa8 || e == 0xa9 || e == 0xaf))
    || (c == 0xe2 && d == 0x81 && e == 0x9f)
    || (c == 0xe3 && d == 0x80 && e == 0x80)

-- The bytes of the white space that a string starts with, 0 where it starts with none.
unfoldable pub space_width : String → ℕ
space_width String.[] = 0
space_width (String.◌∷◌ c String.[]) = if is_space (code c) then 1 else 0
space_width (String.◌∷◌ c (String.◌∷◌ d String.[])) =
    if is_space (code c) then 1 else if is_space2 (code c) (code d) then 2 else 0
space_width (String.◌∷◌ c (String.◌∷◌ d (String.◌∷◌ e s))) =
    if is_space (code c)
    then 1
    else if is_space2 (code c) (code d)
    then 2
    else if is_space3 (code c) (code d) (code e)
    then 3
    else 0

abbrev is_one_space : String → Bool
is_one_space (String.◌∷◌ c String.[]) = is_space (code c)
is_one_space (String.◌∷◌ c (String.◌∷◌ d String.[])) = is_space2 (code c) (code d)
is_one_space (String.◌∷◌ c (String.◌∷◌ d (String.◌∷◌ e String.[]))) =
    is_space3 (code c) (code d) (code e)
is_one_space _ = false

-- With the count of the bytes that are left of a white space.
unfoldable pub trim_space_left : ℕ → String → String
unfolding space_width
trim_space_left skip String.[] = String.[]
trim_space_left (suc skip) (String.◌∷◌ c s) = trim_space_left skip s
trim_space_left zero (String.◌∷◌ c s) =
    let width = space_width (String.◌∷◌ c s) in
    let rest = trim_space_left (width - 1) s in if width == 0 then String.◌∷◌ c s else rest

unfoldable pub trim_space_right : String → String
trim_space_right String.[] = String.[]
trim_space_right (String.◌∷◌ c s) =
    let rest = String.◌∷◌ c (trim_space_right s) in if is_one_space rest then String.[] else rest

-- strings.TrimSpace
unfoldable pub trim_space : String → String
unfolding trim_space_left trim_space_right
trim_space s = trim_space_right (trim_space_left 0 s)

abbrev pub is_digit : ℕ → Bool
is_digit c = leb b'0' c && leb c b'9'

abbrev cons_first : Char → String × String → String × String
cons_first c (taken, rest) = (String.◌∷◌ c taken, rest)

-- s[:d] and s[d:] at the end d of the leading run of the characters that pass.
unfoldable pub split_run : (ℕ → Bool) → String → String × String
split_run passes String.[] = (String.[], String.[])
split_run passes (String.◌∷◌ c s) =
    let more = cons_first c (split_run passes s) in
    if passes (code c) then more else (String.[], String.◌∷◌ c s)

abbrev cons_before : Char → Option (String × String) → Option (String × String)
cons_before c none = none
cons_before c (some (before, after)) = some (String.◌∷◌ c before, after)

-- s[:i] and s[i+1:] at i = strings.IndexByte(s, byte), and none where i is -1.
unfoldable pub cut_byte : ℕ → String → Option (String × String)
cut_byte byte String.[] = none
cut_byte byte (String.◌∷◌ c s) =
    let more = cons_before c (cut_byte byte s) in
    if code c == byte then some (String.[], s) else more

-- The same at i = strings.LastIndexByte(s, byte).
abbrev or_here : Char → String → Bool → Option (String × String) → Option (String × String)
or_here c s true none = some (String.[], s)
or_here c s _ later = cons_before c later

unfoldable pub cut_last_byte : ℕ → String → Option (String × String)
cut_last_byte byte String.[] = none
cut_last_byte byte (String.◌∷◌ c s) = or_here c s (code c == byte) (cut_last_byte byte s)

-- The decimal digits of a text, read after those before it.
unfoldable pub digits_value : ℕ → String → ℕ
digits_value n String.[] = n
digits_value n (String.◌∷◌ c s) = digits_value (10 * n + (code c - b'0')) s

-- strconv.ParseInt(s, 10, 64) of a sign and digits: an error where the value is no int64.
unfoldable pub parse_signed : Bool → String → Option ℤ
unfolding digits_value
parse_signed negative digits =
    let n = digits_value 0 digits in
    if negative
    then if leb n (2 ^ 63) then some (sub_ℕ 0 n) else none
    else if ltb n (2 ^ 63)
    then some (pos n)
    else none

unfoldable pub parse_digits : Bool → String × String → Option ℤ
unfolding parse_signed
parse_digits negative (String.[], rest) = none
parse_digits negative (digits, rest) = parse_signed negative digits

unfoldable pub parse_trimmed : String → Option ℤ
unfolding parse_digits split_run
parse_trimmed String.[] = none
parse_trimmed (String.◌∷◌ c s) =
    if code c == b'-'
    then parse_digits true (split_run is_digit s)
    else if code c == b'+'
    then parse_digits false (split_run is_digit s)
    else parse_digits false (split_run is_digit (String.◌∷◌ c s))

unfoldable pub parse_leading_int : String → Option ℤ
unfolding parse_trimmed trim_space
parse_leading_int s = parse_trimmed (trim_space s)

-- Whether a scan stands outside a quoted string, in one, or behind a backslash in one.
pub data ScanState : Type 0 where
  outside quoted escaped : ScanState

abbrev pub scan_next : ScanState → ℕ → ScanState
scan_next outside c = if c == b'"' then quoted else outside
scan_next quoted c = if c == 0x5c then escaped else if c == b'"' then outside else quoted
scan_next escaped c = quoted

abbrev pub opens_bracket : ℕ → Bool
opens_bracket c = c == b'(' || c == b'[' || c == b'{'

abbrev pub closes_bracket : ℕ → Bool
closes_bracket c = c == b')' || c == b']' || c == b'}'

abbrev pub depth_next : ScanState → ℕ → ℤ → ℤ
depth_next outside c depth =
    if opens_bracket c
    then add64 depth (pos 1)
    else if closes_bracket c
    then sub64 depth (pos 1)
    else depth
depth_next _ c depth = depth

abbrev ends_bracket : ScanState → ℕ → ℤ → Bool
ends_bracket outside c depth = closes_bracket c && depth == pos 1
ends_bracket _ c depth = false

-- The text from behind the opening bracket on: what stands before the bracket that matches it,
-- and behind that one.
unfoldable pub cut_matching : ScanState → ℤ → String → Option (String × String)
cut_matching at depth String.[] = none
cut_matching at depth (String.◌∷◌ c s) =
    let more =
      cons_before c (cut_matching (scan_next at (code c)) (depth_next at (code c) depth) s) in
    if ends_bracket at (code c) depth then some (String.[], s) else more

pub record Syscall : Type 0 where
  pub name : String
  pub args : String
  pub ret : String

unfoldable pub call_result : String → String → Option String → Option Syscall
unfolding trim_space
call_result name args none = none
call_result name args (some tail) =
    if trim_space name == "" || trim_space tail == ""
    then none
    else some (record { name = trim_space name; args = args; ret = trim_space tail })

unfoldable pub call_behind : String → Option (String × String) → Option Syscall
unfolding call_result cut_prefix
call_behind name none = none
call_behind name (some (args, tail)) = call_result name args (cut_prefix "=" (trim_space tail))

unfoldable pub call_named : Option (String × String) → Option Syscall
unfolding call_behind cut_matching
call_named none = none
call_named (some (name, behind)) =
    if name == "" then none else call_behind name (cut_matching outside (pos 1) behind)

unfoldable pub split_call : String → Option Syscall
unfolding call_named cut_byte
split_call s = call_named (cut_byte b'(' s)

abbrev cons_arg : Char → List String → List String
cons_arg c [] = one_char c ∷ []
cons_arg c (arg ∷ args) = String.◌∷◌ c arg ∷ args

abbrev splits_here : ScanState → ℕ → ℤ → Bool
splits_here outside c depth = c == b',' && depth == pos 0
splits_here _ c depth = false

-- The pieces between the commas that stand in no string and in no bracket.
unfoldable pub pieces : ScanState → ℤ → String → List String
pieces at depth String.[] = String.[] ∷ []
pieces at depth (String.◌∷◌ c s) =
    let rest = pieces (scan_next at (code c)) (depth_next at (code c) depth) s in
    if splits_here at (code c) depth then String.[] ∷ rest else cons_arg c rest

unfoldable pub split_args : String → List String
unfolding pieces trim_space
split_args args =
    if trim_space args == "" then [] else map trim_space (pieces outside (pos 0) (trim_space args))
