-- ===== src/Importer/Strace/Quoted.antt =====
-- pkg/importer/strace/scan.go: quoted strings and descriptors.
use ioflux.Prelude.{
  ℕ, String, Option, Bool, if◌then◌else◌, ◌*◌, ℤ, none, suc, leb, some, ◌==◌, ◌+◌, ◌&&◌, is_some,
  text_append, cut_prefix, ◌-◌, length, codes, string_eq, zero, ◌||◌, not, nat_eq, true, false, ltb,
  ◌/◌, ◌%◌,
}
use ioflux.Importer.Strace.Scan.{
  byte_char, cut_byte, cut_last_byte, one_char, is_digit, parse_leading_int,
}
use Prim.Native.Char.{code, Char}

abbrev is_octal : ℕ → Bool
is_octal c = leb b'0' c && leb c b'7'

unfoldable pub octal_value : ℕ → String → ℕ
octal_value n String.[] = n
octal_value n (String.◌∷◌ c s) = octal_value (8 * n + (code c - b'0')) s

-- The digits that decodeOctal takes: s[:n].
unfoldable pub octal_digits : ℕ → String → String
octal_digits zero s = String.[]
octal_digits (suc n) String.[] = String.[]
octal_digits (suc n) (String.◌∷◌ c s) =
    let more = String.◌∷◌ c (octal_digits n s) in if is_octal (code c) then more else String.[]

-- The decoded text, and the number of characters it took.
unfoldable pub decode_octal : String → String × ℕ
unfolding octal_digits octal_value byte_char
decode_octal s =
    let digits = octal_digits 3 s in
    if digits == ""
    then ("", 1)
    else (one_char (byte_char (octal_value 0 digits)), length (codes digits))

abbrev hex_digit : ℕ → Option ℕ
hex_digit c =
    if is_digit c
    then some (c - b'0')
    else if leb b'a' c && leb c b'f'
    then some (c - b'a' + 10)
    else if leb b'A' c && leb c b'F'
    then some (c - b'A' + 10)
    else none

abbrev hex_pair : Option ℕ → Option ℕ → String × ℕ
hex_pair (some high) (some low) = (one_char (byte_char (16 * high + low)), 3)
hex_pair _ _ = ("x", 1)

-- The characters behind \x.
abbrev decode_hex : String → String × ℕ
decode_hex (String.◌∷◌ c (String.◌∷◌ d s)) = hex_pair (hex_digit (code c)) (hex_digit (code d))
decode_hex _ = ("x", 1)

-- string(b) of a byte: the character of that number, in UTF-8.
abbrev pub byte_rune : Char → String
byte_rune c =
    if ltb (code c) 128
    then one_char c
    else String.◌∷◌ (byte_char (192 + code c / 64)) (one_char (byte_char (128 + code c % 64)))

-- Of the text behind a backslash, which is not empty.
unfoldable pub decode_escape : String → String × ℕ
unfolding decode_octal byte_char
decode_escape String.[] = ("", 0)
decode_escape (String.◌∷◌ c s) =
    if code c == b'n'
    then (one_char (byte_char 10), 1)
    else if code c == b't'
    then (one_char (byte_char 9), 1)
    else if code c == b'r'
    then (one_char (byte_char 13), 1)
    else if code c == b'0'
    then decode_octal (String.◌∷◌ c s)
    else if code c == 0x5c || code c == b'"'
    then (one_char c, 1)
    else if code c == b'x'
    then decode_hex s
    else if leb b'1' (code c) && leb (code c) b'7'
    then decode_octal (String.◌∷◌ c s)
    else (byte_rune c, 1)

abbrev pub is_empty : String → Bool
is_empty String.[] = true
is_empty (String.◌∷◌ c s) = false

-- The loop of parseQuoted, with the count of the characters that an escape has taken already.
unfoldable pub unquote : ℕ → String → String
unfolding decode_escape
unquote skip String.[] = String.[]
unquote (suc skip) (String.◌∷◌ c s) = unquote skip s
unquote zero (String.◌∷◌ c s) =
    let plain = String.◌∷◌ c (unquote 0 s) in
    let decoded = text_append (decode_escape s).0 (unquote (decode_escape s).1 s) in
    if code c == b'"'
    then String.[]
    else if code c == 0x5c && not (is_empty s)
    then decoded
    else plain

unfoldable pub parse_quoted : String → Option String
unfolding unquote
parse_quoted String.[] = none
parse_quoted (String.◌∷◌ c String.[]) = none
parse_quoted (String.◌∷◌ c s) = if code c == b'"' then some (unquote 0 s) else none

-- The descriptor and the path that strace prints behind it, "" where it prints none.
abbrev fd_path : Option (String × String) → String
fd_path none = ""
fd_path (some (d, rest)) = if is_some (cut_prefix "/" d) then d else ""

abbrev fd_decoration : Option (String × String) → String
fd_decoration none = ""
fd_decoration (some (before, behind)) = fd_path (cut_last_byte b'>' behind)

abbrev with_path : String → Option ℤ → Option (ℤ × String)
with_path path none = none
with_path path (some fd) = some (fd, path)

unfoldable pub split_fd_arg : String → Option (ℤ × String)
unfolding cut_byte cut_last_byte parse_leading_int cut_prefix
split_fd_arg s = with_path (fd_decoration (cut_byte b'<' s)) (parse_leading_int s)
