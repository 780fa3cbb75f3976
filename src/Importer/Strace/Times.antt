-- ===== src/Importer/Strace/Times.antt =====
-- pkg/importer/strace/parse.go: the process column and the time at the start of a line.
use ioflux.Prelude.{
  ℕ, negsuc, pos, Bool, ℤ, String, Option, ◌==◌, none, if◌then◌else◌, ◌^◌, wrap64, length, false,
  suc, some, add64, ◌||◌, ◌&&◌, ◌-◌, codes, true, zero, ◌*◌, int_eq, ltb_ℤ, string_eq, nat_eq,
  sub64,
}
use ioflux.Importer.Strace.Scan.{trim_left, split_run, parse_leading_int, one_char, is_digit}
use Prim.Native.Char.{Char, code}
use ioflux.Importer.Strace.Parser.{Parser}

-- n * k, as an int64, for a positive k.
unfoldable pub scale64 : ℤ → ℕ → ℤ
scale64 (pos n) k = wrap64 (pos (n * k))
scale64 (negsuc n) k = wrap64 (negsuc (suc n * k - 1))

abbrev pub or_zero_int : Option ℤ → ℤ
or_zero_int none = pos 0
or_zero_int (some n) = n

-- The first n characters.
unfoldable pub take_text : ℕ → String → String
take_text zero s = String.[]
take_text (suc n) String.[] = String.[]
take_text (suc n) (String.◌∷◌ c s) = String.◌∷◌ c (take_text n s)

abbrev pub text_length : String → ℕ
text_length s = length (codes s)

unfoldable pub frac_to_ns : String → ℤ
unfolding take_text parse_leading_int scale64
frac_to_ns frac =
    let nine = take_text 9 frac in
    scale64 (or_zero_int (parse_leading_int nine)) (10 ^ (9 - text_length nine))

abbrev pub is_blank : ℕ → Bool
is_blank c = c == b' ' || c == 9

abbrev pub pid_behind : Option ℤ → String → String → ℤ × String
pid_behind none rest s = (pos 0, s)
pid_behind (some pid) rest s = (pid, trim_left is_blank rest)

abbrev pub starts_blank : String → Bool
starts_blank String.[] = false
starts_blank (String.◌∷◌ c s) = is_blank (code c)

-- The digits and what follows them are of s.
abbrev pub pid_column : String → String × String → ℤ × String
pid_column s (digits, rest) =
    if starts_blank rest then pid_behind (parse_leading_int digits) rest s else (pos 0, s)

unfoldable pub split_pid : String → ℤ × String
unfolding split_run parse_leading_int trim_left
split_pid s = pid_column s (split_run is_digit s)

-- The fraction of a second behind the text, where it starts with a point, and what follows.
abbrev pub fraction : String → ℤ × String
fraction String.[] = (pos 0, String.[])
fraction (String.◌∷◌ c s) =
    if code c == b'.'
    then (frac_to_ns (split_run is_digit s).0, (split_run is_digit s).1)
    else (pos 0, String.◌∷◌ c s)

abbrev pub two_digits : Char → Char → Bool
two_digits c d = is_digit (code c) && is_digit (code d)

abbrev pub two_value : Char → Char → ℤ
two_value c d = or_zero_int (parse_leading_int (String.◌∷◌ c (one_char d)))

abbrev pub of_day : ℤ → ℤ → ℤ → ℤ × String → ℤ × String
of_day hh mm ss (frac, rest) =
    (add64 (scale64 (add64 (add64 (scale64 hh 3600) (scale64 mm 60)) ss) 1000000000) frac, rest)

-- HH:MM:SS with a fraction: the nanoseconds since midnight, and the rest.
unfoldable pub clock_time : String → Option (ℤ × String)
unfolding scale64 parse_leading_int frac_to_ns split_run
clock_time
      (String.◌∷◌ a (
        String.◌∷◌ b (
          String.◌∷◌ c
            (String.◌∷◌ d (String.◌∷◌ e (String.◌∷◌ f (String.◌∷◌ g (String.◌∷◌ h s)))))))) =
    if code c == b':' && code f == b':' && two_digits a b && two_digits d e && two_digits g h
    then some (of_day (two_value a b) (two_value d e) (two_value g h) (fraction s))
    else none
clock_time _ = none

-- Seconds since the epoch, with a point: nanoseconds, and the rest.
abbrev pub epoch_behind : ℤ → String → Option (ℤ × String)
epoch_behind sec String.[] = none
epoch_behind sec (String.◌∷◌ c s) =
    if code c == b'.'
    then some (
      add64 (scale64 sec 1000000000) (frac_to_ns (split_run is_digit s).0),
      (split_run is_digit s).1,
    )
    else none

abbrev pub epoch_digits : String × String → Option (ℤ × String)
epoch_digits (String.[], rest) = none
epoch_digits (digits, rest) = epoch_behind (or_zero_int (parse_leading_int digits)) rest

unfoldable pub epoch_time : String → Option (ℤ × String)
unfolding split_run parse_leading_int frac_to_ns scale64
epoch_time s = epoch_digits (split_run is_digit s)

abbrev pub ns_per_day : ℤ
ns_per_day = pos 86400000000000

abbrev pub half_day : ℤ
half_day = pos 43200000000000

unfoldable pub apply_rollover : ℤ → Parser → Parser × ℤ
apply_rollover tod p =
    let abs = add64 tod p.day_offset in
    if p.have_prev && ltb_ℤ abs (sub64 p.prev_abs half_day)
    then (
      record p {
        day_offset = add64 p.day_offset ns_per_day;
        prev_abs = add64 tod (add64 p.day_offset ns_per_day);
        have_prev = true;
      },
      add64 tod (add64 p.day_offset ns_per_day),
    )
    else (record p { prev_abs = abs; have_prev = true }, abs)

abbrev pub plain_time : Parser → Option (ℤ × String) → Parser × Option (ℤ × String)
plain_time p none = (p, none)
plain_time p (some (t, rest)) = (p, some (t, trim_left is_blank rest))

abbrev pub day_time : Parser → String → Option (ℤ × String) → Parser × Option (ℤ × String)
day_time p s none = plain_time p (epoch_time s)
day_time p s (some (tod, rest)) =
    let (p', t) = apply_rollover tod p in (p', some (t, trim_left is_blank rest))

unfoldable pub parse_time_prefix : String → Parser → Parser × Option (ℤ × String)
unfolding clock_time epoch_time apply_rollover trim_left
parse_time_prefix s p = day_time p s (clock_time s)
