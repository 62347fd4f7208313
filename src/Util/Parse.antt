-- ===== src/Util/Parse.antt =====
-- `parse_size` and `parse_escape_char` of src/util.rs, and `format_age` of src/protocol.rs.
-- A string is its bytes; sizes and key names are ASCII.
pub mod RoundTrip
use Prim.Native.Nat.{bit_and}
use zatch.Common.{
  ℕ, zero, suc, ◌+◌, ◌-◌, ◌*◌, ◌/◌, ◌%◌, ◌^◌, ◌≡◌, ◌≢◌, ◌<◌, ◌≤◌, List, [], ◌∷◌, ◌++◌, Option, none,
  some, Bool, true, false, ◌&&◌, ◌||◌, ◌⊎◌, inl, inr, All, length, leb, ltb, ltb→lt, lt→ltb, ltb→le,
  leb→le, ◌==◌, ==_iff, if◌then◌else◌, Bool-cases, refl, arith, ap, sym, ◌∙◌, codes, decimal,
  IsDigit, value_from,
}

-- White space of ASCII: tab, line feed, vertical tab, form feed, return and blank.
abbrev is_space : ℕ → Bool
is_space c = c == 32 || (leb 9 c && leb c 13)

abbrev trim_start : List ℕ → List ℕ
trim_start [] = []
trim_start (c ∷ s) = if is_space c then trim_start s else c ∷ s

abbrev pub trim_end : List ℕ → List ℕ
trim_end [] = []
trim_end (c ∷ s) = elim (trim_end s) [
  | [] ↦ (if is_space c then [] else c ∷ [])
  | d ∷ t ↦ c ∷ d ∷ t
]

-- `str::trim`.
abbrev pub trim : List ℕ → List ℕ
trim s = trim_end (trim_start s)

-- The last character, and what stands before it.
abbrev split_last : List ℕ → Option (List ℕ × ℕ)
split_last [] = none
split_last (c ∷ s) = elim (split_last s) [ none ↦ some ([], c) | some (t, d) ↦ some (c ∷ t, d) ]

abbrev is_digit : ℕ → Bool
is_digit c = leb 48 c && leb c 57

-- The digits, from the value `acc` of those before; a value of 2 ^ 64 or more is an error.
unfoldable pub parse_digits : ℕ → List ℕ → Option ℕ
parse_digits acc [] = some acc
parse_digits acc (c ∷ s) =
    let v = acc * 10 + (c - 48) in
    let more = parse_digits v s in if is_digit c && ltb v (2 ^ 64) then more else none

-- `str::parse::<usize>`: one `+` may stand before the digits, of which there is at least one.
unfoldable pub parse_usize : List ℕ → Option ℕ
unfolding parse_digits
parse_usize [] = none
parse_usize (c ∷ []) = parse_digits 0 (c ∷ [])
parse_usize (c ∷ d ∷ s) = if c == 43 then parse_digits 0 (d ∷ s) else parse_digits 0 (c ∷ d ∷ s)

-- The number before a suffix, and what the suffix multiplies it by.
unfoldable pub split_suffix : List ℕ → List ℕ × ℕ
split_suffix s = elim (split_last s) [
  | none ↦ (s, 1)
  | some (r, c) ↦
      if c == b'k' || c == b'K'
      then (r, 1024)
      else if c == b'm' || c == b'M'
      then (r, 1024 * 1024)
      else (s, 1)
]

-- The product wraps, as in a release build; a debug build panics where it does.
abbrev pub scaled : Option ℕ → ℕ → Option ℕ
scaled none mul = none
scaled (some v) mul = some (v * mul % 2 ^ 64)

unfoldable pub parse_size : List ℕ → Option ℕ
parse_size s = let split = split_suffix (trim s) in scaled (parse_usize split.0) split.1

-- `^?` is DEL, and `^` with another character a control character.
unfoldable pub parse_escape_char : List ℕ → ℕ
parse_escape_char [] = 0
parse_escape_char (c ∷ []) = c
parse_escape_char (c ∷ d ∷ s) =
    if c == b'^' then (if d == b'?' then 0x7f else bit_and d 0x1f) else c

-- The days, hours, minutes and seconds of a duration.
pub record Age : Type 0 where
  pub d : ℕ
  pub h : ℕ
  pub m : ℕ
  pub s : ℕ

unfoldable pub age_of : ℕ → Age
age_of secs = record {
  d = secs / 86400;
  h = secs % 86400 / 3600;
  m = secs % 3600 / 60;
  s = secs % 60;
}

unfoldable pub format_age : ℕ → List ℕ
format_age secs =
    let a = age_of secs in
    let tail_s = decimal a.s ++ codes "s" in
    let tail_m = decimal a.m ++ (codes "m " ++ tail_s) in
    let tail_h = decimal a.h ++ (codes "h " ++ tail_m) in
    if ltb 0 a.d
    then decimal a.d ++ (codes "d " ++ tail_h)
    else if ltb 0 a.h
    then tail_h
    else if ltb 0 a.m
    then tail_m
    else tail_s
