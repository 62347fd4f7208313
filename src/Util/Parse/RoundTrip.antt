-- ===== src/Util/Parse/RoundTrip.antt =====
-- What `parse_size` reads is what a number's digits and its suffix stand for; and an age adds up.
use zatch.Common.{
  ℕ, zero, suc, ◌+◌, ◌-◌, ◌*◌, ◌%◌, ◌^◌, ◌≡◌, ◌≢◌, ◌<◌, ◌≤◌, List, [], ◌∷◌, ◌++◌, Option, none,
  some, true, false, ◌||◌, ◌⊎◌, inl, inr, All, ltb, lt→ltb, ◌==◌, if◌then◌else◌, refl, arith, ap,
  ◌∙◌, codes, decimal, IsDigit, value_from, value_from-decimal, decimal-IsDigit, append-nil,
}
use zatch.Util.Parse.{
  is_space, trim_start, trim_end, trim, split_last, is_digit, parse_digits, parse_usize,
  split_suffix, scaled, parse_size, age_of,
}

value_from-le : (s : List ℕ) (acc : ℕ) → acc ≤ value_from acc s
value_from-le [] acc = omega arith
value_from-le (c ∷ s) acc = omega (arith, value_from-le s (acc * 10 + (c - 48)))

parse_digits_lem :
    (s : List ℕ) (acc : ℕ)
    → All IsDigit s
    → value_from acc s < 2 ^ 64
    → parse_digits acc s ≡ some (value_from acc s)
unfolding parse_digits
parse_digits_lem [] acc h small = refl
parse_digits_lem (c ∷ s) acc h small =
    let v = acc * 10 + (c - 48) in
    let digit : is_digit c ≡ true = ground (arith, h.0) in
    let fits : ltb v (2 ^ 64) ≡ true = lt→ltb v (2 ^ 64) (omega (arith, value_from-le s v)) in
    rw (digit, fits) (parse_digits_lem s v h.1 small)

NoSpace : ℕ → Type 0
NoSpace c = is_space c ≡ false

trim_end_lem : (s : List ℕ) → All NoSpace s → trim_end s ≡ s
unfolding NoSpace
trim_end_lem [] h = refl
trim_end_lem (c ∷ s) h = rw (trim_end_lem s h.1) (last s)
  where
    last :
        (t : List ℕ)
        → (elim t [ [] ↦ (if is_space c then [] else c ∷ []) | d ∷ u ↦ c ∷ d ∷ u ]) ≡ c ∷ t
    last [] = rw h.0 refl
    last (d ∷ u) = refl

trim_start_lem : (s : List ℕ) → All NoSpace s → trim_start s ≡ s
unfolding NoSpace
trim_start_lem [] h = refl
trim_start_lem (c ∷ s) h = rw h.0 refl

trim_lem : (s : List ℕ) → All NoSpace s → trim s ≡ s
trim_lem s h = rw (trim_start_lem s h) (trim_end_lem s h)

split_last-append : (s : List ℕ) (c : ℕ) → split_last (s ++ c ∷ []) ≡ some (s, c)
split_last-append [] c = refl
split_last-append (d ∷ s) c = rw (split_last-append s c) refl

-- A text without a suffix is a number.
split_suffix-digits : (s : List ℕ) → All IsDigit s → split_suffix s ≡ (s, 1)
unfolding split_suffix
split_suffix-digits s h = by_last (split_last s) (last_digit s h)
  where
    unsuffixed : List ℕ × ℕ
    unsuffixed = (s, 1)

    LastDigit : Option (List ℕ × ℕ) → Type 0
    LastDigit none = Unit {0}
    LastDigit (some (t, d)) = IsDigit d

    last_digit : (u : List ℕ) → All IsDigit u → LastDigit (split_last u)
    last_digit [] k = tt
    last_digit (c ∷ u) k = longer (split_last u) (last_digit u k.1)
      where
        longer :
            (o : Option (List ℕ × ℕ))
            → LastDigit o
            → LastDigit (elim o [ none ↦ some ([], c) | some (t, d) ↦ some (c ∷ t, d) ])
        longer none l = k.0
        longer (some (t, d)) l = l

    by_last :
        (o : Option (List ℕ × ℕ))
        → LastDigit o
        → (elim o [
          | none ↦ unsuffixed
          | some (r, c) ↦
              if c == 107 || c == 75
              then (r, 1024)
              else if c == 109 || c == 77
              then (r, 1024 * 1024)
              else unsuffixed
        ])
          ≡ unsuffixed
    by_last none l = refl
    by_last (some (r, c)) l =
        let no_k : (c == 107 || c == 75) ≡ false = ground arith in
        let no_m : (c == 109 || c == 77) ≡ false = ground arith in rw (no_k, no_m) refl

split_suffix-append :
    (s : List ℕ) (c mul : ℕ)
    → ((c == 107 || c == 75) ≡ true) × (mul ≡ 1024)
      ⊎ ((c == 107 || c == 75) ≡ false) × ((c == 109 || c == 77) ≡ true) × (mul ≡ 1024 * 1024)
    → split_suffix (s ++ c ∷ []) ≡ (s, mul)
unfolding split_suffix
split_suffix-append s c mul (inl (k, e)) = rw (split_suffix, split_last-append s c, k, e) refl
split_suffix-append s c mul (inr (k, m, e)) = rw (split_suffix, split_last-append s c, k, m, e) refl

parse_usize-digits : (s : List ℕ) → All IsDigit s → s ≢ [] → parse_usize s ≡ parse_digits 0 s
unfolding parse_usize
parse_usize-digits [] h e = absurd (e refl)
parse_usize-digits (c ∷ []) h e = refl
parse_usize-digits (c ∷ d ∷ s) h e = let plus : (c == 43) ≡ false = ground arith in rw plus refl

decimal-nonempty : (n : ℕ) → n < 10 ^ 20 → decimal n ≢ []
unfolding decimal
decimal-nonempty zero h e = cc
decimal-nonempty (suc n) h e =
    let v : value_from 0 (decimal (suc n)) ≡ 0 = ap (value_from 0) e in
    omega (arith, v, value_from-decimal (suc n) h)

-- The suffixes of a size.
pub data Suffix : Type 0 where
  plain kibi kibi_upper mebi mebi_upper : Suffix

abbrev pub text : Suffix → List ℕ
text plain = []
text kibi = codes "k"
text kibi_upper = codes "K"
text mebi = codes "m"
text mebi_upper = codes "M"

abbrev pub factor : Suffix → ℕ
factor plain = 1
factor kibi = 1024
factor kibi_upper = 1024
factor mebi = 1024 * 1024
factor mebi_upper = 1024 * 1024

digits-NoSpace : (s t : List ℕ) → All IsDigit s → All NoSpace t → All NoSpace (s ++ t)
unfolding NoSpace
digits-NoSpace [] t h k = k
digits-NoSpace (c ∷ s) t h k = (ground arith, digits-NoSpace s t h.1 k)

text-NoSpace : (u : Suffix) → All NoSpace (text u)
unfolding NoSpace
text-NoSpace plain = tt
text-NoSpace kibi = (refl, tt)
text-NoSpace kibi_upper = (refl, tt)
text-NoSpace mebi = (refl, tt)
text-NoSpace mebi_upper = (refl, tt)

split_suffix-text :
    (s : List ℕ) (u : Suffix) → All IsDigit s → split_suffix (s ++ text u) ≡ (s, factor u)
split_suffix-text s plain h = rw (append-nil s) (split_suffix-digits s h)
split_suffix-text s kibi h = split_suffix-append s 107 1024 (inl (refl, refl))
split_suffix-text s kibi_upper h = split_suffix-append s 75 1024 (inl (refl, refl))
split_suffix-text s mebi h = split_suffix-append s 109 (1024 * 1024) (inr (refl, refl, refl))
split_suffix-text s mebi_upper h = split_suffix-append s 77 (1024 * 1024) (inr (refl, refl, refl))

-- A number below 2 ^ 64 in decimal, with or without a suffix, is read as that number times what the
-- suffix stands for, modulo 2 ^ 64: where the product does not fit, `parse_size` gives another
-- size, not `None`.
pub parse_size-decimal :
    (n : ℕ) (u : Suffix)
    → n < 2 ^ 64
    → parse_size (decimal n ++ text u) ≡ some (n * factor u % 2 ^ 64)
unfolding parse_size
parse_size-decimal n u h =
    let ds = decimal n in
    let digits = decimal-IsDigit n in
    let value = value_from-decimal n (omega arith) in
    let trimmed = trim_lem (ds ++ text u) (digits-NoSpace ds (text u) digits (text-NoSpace u)) in
    let read : parse_usize ds ≡ some n =
      parse_usize-digits ds digits (decimal-nonempty n (omega arith))
      ∙ parse_digits_lem ds 0 digits (omega (arith, value))
      ∙ ap some value in
    ap (λ (p : List ℕ × ℕ). scaled (parse_usize p.0) p.1)
      (ap split_suffix trimmed ∙ split_suffix-text ds u digits)
    ∙ ap (λ o. scaled o (factor u)) read

-- The fields of an age are below 24, 60 and 60, and add up to the seconds.
pub age_of_lem :
    (secs : ℕ)
    → let a = age_of secs in
      (a.d * 86400 + a.h * 3600 + a.m * 60 + a.s ≡ secs) × (a.h < 24) × (a.m < 60) × (a.s < 60)
unfolding age_of
age_of_lem secs = omega arith
