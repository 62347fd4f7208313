-- ===== src/Util/Tests.antt =====
-- The helpers at concrete texts, and the theorems on them at concrete inputs.
use zatch.Common.{
  ℕ, ◌*◌, ◌^◌, ◌%◌, ◌≡◌, List, [], ◌∷◌, ◌++◌, some, none, codes, decimal, refl, arith,
}
use zatch.Util.Names.{session_shortname, session_envvar_name}
use zatch.Util.Places.{expand_sockname, expand_sockname-shortname}
use zatch.Util.Tail.{tail_loop, tail_round, find_tail_start}
use zatch.Util.Parse.{split_suffix, parse_usize, parse_size, parse_escape_char, age_of, format_age}
use zatch.Util.Parse.RoundTrip.{mebi, text, parse_size-decimal}

run_shortname : session_shortname (codes "/a/b/mysession") ≡ codes "mysession"
unfolding session_shortname
run_shortname = refl

run_envvar_name : session_envvar_name (codes "my-term") ≡ codes "MY_TERM_SESSION"
unfolding session_envvar_name
run_envvar_name = refl

run_size : parse_size (codes "  2k  ") ≡ some 2048
unfolding parse_size split_suffix parse_usize
run_size = refl

run_no_size : parse_size (codes "abc") ≡ none
unfolding parse_size split_suffix parse_usize
run_no_size = refl

run_escape : parse_escape_char (codes "^C") ≡ 3
unfolding parse_escape_char
run_escape = refl

run_age : format_age 90061 ≡ codes "1d 1h 1m 1s"
unfolding format_age age_of decimal
run_age = refl

run_short_age : format_age 65 ≡ codes "1m 5s"
unfolding format_age age_of decimal
run_short_age = refl

-- "a\nb\nc\n", in chunks of 4 bytes: the last two lines start at offset 2.
abbrev lines : List ℕ
lines = 97 ∷ 10 ∷ 98 ∷ 10 ∷ 99 ∷ 10 ∷ []

run_tail : find_tail_start 4 lines 6 2 (4 ∷ 4 ∷ []) ≡ some 2
unfolding find_tail_start tail_loop tail_round
run_tail = refl

-- 2 ^ 44 mebibytes are read as no bytes.
parse_size-decimal_example :
    parse_size (decimal 17592186044416 ++ text mebi)
    ≡ some (17592186044416 * (1024 * 1024) % 2 ^ 64)
parse_size-decimal_example = parse_size-decimal 17592186044416 mebi (omega arith)

expand_sockname-shortname_example :
    session_shortname
      (expand_sockname
        (record { home = some (codes "/home/u"); pid = 5; create = none })
        (codes "/usr/bin/ztch")
        (codes "work")).path
    ≡ codes "work"
expand_sockname-shortname_example =
    expand_sockname-shortname (record { home = some (codes "/home/u"); pid = 5; create = none })
      (codes "/usr/bin/ztch") (codes "work") refl
