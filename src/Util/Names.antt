-- ===== src/Util/Names.antt =====
-- `session_shortname` and `session_envvar_name` of src/util.rs. A string is its list of code points.
use zatch.Common.{ℕ, ◌-◌, List, [], ◌∷◌, ◌++◌, Bool, ◌&&◌, ◌||◌, leb, ◌==◌, if◌then◌else◌, codes}

-- `s.rsplit(sep).next()`: what stands behind the last separator; `part` is what was read since the
-- last one.
unfoldable pub rsplit_next : ℕ → List ℕ → List ℕ → List ℕ
rsplit_next sep part [] = part
rsplit_next sep part (c ∷ s) = rsplit_next sep (if c == sep then [] else part ++ c ∷ []) s

-- The last component of a path.
unfoldable pub session_shortname : List ℕ → List ℕ
unfolding rsplit_next
session_shortname sockname = rsplit_next b'/' [] sockname

abbrev is_ascii_digit : ℕ → Bool
is_ascii_digit c = leb b'0' c && leb c b'9'

abbrev is_ascii_upper : ℕ → Bool
is_ascii_upper c = leb b'A' c && leb c b'Z'

abbrev is_ascii_lower : ℕ → Bool
is_ascii_lower c = leb b'a' c && leb c b'z'

-- One character of the variable's name.
envvar_char : ℕ → ℕ
envvar_char c =
    if is_ascii_lower c then c - 32 else if is_ascii_digit c || is_ascii_upper c then c else b'_'

envvar_chars : List ℕ → List ℕ
unfolding envvar_char
envvar_chars [] = []
envvar_chars (c ∷ s) = envvar_char c ∷ envvar_chars s

unfoldable pub session_envvar_name : List ℕ → List ℕ
unfolding envvar_chars rsplit_next
session_envvar_name progname = envvar_chars (rsplit_next b'/' [] progname) ++ codes "_SESSION"
