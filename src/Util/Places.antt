-- ===== src/Util/Places.antt =====
-- `get_session_dir` and `expand_sockname` of src/util.rs: where the sockets of sessions are.
use zatch.Common.{
  ◌≡◌, ◌≢◌, ==_iff, refl, sym, ap, ◌∙◌, Bool-cases, inl, inr, append_assoc, append-nil, ℕ, List, [],
  ◌∷◌, ◌++◌, Option, none, some, Bool, true, false, ◌||◌, ◌==◌, if◌then◌else◌, codes, decimal, same,
}
use zatch.Util.Names.{session_shortname, rsplit_next}

-- What the system says of the user's place: $HOME, if it is set; the process's id; and the text of the
-- error with which `create_dir_all` fails, if it does.
pub record Place : Type 0 where
  pub home : Option (List ℕ)
  pub pid : ℕ
  pub create : Option (List ℕ)

-- `PathBuf::join` with a relative path.
unfoldable pub join : List ℕ → List ℕ → List ℕ
join [] name = name
join (c ∷ []) name = if c == b'/' then b'/' ∷ name else c ∷ b'/' ∷ name
join (c ∷ d ∷ path) name = c ∷ join (d ∷ path) name

-- A path, and the messages on standard error that its computation made.
pub record Placed : Type 0 where
  pub path : List ℕ
  pub said : List (List ℕ)

-- The message about a directory that cannot be made, if there is an error. The base of the program's
-- name is what `session_shortname` gives of a path.
unfoldable pub create_error : Place → List ℕ → List ℕ → List (List ℕ)
create_error place progname dir = elim place.create [
  | none ↦ []
  | some e ↦
      (session_shortname progname
        ++ (codes ": could not create session directory '"
            ++ (dir ++ (codes "': " ++ (e ++ codes "\n")))))
      ∷ []
]

-- The home directory, unless it is empty or the root.
abbrev usable : Option (List ℕ) → Option (List ℕ)
usable none = none
usable (some []) = none
usable (some (c ∷ h)) = if same (c ∷ h) (codes "/") then none else some (c ∷ h)

-- The path of the directory.
dir_path : Option (List ℕ) → List ℕ → ℕ → List ℕ
unfolding join
dir_path (some h) base pid = join (join h (codes ".cache")) base
dir_path none base pid = codes "/tmp/." ++ (base ++ (codes "-" ++ decimal pid))

unfoldable pub get_session_dir : Place → List ℕ → Placed
unfolding dir_path create_error
get_session_dir place progname =
    let dir = dir_path (usable place.home) (session_shortname progname) place.pid in
    record { path = dir; said = create_error place progname dir }

-- `name.contains(c)`.
abbrev pub contains : ℕ → List ℕ → Bool
contains c [] = false
contains c (x ∷ s) = x == c || contains c s

-- A name with a '/' is a path already; the directory is made twice otherwise.
unfoldable pub expand_sockname : Place → List ℕ → List ℕ → Placed
unfolding get_session_dir
expand_sockname place progname name =
    let dir = get_session_dir place progname in
    if contains b'/' name then record { path = name; said = [] } else record {
      path = join dir.path name;
      said = dir.said ++ create_error place progname dir.path;
    }

-- A joined path ends in the name behind a '/'.
join-ends :
    (c : ℕ) (path name : List ℕ)
    → (front : List ℕ) × (join (c ∷ path) name ≡ front ++ (b'/' ∷ name))
unfolding join
join-ends c [] name = elim (Bool-cases (c == b'/')) [
  | inl e ↦ rw e ([], refl)
  | inr e ↦ rw e (c ∷ [], refl)
]
join-ends c (d ∷ path) name = let (front, e) = join-ends d path name in (c ∷ front, ap (◌∷◌ c) e)

joined_again :
    (c : ℕ) (path name base : List ℕ)
    → (front : List ℕ) × (join (join (c ∷ path) name) base ≡ front ++ (b'/' ∷ base))
joined_again c path name base =
    let (front, e) = join-ends c path name in by_front front (join (c ∷ path) name) e
  where
    by_front :
        (front inner : List ℕ)
        → inner ≡ front ++ (b'/' ∷ name)
        → (g : List ℕ) × (join inner base ≡ g ++ (b'/' ∷ base))
    by_front [] inner e = rw e (join-ends b'/' name base)
    by_front (x ∷ front) inner e = rw e (join-ends x (front ++ (b'/' ∷ name)) base)

no_empty : (h : Option (List ℕ)) → usable h ≢ some []
no_empty none e = cc
no_empty (some []) e = cc
no_empty (some (c ∷ h)) e = elim (Bool-cases (same (c ∷ h) (codes "/"))) [
  | inl q ↦ let e' = rw (usable, q) at e in cc
  | inr q ↦ let e' = rw (usable, q) at e in cc
]

first_of :
    (front more whole : List ℕ)
    → whole ≡ front ++ (b'/' ∷ more)
    → (c : ℕ) × (path : List ℕ) × (whole ≡ c ∷ path)
first_of [] more whole e = (b'/', more, e)
first_of (x ∷ front) more whole e = (x, front ++ (b'/' ∷ more), e)

-- The directory's path is not empty.
dir_starts :
    (h : Option (List ℕ)) (base : List ℕ) (pid : ℕ)
    → h ≢ some []
    → (c : ℕ) × (path : List ℕ) × (dir_path h base pid ≡ c ∷ path)
unfolding dir_path
dir_starts none base pid n = (b'/', _, refl)
dir_starts (some []) base pid n = absurd (n refl)
dir_starts (some (c ∷ h)) base pid n =
    let (front, q) = joined_again c h (codes ".cache") base in
    first_of front base (dir_path (some (c ∷ h)) base pid) q

rsplit_next-behind :
    (sep : ℕ) (part xs name : List ℕ)
    → rsplit_next sep part (xs ++ (sep ∷ name)) ≡ rsplit_next sep [] name
unfolding rsplit_next
rsplit_next-behind sep part [] name =
    let e : (sep == sep) ≡ true = (==_iff sep sep).1 refl in rw (rsplit_next, e) refl
rsplit_next-behind sep part (x ∷ xs) name = elim (Bool-cases (x == sep)) [
  | inl e ↦ rw (rsplit_next, e) (rsplit_next-behind sep [] xs name)
  | inr e ↦ rw (rsplit_next, e) (rsplit_next-behind sep (part ++ (x ∷ [])) xs name)
]

rsplit_next-alone :
    (sep : ℕ) (part name : List ℕ)
    → contains sep name ≡ false
    → rsplit_next sep part name ≡ part ++ name
unfolding rsplit_next
rsplit_next-alone sep part [] h = sym (append-nil part)
rsplit_next-alone sep part (x ∷ s) h = elim (Bool-cases (x == sep)) [
  | inl e ↦ let no : true ≡ false = rw e at h in cc
  | inr e ↦
      rw (rsplit_next, e)
        (rsplit_next-alone sep (part ++ (x ∷ [])) s (rw e at h) ∙ append_assoc part (x ∷ []) s)
]

-- The name of a session that has no '/' is the last component of its socket's path, so that messages
-- name the session as the user did, wherever the directory is.
pub expand_sockname-shortname :
    (place : Place) (progname name : List ℕ)
    → contains b'/' name ≡ false
    → session_shortname (expand_sockname place progname name).path ≡ name
unfolding expand_sockname get_session_dir session_shortname
expand_sockname-shortname place progname name h =
    let (c, path, e) =
      dir_starts (usable place.home) (session_shortname progname) place.pid (no_empty place.home) in
    let (front, q) = join-ends c path name in
    rw (h, e, q) (rsplit_next-behind b'/' [] front name ∙ rsplit_next-alone b'/' [] name h)
