-- ===== src/Session/Directory/Store.antt =====
-- Lookup and removal of files by name, and the names of logs.
use zatch.Common.{
  ℕ, ◌≡◌, ◌≢◌, ◌⊎◌, inl, inr, List, [], ◌∷◌, Option, none, some, true, false, All, map, ok, err,
  codes, same, same→eq, refl, sym, ap, ◌∙◌, if◌then◌else◌, Bool-cases, Option-cases,
}
use zatch.Session.Kill.{is_socket, connect_socket}
use zatch.Session.Directory.{
  Entry, Files, lookup, remove, remove_file, exists, rsplit_dot, extension, file_stem, is_log,
  log_of, hidden, socket_entry,
}

pub same-false : (xs ys : List ℕ) → xs ≢ ys → same xs ys ≡ false
same-false xs ys h = elim (Bool-cases (same xs ys)) [
  | inl e ↦ absurd (h (same→eq xs ys e))
  | inr e ↦ e
]

pub lookup-remove : (name : List ℕ) (files : Files) → lookup name (remove name files) ≡ none
lookup-remove name [] = refl
lookup-remove name ((n, e) ∷ files) = elim (Bool-cases (same name n)) [
  | inl h ↦ rw h (lookup-remove name files)
  | inr h ↦ rw (h, lookup, h) (lookup-remove name files)
]

pub lookup-remove_other :
    (m name : List ℕ) (files : Files) → m ≢ name → lookup m (remove name files) ≡ lookup m files
lookup-remove_other m name [] h = refl
lookup-remove_other m name ((n, e) ∷ files) h = elim (Bool-cases (same name n)) [
  | inl k ↦
      let differs : same m n ≡ false = same-false m n (λ q. h (q ∙ sym (same→eq name n k))) in
      rw (k, differs) (lookup-remove_other m name files h)
  | inr k ↦ elim (Bool-cases (same m n)) [
    | inl q ↦ rw (k, lookup, q) refl
    | inr q ↦ rw (k, lookup, q) (lookup-remove_other m name files h)
  ]
]

-- A name that is found is one of those that `read_dir` lists.
pub All-lookup {κ} :
    (P : List ℕ → Type κ) (files : Files) (name : List ℕ)
    → All P (map (λ f. f.0) files)
    → lookup name files ≢ none
    → P name
All-lookup P [] name hs h = absurd (h refl)
All-lookup P ((n, e) ∷ files) name hs h = elim (Bool-cases (same name n)) [
  | inl q ↦ rw (same→eq name n q) hs.0
  | inr q ↦ All-lookup P files name hs.1 (rw q at h)
]

-- The files only get fewer.
abbrev pub Shrinks : Files → Files → Type 0
Shrinks before after = (m : List ℕ) → (lookup m after ≡ lookup m before) ⊎ (lookup m after ≡ none)

pub Shrinks-some :
    (before after : Files) (m : List ℕ) (e : Entry)
    → Shrinks before after
    → lookup m after ≡ some e
    → lookup m before ≡ some e
Shrinks-some before after m e s h = elim (s m) [ inl q ↦ sym q ∙ h | inr q ↦ cc ]

pub Shrinks-none :
    (before after : Files) (m : List ℕ)
    → Shrinks before after
    → lookup m before ≡ none
    → lookup m after ≡ none
Shrinks-none before after m s h = elim (s m) [ inl q ↦ q ∙ h | inr q ↦ q ]

pub Shrinks-trans : (a b c : Files) → Shrinks a b → Shrinks b c → Shrinks a c
Shrinks-trans a b c s t m = elim (t m) [
  | inr q ↦ inr q
  | inl q ↦ elim (s m) [ inl r ↦ inl (q ∙ r) | inr r ↦ inr (q ∙ r) ]
]

-- No removal of a file that is there fails.
abbrev pub Unlocked : Files → Type 0
Unlocked files = (m : List ℕ) (e : Entry) → lookup m files ≡ some e → e.locked ≡ none

pub All-Unlocked : (files : Files) → All (λ f. f.1.locked ≡ none) files → Unlocked files
All-Unlocked [] hs m e h = cc
All-Unlocked ((n, x) ∷ files) hs m e h = elim (Bool-cases (same m n)) [
  | inl q ↦
      let found : some x ≡ some e = rw q at h in let entries : x ≡ e = cc in rw (← entries) hs.0
  | inr q ↦ All-Unlocked files hs.1 m e (rw q at h)
]

pub Shrinks-Unlocked : (a b : Files) → Shrinks a b → Unlocked a → Unlocked b
Shrinks-Unlocked a b s u m e h = u m e (Shrinks-some a b m e s h)

rsplit_dot-log_of : (name : List ℕ) → rsplit_dot (log_of name) ≡ some (name, codes "log")
unfolding rsplit_dot
rsplit_dot-log_of [] = refl
rsplit_dot-log_of (c ∷ name) = rw (rsplit_dot-log_of name) refl

pub is_log-log_of : (name : List ℕ) → name ≢ [] → is_log (log_of name) ≡ true
unfolding is_log extension
is_log-log_of [] h = absurd (h refl)
is_log-log_of (c ∷ name) h = rw (rsplit_dot-log_of (c ∷ name)) refl

pub file_stem-log_of : (name : List ℕ) → name ≢ [] → file_stem (log_of name) ≡ name
unfolding file_stem
file_stem-log_of [] h = absurd (h refl)
file_stem-log_of (c ∷ name) h = rw (rsplit_dot-log_of (c ∷ name)) refl

-- What stands before the dot.
abbrev front : Option (List ℕ × List ℕ) → List ℕ
front none = []
front (some (before, after)) = before

pub log_of_cancel : (m n : List ℕ) → log_of m ≡ log_of n → m ≡ n
log_of_cancel m n h = ap front (sym (rsplit_dot-log_of m) ∙ (ap rsplit_dot h ∙ rsplit_dot-log_of n))

pub exists_some :
    (name : List ℕ) (files : Files) (e : Entry) (m : ℕ)
    → lookup name files ≡ some e
    → e.mode ≡ some m
    → exists name files ≡ true
unfolding exists
exists_some name files e m h k = rw (exists, h, k) refl

-- A socket that is no log and answers with ECONNREFUSED.
pub record Stale (name : List ℕ) (files : Files) : Type 0 where
  pub entry : Entry
  pub mode : ℕ
  pub found : lookup name files ≡ some entry
  pub socket : (entry.mode ≡ some mode) × (is_socket mode ≡ true)
  pub named : (is_log name ≡ false) × (hidden name ≡ false)
  pub refuses : connect_socket entry.connect entry.mode ≡ err 111

-- What passes the tests of a loop over sockets.
pub record Passes (name : List ℕ) (files : Files) (e : Entry) : Type 0 where
  pub mode : ℕ
  pub found : lookup name files ≡ some e
  pub socket : (e.mode ≡ some mode) × (is_socket mode ≡ true)
  pub named : (is_log name ≡ false) × (hidden name ≡ false)

by_mode :
    (name : List ℕ) (files : Files) (e : Entry) (o : Option ℕ)
    → lookup name files ≡ some e
    → is_log name ≡ false
    → hidden name ≡ false
    → e.mode ≡ o
    → (o' : Option Entry)
    → o' ≡ (elim o [ none ↦ none | some m ↦ if is_socket m then some e else none ])
    → (o' ≡ none) ⊎ ((x : Entry) × (o' ≡ some x) × Passes name files x)
by_mode name files e none n l h q o' r = inl r
by_mode name files e (some m) n l h q o' r = elim (Bool-cases (is_socket m)) [
  | inr k ↦ inl (rw k at r)
  | inl k ↦ inr (e, rw k at r, record { mode = m; found = n; socket = (q, k); named = (l, h) })
]

pub socket_entry-cases :
    (name : List ℕ) (files : Files)
    → (socket_entry name files ≡ none)
      ⊎ ((e : Entry) × (socket_entry name files ≡ some e) × Passes name files e)
unfolding socket_entry
socket_entry-cases name files = elim (Bool-cases (is_log name)) [
  | inl l ↦ rw l (inl refl)
  | inr l ↦ elim (Bool-cases (hidden name)) [
    | inl h ↦ rw (l, h) (inl refl)
    | inr h ↦ elim (Option-cases (lookup name files)) [
      | inl n ↦ rw (l, h, n) (inl refl)
      | inr (e, n) ↦
          by_mode name files e e.mode n l h refl (socket_entry name files) (rw (l, h, n) refl)
    ]
  ]
]

-- A stale socket passes the tests.
by_mode-socket :
    (e : Entry) (o : Option ℕ) (m : ℕ)
    → o ≡ some m
    → is_socket m ≡ true
    → (elim o [ none ↦ none | some k ↦ if is_socket k then some e else none ]) ≡ some e
by_mode-socket e none m q k = cc
by_mode-socket e (some x) m q k = let same_mode : x ≡ m = cc in rw (same_mode, k) refl

pub Stale-passes :
    (name : List ℕ) (files : Files) (s : Stale name files) → socket_entry name files ≡ some s.entry
unfolding socket_entry
Stale-passes name files s =
    rw (s.named.0, s.named.1, s.found)
      (by_mode-socket s.entry s.entry.mode s.mode s.socket.0 s.socket.1)

-- `remove_file` finds no file, removes one, or fails at one.
pub data Removal (name : List ℕ) (files : Files) : Type 0 where
  absent : lookup name files ≡ none → remove_file name files ≡ err 2 → Removal name files
  gone :
      (e : Entry)
      → lookup name files ≡ some e
      → remove_file name files ≡ ok (remove name files)
      → Removal name files
  stuck :
      (e : Entry) (x : ℕ)
      → lookup name files ≡ some e
      → e.locked ≡ some x
      → remove_file name files ≡ err x
      → Removal name files

by_lock :
    (name : List ℕ) (files : Files) (e : Entry) (o : Option ℕ)
    → lookup name files ≡ some e
    → e.locked ≡ o
    → remove_file name files ≡ (elim o [ none ↦ ok (remove name files) | some x ↦ err x ])
    → Removal name files
by_lock name files e none n q r = gone e n r
by_lock name files e (some x) n q r = stuck e x n q r

pub remove_file-cases : (name : List ℕ) (files : Files) → Removal name files
unfolding remove_file
remove_file-cases name files = elim (Option-cases (lookup name files)) [
  | inl n ↦ absent n (rw (remove_file, n) refl)
  | inr (e, n) ↦ by_lock name files e e.locked n refl (rw (remove_file, n) refl)
]
