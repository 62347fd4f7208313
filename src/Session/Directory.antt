-- ===== src/Session/Directory.antt =====
-- The session directory as src/session.rs sees it: its files, their names, and the first tests of
-- the loops over it. Names are strings without '/'; a file of a failing `metadata` is a link to
-- nothing.
pub mod Store
pub mod Remove
pub mod Sweep
pub mod Spares
pub mod Clears
pub mod Listing
pub mod Shown
pub mod Single
pub mod Attached
mod Tests
use zatch.Common.{
  ℕ, ◌≡◌, List, [], ◌∷◌, ◌++◌, Option, none, some, Bool, true, false, ◌==◌, if◌then◌else◌, Result,
  ok, err, codes, same, map,
}
use zatch.Session.Kill.{is_socket, connect_socket}

-- What the kernel says of a file: `st_mode`, its times (0 for one that is not positive), what
-- `connect` gives, and the errno with which its removal fails, if it does.
pub record Entry : Type 0 where
  pub mode : Option ℕ
  pub mtime : ℕ
  pub ctime : ℕ
  pub connect : Result (Unit {0}) ℕ
  pub locked : Option ℕ

abbrev pub Files : Type 0
Files = List (List ℕ × Entry)

abbrev pub lookup : List ℕ → Files → Option Entry
lookup name [] = none
lookup name ((n, e) ∷ files) =
    let later = lookup name files in if same name n then some e else later

abbrev pub remove : List ℕ → Files → Files
remove name [] = []
remove name ((n, e) ∷ files) =
    let later = remove name files in if same name n then later else (n, e) ∷ later

-- `remove_file`; ENOENT is 2.
unfoldable pub remove_file : List ℕ → Files → Result Files ℕ
remove_file name files = elim (lookup name files) [
  | none ↦ err 2
  | some e ↦ elim e.locked [ none ↦ ok (remove name files) | some errno ↦ err errno ]
]

-- `connect_socket` at a name.
unfoldable pub connect_at : List ℕ → Files → Result (Unit {0}) ℕ
connect_at name files = elim (lookup name files) [
  | none ↦ err 2
  | some e ↦ connect_socket e.connect e.mode
]

-- `path.exists()`.
unfoldable pub exists : List ℕ → Files → Bool
exists name files = elim (lookup name files) [
  | none ↦ false
  | some e ↦ elim e.mode [ none ↦ false | some m ↦ true ]
]

-- What stands before and behind the last dot of a name.
unfoldable pub rsplit_dot : List ℕ → Option (List ℕ × List ℕ)
rsplit_dot [] = none
rsplit_dot (c ∷ s) = elim (rsplit_dot s) [
  | some (before, after) ↦ some (c ∷ before, after)
  | none ↦ if c == b'.' then some ([], s) else none
]

-- `Path::extension`: a dot at the start does not count.
unfoldable pub extension : List ℕ → Option (List ℕ)
unfolding rsplit_dot
extension name = elim (rsplit_dot name) [
  | none ↦ none
  | some ([], after) ↦ none
  | some (c ∷ before, after) ↦ some after
]

-- `Path::file_stem`.
unfoldable pub file_stem : List ℕ → List ℕ
unfolding rsplit_dot
file_stem name = elim (rsplit_dot name) [
  | none ↦ name
  | some ([], after) ↦ name
  | some (c ∷ before, after) ↦ c ∷ before
]

-- The extension is "log".
unfoldable pub is_log : List ℕ → Bool
unfolding extension
is_log name = elim (extension name) [ none ↦ false | some x ↦ same x (codes "log") ]

-- `format!("{}.log", name)`.
abbrev pub log_of : List ℕ → List ℕ
log_of name = name ++ codes ".log"

-- `name.starts_with('.')`.
abbrev pub hidden : List ℕ → Bool
hidden [] = false
hidden (c ∷ s) = c == b'.'

-- The tests with which each loop over sockets begins: what is left is a socket that is neither a log
-- nor hidden.
unfoldable pub socket_entry : List ℕ → Files → Option Entry
unfolding is_log
socket_entry name files =
    let here : Option Entry = elim (lookup name files) [
      | none ↦ none
      | some e ↦ elim e.mode [ none ↦ none | some m ↦ if is_socket m then some e else none ]
    ] in
    if is_log name then none else if hidden name then none else here

-- `read_dir`: the names at the start of the loop, or none of them if it fails.
abbrev pub read_dir : Bool → Files → List (List ℕ)
read_dir false files = []
read_dir true files = map (λ f. f.0) files

-- `fmt_age`'s time: st_mtime, else st_ctime, else `now`.
unfoldable pub meta_secs : Entry → ℕ → ℕ
meta_secs e now = if e.mtime == 0 then (if e.ctime == 0 then now else e.ctime) else e.mtime

-- `socket_start_time`: when the session at a path was started, as far as its file tells.
unfoldable pub socket_start_time : ℕ → List ℕ → Files → ℕ
unfolding meta_secs
socket_start_time now path files = elim (lookup path files) [
  | none ↦ now
  | some e ↦ elim e.mode [ none ↦ now | some m ↦ meta_secs e now ]
]
