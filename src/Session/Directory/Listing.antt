-- ===== src/Session/Directory/Listing.antt =====
-- `Session::list` and `Session::cmd_detach_all` of src/session.rs.
use Prim.Native.Nat.{bit_and}
use zatch.Common.{
  ℕ, ◌+◌, ◌-◌, List, [], ◌∷◌, ◌++◌, Option, none, some, Bool, false, not, ◌&&◌, ◌==◌, if◌then◌else◌,
  Result, ok, err, length, replicate, map, codes, same,
}
use zatch.Os.{Write}
use zatch.Wire.{force_detach, new, ProtocolError, write_to}
use zatch.Log.App.{LogLevel}
use zatch.Session.{Session, Act, print, app_log, info, fmt_age}
use zatch.Session.Kill.{connect_socket}
use zatch.Session.Directory.{
  Entry, Files, lookup, exists, file_stem, is_log, socket_entry, read_dir, meta_secs,
}

-- What the list says of a session.
pub data Status : Type 0 where
  attached detached stale exited : Status

-- A line of the list; `age` is none where the code says "unknown".
pub record Row : Type 0 where
  pub name : List ℕ
  pub age : Option (List ℕ)
  pub status : Status

-- S_IXUSR is set.
abbrev pub owner_exec : Option ℕ → Bool
owner_exec none = false
owner_exec (some m) = not (bit_and m 0o100 == 0)

-- The body of the loop over sockets.
unfoldable pub socket_row : ℕ → List ℕ → Files → List Row
socket_row now name files = elim (socket_entry name files) [
  | none ↦ []
  | some e ↦
      let age = some (fmt_age now (meta_secs e now)) in
      elim (connect_socket e.connect e.mode) [
        | ok u ↦
            record {
              name = name;
              age = age;
              status = if owner_exec e.mode then attached else detached;
            }
            ∷ []
        | err x ↦ if x == 111 then record { name = name; age = age; status = stale } ∷ [] else []
      ]
]

-- The age of a file of which `metadata` may tell nothing.
abbrev log_age : ℕ → Option Entry → Option (List ℕ)
log_age now none = none
log_age now (some e) = elim e.mode [ none ↦ none | some m ↦ some (fmt_age now (meta_secs e now)) ]

-- The body of the loop over logs.
unfoldable pub log_row : ℕ → List ℕ → Files → List Row
log_row now name files =
    let row : Row = record {
      name = file_stem name;
      age = log_age now (lookup name files);
      status = exited;
    } in
    if is_log name
    then (if same name (codes ".ztch-app.log")
        then []
        else if exists (file_stem name) files
        then []
        else row ∷ [])
    else []

abbrev pub all_rows : (List ℕ → Files → List Row) → List (List ℕ) → Files → List Row
all_rows row [] files = []
all_rows row (name ∷ names) files = row name files ++ all_rows row names files

-- The lines of the list, in order; `opens` and `opens_again` are the results of `read_dir`.
unfoldable pub list_rows : Bool → Bool → Bool → ℕ → Files → List Row
unfolding socket_row log_row
list_rows show_all opens opens_again now files =
    all_rows (socket_row now) (read_dir opens files) files
    ++ (if show_all then all_rows (log_row now) (read_dir opens_again files) files else [])

abbrev status_text : Status → List ℕ
status_text attached = codes " ago [attached]\n"
status_text detached = codes " ago\n"
status_text stale = codes " ago [stale]\n"
status_text exited = codes " ago [exited]\n"

abbrev age_text : Option (List ℕ) → List ℕ
age_text none = codes "unknown"
age_text (some age) = age

-- `{:<24} since {} ago …`: names are padded to 24 characters.
unfoldable pub row_text : Row → List ℕ
row_text r =
    r.name
    ++ (replicate (24 - length r.name) b' '
        ++ (codes " since " ++ (age_text r.age ++ status_text r.status)))

-- `list`, whose exit code is 0.
unfoldable pub list : Session → Bool → Bool → Bool → ℕ → Files → List Act
unfolding list_rows row_text
list sess show_all opens opens_again now files =
    let rows = list_rows show_all opens opens_again now files in
    map (λ r. print (row_text r)) rows
    ++ (if length rows == 0 && not sess.quiet
        then app_log LogLevel.info (codes "no sessions") ∷ print (codes "(no sessions)\n") ∷ []
        else [])

-- What `cmd_detach_all` leaves: what it said, the bytes that each session was sent, and the count.
pub record Detached : Type 0 where
  pub acts : List Act
  pub sent : List (List ℕ × List ℕ)
  pub count : ℕ

-- One session was written to with this result.
abbrev detach_said :
    Session → List ℕ → List ℕ → Option (Result (Unit {0}) ProtocolError) → Option Detached
detach_said sess name out none = none
detach_said sess name out (some (ok u)) = some (record {
  acts = info sess (codes "session '" ++ (name ++ codes "' detached"));
  sent = (name, out) ∷ [];
  count = 1;
})
detach_said sess name out (some (err e)) =
    some (record { acts = []; sent = (name, out) ∷ []; count = 0 })

abbrev detach_nothing : Detached
detach_nothing = record { acts = []; sent = []; count = 0 }

-- The body of its loop; `writes` are the answers to the writes to each session.
unfoldable pub detach_body : Session → (List ℕ → List Write) → List ℕ → Files → Option Detached
detach_body sess writes name files =
    let w = write_to (new force_detach) (writes name) in
    elim (socket_entry name files) [
      | none ↦ some detach_nothing
      | some e ↦ elim (connect_socket e.connect e.mode) [
        | err x ↦ some detach_nothing
        | ok u ↦ detach_said sess name w.out w.result
      ]
    ]

abbrev both_detached : Option Detached → Option Detached → Option Detached
both_detached none later = none
both_detached (some a) none = none
both_detached (some a) (some b) =
    some (record { acts = a.acts ++ b.acts; sent = a.sent ++ b.sent; count = a.count + b.count })

abbrev detach_each : Session → (List ℕ → List Write) → List (List ℕ) → Files → Option Detached
detach_each sess writes [] files = some detach_nothing
detach_each sess writes (name ∷ names) files =
    both_detached (detach_body sess writes name files) (detach_each sess writes names files)

-- No session was detached: it says so.
abbrev detach_told : Session → Option Detached → Option Detached
detach_told sess none = none
detach_told sess (some r) = some (record r {
  acts = r.acts ++ (if r.count == 0 then info sess (codes "no active sessions to detach") else []);
})

-- `cmd_detach_all`, whose exit code is 0. No result: a write has not come back.
unfoldable pub cmd_detach_all : Session → (List ℕ → List Write) → Bool → Files → Option Detached
unfolding detach_body
cmd_detach_all sess writes opens files =
    detach_told sess (detach_each sess writes (read_dir opens files) files)
