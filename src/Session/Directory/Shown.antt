-- ===== src/Session/Directory/Shown.antt =====
-- What `list` shows once `rm` has removed all sessions that are over.
use zatch.Common.{
  ℕ, ◌≡◌, ◌≢◌, List, [], ◌∷◌, Option, none, some, Bool, true, false, ◌==◌, ==_iff, All, All-append,
  if◌then◌else◌, Result, ok, err, codes, same, same_refl, map, refl, ap, ◌∙◌, Bool-cases, inl, inr,
}
use zatch.Session.{Session, fmt_age}
use zatch.Session.Kill.{connect_socket}
use zatch.Session.Directory.{Entry, Files, lookup, file_stem, is_log, read_dir, meta_secs}
use zatch.Session.Directory.Store.{Stale, Passes, socket_entry-cases, Unlocked, Shrinks-none}
use zatch.Session.Directory.Remove.{rm_all}
use zatch.Session.Directory.Clears.{HasSession, IsClear, rm_all-Clears, rm_all-Shrinks}
use zatch.Session.Directory.Listing.{
  attached, detached, stale, exited, Row, socket_row, log_row, all_rows, list_rows, owner_exec,
}

-- The line is one of a session that runs.
abbrev pub IsRunning : Row → Type 0
IsRunning r = elim r.status [ attached ↦ Unit {0} | detached ↦ Unit {0} | stale ↦ ⊥ | exited ↦ ⊥ ]

-- Every name that `read_dir` lists is found.
found_or :
    (n : List ℕ) (o : Option Entry) (b : Bool) (e : Entry)
    → o ≢ none
    → (if b then some e else o) ≢ none
found_or n o true e h q = cc
found_or n o false e h q = h q

names_found :
    (before : Files) (files : Files)
    → ((n : List ℕ) → lookup n files ≢ none → lookup n before ≢ none)
    → All (λ n. lookup n before ≢ none) (map (λ f. f.0) files)
names_found before [] h = tt
names_found before ((n, e) ∷ files) h = (
  h n (rw (same_refl n) (λ q. cc)),
  names_found before files (λ m k. h m (found_or m (lookup m files) (same m n) e k)),
)

all_rows-All :
    (P : List ℕ → Type 0) (row : List ℕ → Files → List Row) (files : Files)
    → ((n : List ℕ) → P n → All IsRunning (row n files))
    → (names : List (List ℕ)) → All P names
    → All IsRunning (all_rows row names files)
all_rows-All P row files h [] ps = tt
all_rows-All P row files h (n ∷ names) ps =
    All-append IsRunning (row n files) (all_rows row names files) (h n ps.0)
      (all_rows-All P row files h names ps.1)

-- What a socket's loop makes of its connection.
by_answer :
    (name : List ℕ) (files : Files) (e : Entry) (live old : Row)
    → Passes name files e
    → ¬ Stale name files
    → IsRunning live
    → (r : Result (Unit {0}) ℕ) → connect_socket e.connect e.mode ≡ r
    → All IsRunning (elim r [ ok u ↦ live ∷ [] | err x ↦ if x == 111 then old ∷ [] else [] ])
by_answer name files e live old p h l (ok u) c = (l, tt)
by_answer name files e live old p h l (err x) c = elim (Bool-cases (x == 111)) [
  | inr k ↦ rw k tt
  | inl k ↦ absurd (
      h (record {
        entry = e;
        mode = p.mode;
        found = p.found;
        socket = p.socket;
        named = p.named;
        refuses = c ∙ ap err ((==_iff x 111).0 k);
      }))
]

row_runs :
    (b : Bool) (name : List ℕ) (age : Option (List ℕ))
    → IsRunning (record { name = name; age = age; status = if b then attached else detached })
row_runs true name age = tt
row_runs false name age = tt

socket_row-IsRunning :
    (now : ℕ) (name : List ℕ) (files : Files)
    → ¬ Stale name files
    → All IsRunning (socket_row now name files)
unfolding socket_row
socket_row-IsRunning now name files h = elim (socket_entry-cases name files) [
  | inl q ↦ rw (socket_row, q) tt
  | inr (e, q, p) ↦
      rw (socket_row, q)
        (by_answer name files e _ _ p h
          (row_runs (owner_exec e.mode) name (some (fmt_age now (meta_secs e now))))
          (connect_socket e.connect e.mode) refl)
]

log_row-none :
    (now : ℕ) (name : List ℕ) (files : Files)
    → HasSession name files
    → lookup name files ≢ none
    → (is_log name ≡ true → is_log (file_stem name) ≡ false)
    → log_row now name files ≡ []
unfolding log_row
log_row-none now name files h found n = elim (Bool-cases (is_log name)) [
  | inr l ↦ rw l refl
  | inl l ↦ elim (Bool-cases (same name (codes ".ztch-app.log"))) [
    | inl a ↦ rw (l, a) refl
    | inr a ↦ rw (l, a, h l a (n l) found) refl
  ]
]

-- If the directory can be read, no removal fails, and no log is named after a log, then all lines
-- that the list shows behind the removal of all sessions that are over, with those of the exited
-- ones asked for, are lines of sessions that run.
pub rm_all-list :
    (os_error : ℕ → List ℕ) (sess : Session) (dir : List ℕ) (now : ℕ) (files : Files)
    → Unlocked files
    → ((n : List ℕ) → lookup n files ≢ none → is_log n ≡ true → is_log (file_stem n) ≡ false)
    → All IsRunning (list_rows true true true now (rm_all os_error sess dir true true files).files)
unfolding list_rows
rm_all-list os_error sess dir now files u nested =
    let left = (rm_all os_error sess dir true true files).files in
    let clear : (n : List ℕ) → IsClear n left = λ n. rm_all-Clears os_error sess dir files n u in
    let names = names_found left left (λ n h. h) in
    All-append IsRunning (all_rows (socket_row now) (read_dir true left) left) _
      (all_rows-All (λ n. lookup n left ≢ none) (socket_row now) left
        (λ n h. socket_row-IsRunning now n left (clear n).lives) (read_dir true left) names)
      (all_rows-All (λ n. lookup n left ≢ none) (log_row now) left
        (λ n h.
          rw
            (log_row-none now n left (clear n).has_session h (
              nested n
                (λ k. h (Shrinks-none files left n (rm_all-Shrinks os_error sess dir files) k))))
            tt)
        (read_dir true left) names)
