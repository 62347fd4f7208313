-- ===== src/Session/Directory/Remove.antt =====
-- `Session::rm` of src/session.rs: one session, or all that are over.
use zatch.Common.{
  ℕ, ◌+◌, List, [], ◌∷◌, ◌++◌, none, some, Bool, ◌==◌, if◌then◌else◌, ok, err, codes, decimal, same,
}
use zatch.Log.App.{LogLevel}
use zatch.Util.Names.{session_shortname}
use zatch.Session.{Session, Act, about_session, status, info, warn}
use zatch.Session.Kill.{connect_socket}
use zatch.Session.Directory.{
  Files, remove_file, connect_at, exists, file_stem, is_log, log_of, socket_entry, read_dir,
}

-- What a removal leaves: the files, what was said, and the number of sessions removed.
pub record Swept : Type 0 where
  pub files : Files
  pub acts : List Act
  pub count : ℕ

-- `remove_file_if_exists`; `path` is how a message names the file.
unfoldable pub remove_file_if_exists :
    (ℕ → List ℕ) → Session → List ℕ → List ℕ → Files → Files × List Act
remove_file_if_exists os_error sess path name files = elim (remove_file name files) [
  | ok left ↦ (left, [])
  | err e ↦ (
    files,
    if e == 2
        then []
        else warn sess (codes "could not remove '" ++ (path ++ (codes "': " ++ os_error e))),
  )
]

-- `dir.join(name)`.
abbrev pub join : List ℕ → List ℕ → List ℕ
join dir name = dir ++ (b'/' ∷ name)

-- The body of the loop of `rm_stale_sockets` behind the test of the connection.
unfoldable pub remove_session : (ℕ → List ℕ) → Session → List ℕ → List ℕ → Files → Swept
unfolding remove_file_if_exists
remove_session os_error sess dir name files =
    let (files1, acts1) = remove_file_if_exists os_error sess (join dir name) name files in
    let (files2, acts2) =
      remove_file_if_exists os_error sess (join dir (log_of name)) (log_of name) files1 in
    record {
      files = files2;
      acts = acts1 ++ (acts2 ++ info sess (codes "removed " ++ name));
      count = 1;
    }

abbrev pub nothing_swept : Files → Swept
nothing_swept files = record { files = files; acts = []; count = 0 }

-- The body of the loop of `rm_stale_sockets`. ECONNREFUSED is 111.
unfoldable pub stale_body : (ℕ → List ℕ) → Session → List ℕ → List ℕ → Files → Swept
unfolding remove_session
stale_body os_error sess dir name files = elim (socket_entry name files) [
  | none ↦ nothing_swept files
  | some e ↦ elim (connect_socket e.connect e.mode) [
    | ok u ↦ nothing_swept files
    | err x ↦ if x == 111 then remove_session os_error sess dir name files else nothing_swept files
  ]
]

-- The body of the loop of `rm_orphaned_logs`.
unfoldable pub orphan_body : (ℕ → List ℕ) → Session → List ℕ → List ℕ → Files → Swept
unfolding remove_file_if_exists
orphan_body os_error sess dir name files =
    let (left, said) = remove_file_if_exists os_error sess (join dir name) name files in
    let removed : Swept = record {
      files = left;
      acts = said ++ info sess (codes "removed " ++ file_stem name);
      count = 1;
    } in
    if is_log name
    then (if same name (codes ".ztch-app.log")
        then nothing_swept files
        else if exists (file_stem name) files
        then nothing_swept files
        else removed)
    else nothing_swept files

-- One round after another.
abbrev pub sweep : (List ℕ → Files → Swept) → List (List ℕ) → Files → Swept
sweep body [] files = nothing_swept files
sweep body (name ∷ names) files =
    let first = body name files in
    let later = sweep body names first.files in
    record {
      files = later.files;
      acts = first.acts ++ later.acts;
      count = first.count + later.count;
    }

-- `opens` says whether `read_dir` succeeds.
unfoldable pub rm_stale_sockets : (ℕ → List ℕ) → Session → List ℕ → Bool → Files → Swept
unfolding stale_body
rm_stale_sockets os_error sess dir opens files =
    sweep (stale_body os_error sess dir) (read_dir opens files) files

unfoldable pub rm_orphaned_logs : (ℕ → List ℕ) → Session → List ℕ → Bool → Files → Swept
unfolding orphan_body
rm_orphaned_logs os_error sess dir opens files =
    sweep (orphan_body os_error sess dir) (read_dir opens files) files

-- `rm(true)`, whose exit code is 0: `opens` and `opens_again` are the results of its two calls of
-- `read_dir`.
unfoldable pub rm_all : (ℕ → List ℕ) → Session → List ℕ → Bool → Bool → Files → Swept
unfolding rm_stale_sockets rm_orphaned_logs
rm_all os_error sess dir opens opens_again files =
    let first = rm_stale_sockets os_error sess dir opens files in
    let second = rm_orphaned_logs os_error sess dir opens_again first.files in
    let count = first.count + second.count in
    let said =
      if count == 0
      then info sess (codes "nothing to remove")
      else info sess (decimal count ++ codes " session(s) removed") in
    record { files = second.files; acts = first.acts ++ (second.acts ++ said); count = count }

-- What a command leaves: its exit code, what it said, and the files.
pub record Removed : Type 0 where
  pub code : ℕ
  pub acts : List Act
  pub files : Files

-- `rm_single`, on the files by their paths.
unfoldable pub rm_single : (ℕ → List ℕ) → Session → Files → Removed
unfolding remove_file_if_exists
rm_single os_error sess files =
    let log_path = log_of sess.sockname in
    let removed = info sess (about_session sess (codes " removed")) in
    let (files1, acts1) = remove_file_if_exists os_error sess sess.sockname sess.sockname files in
    let (files2, acts2) = remove_file_if_exists os_error sess log_path log_path files1 in
    let name = session_shortname sess.sockname in
    let no_log : Removed = elim (remove_file log_path files) [
      | ok left ↦ record { code = 0; acts = removed; files = left }
      | err e ↦ record {
        code = 1;
        acts =
            if e == 2
            then warn sess (about_session sess (codes " does not exist"))
            else warn sess
                (codes "could not remove '" ++ (log_path ++ (codes "': " ++ os_error e)));
        files = files;
      }
    ] in
    elim (connect_at sess.sockname files) [
      | ok u ↦ record {
        code = 1;
        acts = status sess LogLevel.error (
            about_session sess (
              codes " is running (use '"
              ++ (sess.progname ++ (codes " kill " ++ (name ++ codes "' first)")))));
        files = files;
      }
      | err x ↦
          if x == 111
          then record { code = 0; acts = acts1 ++ (acts2 ++ removed); files = files2 }
          else if x == 2
          then no_log
          else record {
            code = 1;
            acts = warn sess (sess.sockname ++ (codes ": " ++ os_error x));
            files = files;
          }
    ]
