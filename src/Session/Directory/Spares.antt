-- ===== src/Session/Directory/Spares.antt =====
-- `rm` for all sessions leaves a running session alone.
use zatch.Common.{
  ℕ, ◌≡◌, ◌≢◌, inl, inr, List, [], Option, none, some, Bool, true, false, Result, ok, err, refl,
  ◌∙◌,
}
use zatch.Session.{Session}
use zatch.Session.Kill.{connect_socket}
use zatch.Session.Directory.{Entry, Files, lookup, exists, file_stem, is_log, log_of, read_dir}
use zatch.Session.Directory.Store.{
  Stale, Shrinks-none, is_log-log_of, file_stem-log_of, log_of_cancel, exists_some,
}
use zatch.Session.Directory.Remove.{
  stale_body, orphan_body, rm_stale_sockets, rm_orphaned_logs, rm_all, join,
}
use zatch.Session.Directory.Sweep.{
  sweep-keeps, remove_if-other, remove_if-Shrinks, session-other, stale_body-cases, session-Shrinks,
  orphan_body-cases,
}

answers_differ :
    (r : Result (Unit {0}) ℕ) (mode : Option ℕ) → r ≡ ok tt → connect_socket r mode ≢ err 111
unfolding connect_socket
answers_differ (ok u) mode h k = cc
answers_differ (err x) mode h k = cc

module _ (os_error : ℕ → List ℕ) (sess : Session) (dir : List ℕ) (name : List ℕ) (e : Entry) (m : ℕ)
    (log : Option Entry) (there : e.mode ≡ some m) (runs : e.connect ≡ ok tt)
    (named : is_log name ≡ false) where
  -- The session is there, with its log, if it has one; no file has the empty name.
  abbrev Safe : Files → Type 0
  Safe files =
      (lookup name files ≡ some e) × (lookup (log_of name) files ≡ log) × (lookup [] files ≡ none)

  not_empty :
      (n : List ℕ) (files : Files) (x : Entry)
      → lookup [] files ≡ none
      → lookup n files ≡ some x
      → n ≢ []
  not_empty n files x h k q = let k' : lookup [] files ≡ some x = rw q at k in cc

  -- A log is not the session.
  log_differs : (n : List ℕ) → is_log n ≡ true → name ≢ n
  log_differs n h q = let h' : is_log name ≡ true = rw (← q) at h in cc

  -- It answers, so that it is not stale.
  apart_from : (n : List ℕ) (files : Files) → Safe files → Stale n files → name ≢ n
  apart_from n files s t q =
      let found : lookup name files ≡ some t.entry = rw (← q) at t.found in
      let entries : t.entry ≡ e = cc in
      let answer : connect_socket e.connect e.mode ≡ err 111 = rw entries at t.refuses in
      answers_differ e.connect e.mode runs answer

  stale_body-Safe :
      (n : List ℕ) (files : Files) → Safe files → Safe (stale_body os_error sess dir n files).files
  stale_body-Safe n files s = elim (stale_body-cases os_error sess dir n files) [
    | inl (q, h) ↦ rw q s
    | inr (t, q) ↦
        let some_name = not_empty n files t.entry s.2 t.found in
        let apart = apart_from n files s t in
        rw q (
          session-other os_error sess dir n files name apart
                (log_differs (log_of n) (is_log-log_of n some_name))
              ∙ s.0,
          session-other os_error sess dir n files (log_of name)
                (λ k.
                  let l : is_log (log_of name) ≡ false = rw k t.named.0 in
                  let l' = is_log-log_of name (not_empty name files e s.2 s.0) in absurd (cc))
                (λ k. apart (log_of_cancel name n k))
              ∙ s.1,
          Shrinks-none files _ [] (session-Shrinks os_error sess dir n files) s.2,
        )
  ]

  orphan_body-Safe :
      (n : List ℕ) (files : Files) → Safe files → Safe (orphan_body os_error sess dir n files).files
  orphan_body-Safe n files s = elim (orphan_body-cases os_error sess dir n files) [
    | inl (q, f) ↦ rw q s
    | inr (l, a, x, q) ↦ rw q (
      remove_if-other os_error sess (join dir n) n files name (log_differs n l) ∙ s.0,
      remove_if-other os_error sess (join dir n) n files (log_of name) (λ k.
            let stem : file_stem n ≡ name =
              rw (← k) (file_stem-log_of name (not_empty name files e s.2 s.0)) in
            let kept : exists (file_stem n) files ≡ true =
              rw stem (exists_some name files e m s.0 there) in
            absurd (cc))
          ∙ s.1,
      Shrinks-none files _ [] (remove_if-Shrinks os_error sess (join dir n) n files) s.2,
    )
  ]

  rm_all-Safe :
      (opens opens_again : Bool) (files : Files)
      → Safe files
      → Safe (rm_all os_error sess dir opens opens_again files).files
  unfolding rm_all rm_stale_sockets rm_orphaned_logs
  rm_all-Safe opens opens_again files s =
      let first = rm_stale_sockets os_error sess dir opens files in
      sweep-keeps Safe (orphan_body os_error sess dir) orphan_body-Safe
        (read_dir opens_again first.files) first.files
        (sweep-keeps Safe (stale_body os_error sess dir) stale_body-Safe (read_dir opens files)
          files s)

-- The removal of all sessions that are over leaves a file at which a session answers as it is, and
-- that session's log, whatever the other files are, if the file's name has not the extension "log",
-- and no file has the empty name.
pub rm_all-Spares :
    (os_error : ℕ → List ℕ) (sess : Session) (dir : List ℕ) (opens opens_again : Bool)
    (files : Files) (name : List ℕ) (e : Entry) (m : ℕ)
    → lookup name files ≡ some e
    → e.mode ≡ some m
    → e.connect ≡ ok tt
    → is_log name ≡ false
    → lookup [] files ≡ none
    → let left = (rm_all os_error sess dir opens opens_again files).files in
      (lookup name left ≡ some e) × (lookup (log_of name) left ≡ lookup (log_of name) files)
rm_all-Spares os_error sess dir opens opens_again files name e m found there runs named no_name =
    let s =
      rm_all-Safe os_error sess dir name e m (lookup (log_of name) files) there runs named opens
        opens_again files (found, refl, no_name) in
    (s.0, s.1)
