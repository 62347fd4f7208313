-- ===== src/Session/Directory/Clears.antt =====
-- `rm` for all sessions removes what is over.
use zatch.Common.{ℕ, ◌≡◌, ◌≢◌, inl, inr, List, none, true, false, All, codes, refl, ◌∙◌, same}
use zatch.Session.{Session}
use zatch.Session.Directory.{Files, lookup, exists, file_stem, is_log, read_dir}
use zatch.Session.Directory.Store.{
  Stale, Shrinks, Shrinks-some, Shrinks-none, Shrinks-trans, Unlocked, Shrinks-Unlocked, All-lookup,
}
use zatch.Session.Directory.Remove.{
  Swept, stale_body, orphan_body, rm_stale_sockets, rm_orphaned_logs, rm_all, join, sweep,
}
use zatch.Session.Directory.Sweep.{
  sweep-keeps, sweep-All, remove_if-other, remove_if-gone, session-gone, stale_body-cases,
  stale_body-Shrinks, orphan_body-cases, orphan_body-Shrinks,
}

-- The file at `name` is no log that `rm` looks at, or the file that it is named after is there.
abbrev pub HasSession : List ℕ → Files → Type 0
HasSession name files =
    is_log name ≡ true
    → same name (codes ".ztch-app.log") ≡ false
    → is_log (file_stem name) ≡ false
    → lookup name files ≢ none
    → exists (file_stem name) files ≡ true

-- What holds of a file when everything that is over is removed.
pub record IsClear (name : List ℕ) (files : Files) : Type 0 where
  pub lives : ¬ Stale name files
  pub has_session : HasSession name files

Stale-shrunk :
    (name : List ℕ) (before after : Files)
    → Shrinks before after
    → Stale name after
    → Stale name before
Stale-shrunk name before after s t = record {
  entry = t.entry;
  mode = t.mode;
  found = Shrinks-some before after name t.entry s t.found;
  socket = t.socket;
  named = t.named;
  refuses = t.refuses;
}

exists_congr :
    (name : List ℕ) (before after : Files)
    → lookup name after ≡ lookup name before
    → exists name after ≡ exists name before
unfolding exists
exists_congr name before after h = rw (exists, h) refl

module _ (os_error : ℕ → List ℕ) (sess : Session) (dir : List ℕ) where
  abbrev stale_round : List ℕ → Files → Files
  stale_round n files = (stale_body os_error sess dir n files).files

  abbrev orphan_round : List ℕ → Files → Files
  orphan_round n files = (orphan_body os_error sess dir n files).files

  stale_round-Unlocked :
      (n : List ℕ) (files : Files) → Unlocked files → Unlocked (stale_round n files)
  stale_round-Unlocked n files =
      Shrinks-Unlocked files (stale_round n files) (stale_body-Shrinks os_error sess dir n files)

  orphan_round-Unlocked :
      (n : List ℕ) (files : Files) → Unlocked files → Unlocked (orphan_round n files)
  orphan_round-Unlocked n files =
      Shrinks-Unlocked files (orphan_round n files) (orphan_body-Shrinks os_error sess dir n files)

  stale_round-done : (n : List ℕ) (files : Files) → Unlocked files → ¬ Stale n (stale_round n files)
  stale_round-done n files u t = elim (stale_body-cases os_error sess dir n files) [
    | inl (q, h) ↦ h (rw q at t)
    | inr (s, q) ↦
        let gone : lookup n (stale_round n files) ≡ none =
          rw q (session-gone os_error sess dir n files u) in
        let found = t.found in cc
  ]

  stale_round-stays :
      (m n : List ℕ) (files : Files) → ¬ Stale m files → ¬ Stale m (stale_round n files)
  stale_round-stays m n files h t =
      h (
        Stale-shrunk m files (stale_round n files) (stale_body-Shrinks os_error sess dir n files) t)

  -- The loop over logs leaves the files that are none.
  orphan_round-other :
      (m n : List ℕ) (files : Files)
      → is_log m ≡ false
      → lookup m (orphan_round n files) ≡ lookup m files
  orphan_round-other m n files h = elim (orphan_body-cases os_error sess dir n files) [
    | inl (q, f) ↦ rw q refl
    | inr (l, a, x, q) ↦ rw q (
        remove_if-other os_error sess (join dir n) n files m
          (λ k. let l' : is_log m ≡ true = rw (← k) at l in cc))
  ]

  orphan_round-done :
      (n : List ℕ) (files : Files) → Unlocked files → HasSession n (orphan_round n files)
  orphan_round-done n files u l a s found = elim (orphan_body-cases os_error sess dir n files) [
    | inl (q, f) ↦ rw q (f l a)
    | inr (l', a', x, q) ↦
        absurd (found (rw q (remove_if-gone os_error sess (join dir n) n files u)))
  ]

  orphan_round-stays :
      (m n : List ℕ) (files : Files) → HasSession m files → HasSession m (orphan_round n files)
  orphan_round-stays m n files h l a s found =
      exists_congr (file_stem m) files (orphan_round n files)
        (orphan_round-other (file_stem m) n files s)
      ∙ h l a s (λ k. found (
          Shrinks-none files (orphan_round n files) m
            (orphan_body-Shrinks os_error sess dir n files) k))

  sweep-Shrinks :
      (body : List ℕ → Files → Swept)
      → ((n : List ℕ) (files : Files) → Shrinks files (body n files).files)
      → (names : List (List ℕ)) (files : Files) → Shrinks files (sweep body names files).files
  sweep-Shrinks body h names files =
      sweep-keeps (Shrinks files) body
        (λ n now s. Shrinks-trans files now (body n now).files s (h n now)) names files
        (λ m. inl refl)

  sockets_cleared :
      (files : Files)
      → Unlocked files
      → All
          (λ n. ¬ Stale n (rm_stale_sockets os_error sess dir true files).files)
          (read_dir true files)
  unfolding rm_stale_sockets
  sockets_cleared files u =
      sweep-All Unlocked (λ n now. ¬ Stale n now) (stale_body os_error sess dir)
        stale_round-Unlocked stale_round-done stale_round-stays (read_dir true files) files u

  orphan_sweep-HasSession :
      (files : Files)
      → Unlocked files
      → All
          (λ n. HasSession n (rm_orphaned_logs os_error sess dir true files).files)
          (read_dir true files)
  unfolding rm_orphaned_logs
  orphan_sweep-HasSession files u =
      sweep-All Unlocked HasSession (orphan_body os_error sess dir) orphan_round-Unlocked
        orphan_round-done orphan_round-stays (read_dir true files) files u

  stale_sweep-Shrinks :
      (files : Files) → Shrinks files (rm_stale_sockets os_error sess dir true files).files
  unfolding rm_stale_sockets
  stale_sweep-Shrinks files =
      sweep-Shrinks (stale_body os_error sess dir) (stale_body-Shrinks os_error sess dir)
        (read_dir true files) files

  orphan_sweep-Shrinks :
      (files : Files) → Shrinks files (rm_orphaned_logs os_error sess dir true files).files
  unfolding rm_orphaned_logs
  orphan_sweep-Shrinks files =
      sweep-Shrinks (orphan_body os_error sess dir) (orphan_body-Shrinks os_error sess dir)
        (read_dir true files) files

pub rm_all-Shrinks :
    (os_error : ℕ → List ℕ) (sess : Session) (dir : List ℕ) (files : Files)
    → Shrinks files (rm_all os_error sess dir true true files).files
unfolding rm_all
rm_all-Shrinks os_error sess dir files =
    let first = (rm_stale_sockets os_error sess dir true files).files in
    Shrinks-trans files first (rm_orphaned_logs os_error sess dir true first).files
      (stale_sweep-Shrinks os_error sess dir files) (orphan_sweep-Shrinks os_error sess dir first)

-- If the directory can be read and no removal fails, the removal of all sessions that are over
-- leaves no socket that answers with ECONNREFUSED under a name that is not hidden and has not the
-- extension "log", and no log without its session's file, other than the application's log and logs
-- whose name without its extension is a log's again.
pub rm_all-Clears :
    (os_error : ℕ → List ℕ) (sess : Session) (dir : List ℕ) (files : Files) (name : List ℕ)
    → Unlocked files
    → IsClear name (rm_all os_error sess dir true true files).files
unfolding rm_all
rm_all-Clears os_error sess dir files name u =
    let first = (rm_stale_sockets os_error sess dir true files).files in
    let second = (rm_orphaned_logs os_error sess dir true first).files in
    let fewer = stale_sweep-Shrinks os_error sess dir files in
    let fewer' = orphan_sweep-Shrinks os_error sess dir first in
    record {
      lives = λ s.
          let s' = Stale-shrunk name first second fewer' s in
          All-lookup (λ n. ¬ Stale n first) files name (sockets_cleared os_error sess dir files u)
            (λ k. let found = Shrinks-some files first name s'.entry fewer s'.found in cc) s';
      has_session = λ l a t found.
          All-lookup (λ n. HasSession n second) first name
            (orphan_sweep-HasSession os_error sess dir first (Shrinks-Unlocked files first fewer u))
            (λ k. found (Shrinks-none first second name fewer' k)) l a t found;
    }
