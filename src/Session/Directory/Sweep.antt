-- ===== src/Session/Directory/Sweep.antt =====
-- What the loops of `rm_stale_sockets` and `rm_orphaned_logs` do to the files.
use zatch.Common.{
  ℕ, ◌≡◌, ◌≢◌, ◌⊎◌, inl, inr, List, [], ◌∷◌, none, true, false, All, ◌==◌, ==_iff, if◌then◌else◌,
  Result, ok, err, codes, same, same_refl, same→eq, refl, sym, ap, ◌∙◌, Bool-cases,
}
use zatch.Session.{Session}
use zatch.Session.Kill.{connect_socket}
use zatch.Session.Directory.{Entry, Files, lookup, remove, exists, file_stem, is_log, log_of}
use zatch.Session.Directory.Store.{
  lookup-remove, lookup-remove_other, Shrinks, Shrinks-trans, Shrinks-none, Unlocked, Stale, Passes,
  socket_entry-cases, absent, gone, stuck, remove_file-cases, Stale-passes,
}
use zatch.Session.Directory.Remove.{
  Swept, remove_file_if_exists, remove_session, join, stale_body, orphan_body, sweep, nothing_swept,
}

-- An invariant of the body is one of the loop.
pub sweep-keeps :
    (I : Files → Type 0) (body : List ℕ → Files → Swept)
    → ((n : List ℕ) (files : Files) → I files → I (body n files).files)
    → (names : List (List ℕ)) (files : Files) → I files
    → I (sweep body names files).files
sweep-keeps I body keep [] files h = h
sweep-keeps I body keep (n ∷ names) files h =
    sweep-keeps I body keep names (body n files).files (keep n files h)

-- What a round brings about for its name, and later rounds keep, holds of all names at the end.
pub sweep-All :
    (I : Files → Type 0) (P : List ℕ → Files → Type 0) (body : List ℕ → Files → Swept)
    → ((n : List ℕ) (files : Files) → I files → I (body n files).files)
    → ((n : List ℕ) (files : Files) → I files → P n (body n files).files)
    → ((m n : List ℕ) (files : Files) → P m files → P m (body n files).files)
    → (names : List (List ℕ)) (files : Files) → I files
    → All (λ n. P n (sweep body names files).files) names
sweep-All I P body keep done stays [] files h = tt
sweep-All I P body keep done stays (n ∷ names) files h = (
  sweep-keeps (P n) body (stays n) names (body n files).files (done n files h),
  sweep-All I P body keep done stays names (body n files).files (keep n files h),
)

not_equal : (x : ℕ) → (x == 111) ≡ false → x ≢ 111
not_equal x h q = let h' = (==_iff x 111).1 q in cc

-- A socket whose connection gives another result is not stale.
lives :
    (name : List ℕ) (files : Files) (e : Entry)
    → Passes name files e
    → (r : Result (Unit {0}) ℕ) → connect_socket e.connect e.mode ≡ r
    → r ≢ err 111
    → ¬ Stale name files
lives name files e p r c h s =
    let p_found = p.found in
    let s_found = s.found in
    let entries : s.entry ≡ e = cc in
    let answer : connect_socket e.connect e.mode ≡ err 111 = rw entries at s.refuses in
    h (sym c ∙ answer)

module _ (os_error : ℕ → List ℕ) (sess : Session) where
  -- One removal: nothing happened, or the file is removed.
  remove_if-cases :
      (path name : List ℕ) (files : Files)
      → ((remove_file_if_exists os_error sess path name files).0 ≡ files)
        ⊎ ((remove_file_if_exists os_error sess path name files).0 ≡ remove name files)
  unfolding remove_file_if_exists
  remove_if-cases path name files = elim (remove_file-cases name files) [
    | absent n q ↦ rw (remove_file_if_exists, q) (inl refl)
    | gone e n q ↦ rw (remove_file_if_exists, q) (inr refl)
    | stuck e x n l q ↦ rw (remove_file_if_exists, q) (inl refl)
  ]

  -- It succeeds where nothing is locked.
  pub remove_if-gone :
      (path name : List ℕ) (files : Files)
      → Unlocked files
      → lookup name (remove_file_if_exists os_error sess path name files).0 ≡ none
  unfolding remove_file_if_exists
  remove_if-gone path name files u = elim (remove_file-cases name files) [
    | absent n q ↦ rw (remove_file_if_exists, q) n
    | gone e n q ↦ rw (remove_file_if_exists, q) (lookup-remove name files)
    | stuck e x n l q ↦ let free = u name e n in absurd (cc)
  ]

  pub remove_if-Shrinks :
      (path name : List ℕ) (files : Files)
      → Shrinks files (remove_file_if_exists os_error sess path name files).0
  remove_if-Shrinks path name files m = elim (remove_if-cases path name files) [
    | inl e ↦ inl (rw e refl)
    | inr e ↦ elim (Bool-cases (same m name)) [
      | inl q ↦ inr (rw (e, same→eq m name q) (lookup-remove name files))
      | inr q ↦ inl (rw e (lookup-remove_other m name files (λ k. differ q k)))
    ]
  ]
    where
      differ : same m name ≡ false → m ≢ name
      differ q k = let t : same m name ≡ true = rw k (same_refl name) in cc

  pub remove_if-other :
      (path name : List ℕ) (files : Files) (m : List ℕ)
      → m ≢ name
      → lookup m (remove_file_if_exists os_error sess path name files).0 ≡ lookup m files
  remove_if-other path name files m h = elim (remove_if-cases path name files) [
    | inl e ↦ rw e refl
    | inr e ↦ rw e (lookup-remove_other m name files h)
  ]

  module _ (dir : List ℕ) where
    pub session-Shrinks :
        (name : List ℕ) (files : Files)
        → Shrinks files (remove_session os_error sess dir name files).files
    unfolding remove_session
    session-Shrinks name files =
        let first = (remove_file_if_exists os_error sess (join dir name) name files).0 in
        Shrinks-trans files first (remove_session os_error sess dir name files).files
          (remove_if-Shrinks (join dir name) name files)
          (remove_if-Shrinks (join dir (log_of name)) (log_of name) first)

    pub session-other :
        (name : List ℕ) (files : Files) (m : List ℕ)
        → m ≢ name
        → m ≢ log_of name
        → lookup m (remove_session os_error sess dir name files).files ≡ lookup m files
    unfolding remove_session
    session-other name files m h k =
        remove_if-other (join dir (log_of name)) (log_of name)
          (remove_file_if_exists os_error sess (join dir name) name files).0 m k
        ∙ remove_if-other (join dir name) name files m h

    -- What a round makes of the connection.
    by_result :
        (name : List ℕ) (files : Files) (e : Entry)
        → Passes name files e
        → (r : Result (Unit {0}) ℕ) → connect_socket e.connect e.mode ≡ r
        → let left : Swept = elim r [
          | ok u ↦ nothing_swept files
          | err x ↦
              if x == 111 then remove_session os_error sess dir name files else nothing_swept files
        ] in
          ((left.files ≡ files) × ¬ Stale name files)
          ⊎ (Stale name files × (left.files ≡ (remove_session os_error sess dir name files).files))
    by_result name files e p (ok u) c = inl (refl, lives name files e p (ok u) c (λ q. cc))
    by_result name files e p (err x) c = elim (Bool-cases (x == 111)) [
      | inr k ↦ rw k (
          inl (refl, lives name files e p (err x) c (λ q. let z : x ≡ 111 = cc in not_equal x k z)))
      | inl k ↦ rw k (
          inr (
            record {
              entry = e;
              mode = p.mode;
              found = p.found;
              socket = p.socket;
              named = p.named;
              refuses = c ∙ ap err ((==_iff x 111).0 k);
            },
            refl,
          ))
    ]

    -- A round of the loop over sockets: nothing happened, or a stale session is removed.
    pub stale_body-cases :
        (name : List ℕ) (files : Files)
        → (((stale_body os_error sess dir name files).files ≡ files) × ¬ Stale name files)
          ⊎ (Stale name files
              × ((stale_body os_error sess dir name files).files
                  ≡ (remove_session os_error sess dir name files).files))
    unfolding stale_body
    stale_body-cases name files = elim (socket_entry-cases name files) [
      | inl q ↦ rw (stale_body, q) (inl (refl, λ s. let p = Stale-passes name files s in cc))
      | inr (e, q, p) ↦
          rw (stale_body, q) (by_result name files e p (connect_socket e.connect e.mode) refl)
    ]

    pub stale_body-Shrinks :
        (name : List ℕ) (files : Files)
        → Shrinks files (stale_body os_error sess dir name files).files
    stale_body-Shrinks name files m = elim (stale_body-cases name files) [
      | inl (e, s) ↦ inl (rw e refl)
      | inr (s, e) ↦ rw e (session-Shrinks name files m)
    ]

    -- A round of the loop over logs: nothing happened to this name, for a reason, or the log is
    -- removed.
    pub orphan_body-cases :
        (name : List ℕ) (files : Files)
        → ((orphan_body os_error sess dir name files).files ≡ files)
            × ((is_log name ≡ true)
                → (same name (codes ".ztch-app.log") ≡ false)
                → exists (file_stem name) files ≡ true)
          ⊎ ((is_log name ≡ true)
              × (same name (codes ".ztch-app.log") ≡ false)
              × (exists (file_stem name) files ≡ false)
              × ((orphan_body os_error sess dir name files).files
                  ≡ (remove_file_if_exists os_error sess (join dir name) name files).0))
    unfolding orphan_body
    orphan_body-cases name files = elim (Bool-cases (is_log name)) [
      | inr l ↦ rw l (inl (refl, λ q. cc))
      | inl l ↦ elim (Bool-cases (same name (codes ".ztch-app.log"))) [
        | inl a ↦ rw (l, a) (inl (refl, λ q k. cc))
        | inr a ↦ elim (Bool-cases (exists (file_stem name) files)) [
          | inl x ↦ rw (l, a, x) (inl (refl, λ q k. refl))
          | inr x ↦ rw (l, a, x) (inr (refl, refl, refl, refl))
        ]
      ]
    ]

    pub orphan_body-Shrinks :
        (name : List ℕ) (files : Files)
        → Shrinks files (orphan_body os_error sess dir name files).files
    orphan_body-Shrinks name files m = elim (orphan_body-cases name files) [
      | inl (e, f) ↦ inl (rw e refl)
      | inr (l, a, x, e) ↦ rw e (remove_if-Shrinks (join dir name) name files m)
    ]

    -- What a round removes is gone, where nothing is locked.
    pub session-gone :
        (name : List ℕ) (files : Files)
        → Unlocked files
        → lookup name (remove_session os_error sess dir name files).files ≡ none
    unfolding remove_session
    session-gone name files u =
        let first = (remove_file_if_exists os_error sess (join dir name) name files).0 in
        Shrinks-none first (remove_session os_error sess dir name files).files name
          (remove_if-Shrinks (join dir (log_of name)) (log_of name) first)
          (remove_if-gone (join dir name) name files u)
