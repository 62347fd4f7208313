-- ===== src/Session/Directory/Single.antt =====
-- `rm` for one session.
use zatch.Common.{
  ℕ, ◌≡◌, ◌≢◌, ◌⊎◌, inl, inr, List, none, false, ◌==◌, ==_iff, Result, ok, err, refl, ◌∙◌, arith,
  Bool-cases,
}
use zatch.Session.{Session}
use zatch.Session.Directory.{Files, lookup, remove, connect_at, log_of}
use zatch.Session.Directory.Store.{
  lookup-remove, lookup-remove_other, Unlocked, Shrinks-none, Shrinks-Unlocked, absent, gone, stuck,
  remove_file-cases,
}
use zatch.Session.Directory.Remove.{Removed, remove_file_if_exists, rm_single}
use zatch.Session.Directory.Sweep.{remove_if-gone, remove_if-Shrinks, remove_if-other}

-- What `rm_single` has done, if a connection to the session gives `answer`.
pub record Decides (sess : Session) (files : Files) (answer : Result (Unit {0}) ℕ) (r : Removed)
    : Type 0 where
  pub running : answer ≡ ok tt → (r.code ≡ 1) × (r.files ≡ files)
  pub failed : (r.code ≡ 0) ⊎ ((r.code ≡ 1) × (r.files ≡ files))
  pub log_gone : r.code ≡ 0 → Unlocked files → lookup (log_of sess.sockname) r.files ≡ none
  pub socket_gone :
      answer ≡ err 111 → Unlocked files → (r.code ≡ 0) × (lookup sess.sockname r.files ≡ none)
  pub others :
      (m : List ℕ)
      → m ≢ sess.sockname
      → m ≢ log_of sess.sockname
      → lookup m r.files ≡ lookup m files

-- A refusal.
refusal :
    (sess : Session) (files : Files) (answer : Result (Unit {0}) ℕ) (r : Removed)
    → r.code ≡ 1
    → r.files ≡ files
    → answer ≢ err 111
    → Decides sess files answer r
refusal sess files answer r c f h = record {
  running = λ q. (c, f);
  failed = inr (c, f);
  log_gone = λ z. absurd (omega (arith, c, z));
  socket_gone = λ q. absurd (h q);
  others = λ m a b. rw f refl;
}

other_errno : (x y : ℕ) → (x == y) ≡ false → ◌≢◌ {A = Result (Unit {0}) ℕ} (err x) (err y)
other_errno x y h q = let same_errno : x ≡ y = cc in let h' = (==_iff x y).1 same_errno in cc

module _ (os_error : ℕ → List ℕ) (sess : Session) (files : Files) where
  -- The session does not exist; its log is removed, if there is one.
  abbrev log : List ℕ
  log = log_of sess.sockname

  gone_session :
      (r : Removed) (answer : Result (Unit {0}) ℕ)
      → answer ≢ err 111
      → answer ≢ ok tt
      → r.code ≡ 0
      → r.files ≡ remove log files
      → Decides sess files answer r
  gone_session r answer h k c f = record {
    running = λ q. absurd (k q);
    failed = inl c;
    log_gone = λ z u. rw f (lookup-remove log files);
    socket_gone = λ q. absurd (h q);
    others = λ m a b. rw f (lookup-remove_other m log files b);
  }

  -- The session is not running; its socket and its log are removed.
  not_running :
      (r : Removed) (answer : Result (Unit {0}) ℕ)
      → answer ≢ ok tt
      → r.code ≡ 0
      → (let first = (remove_file_if_exists os_error sess sess.sockname sess.sockname files).0 in
          r.files ≡ (remove_file_if_exists os_error sess log log first).0)
      → Decides sess files answer r
  not_running r answer k c f =
      let first = (remove_file_if_exists os_error sess sess.sockname sess.sockname files).0 in
      let second = (remove_file_if_exists os_error sess log log first).0 in
      let fewer = remove_if-Shrinks os_error sess sess.sockname sess.sockname files in
      record {
        running = λ q. absurd (k q);
        failed = inl c;
        log_gone = λ z u.
            rw f
              (remove_if-gone os_error sess log log first (Shrinks-Unlocked files first fewer u));
        socket_gone = λ q u. (
          c,
          rw f (
              Shrinks-none first second sess.sockname
                (remove_if-Shrinks os_error sess log log first)
                (remove_if-gone os_error sess sess.sockname sess.sockname files u)),
        );
        others = λ m a b. rw f (
            remove_if-other os_error sess log log first m b
            ∙ remove_if-other os_error sess sess.sockname sess.sockname files m a);
      }

  by_answer :
      (answer : Result (Unit {0}) ℕ)
      → connect_at sess.sockname files ≡ answer
      → Decides sess files answer (rm_single os_error sess files)
  unfolding rm_single
  by_answer (ok u) q = rw (rm_single, q) (refusal sess files (ok u) _ refl refl (λ k. cc))
  by_answer (err x) q = elim (Bool-cases (x == 111)) [
    | inl e ↦ rw (rm_single, q, e) (not_running _ (err x) (λ k. cc) refl refl)
    | inr e ↦ elim (Bool-cases (x == 2)) [
      | inr n ↦
          rw (rm_single, q, e, n) (refusal sess files (err x) _ refl refl (other_errno x 111 e))
      | inl n ↦ elim (remove_file-cases log files) [
        | absent a s ↦
            rw (rm_single, q, e, n, s)
              (refusal sess files (err x) _ refl refl (other_errno x 111 e))
        | gone y a s ↦
            rw (rm_single, q, e, n, s)
              (gone_session _ (err x) (other_errno x 111 e) (λ k. cc) refl refl)
        | stuck y z a l s ↦
            rw (rm_single, q, e, n, s)
              (refusal sess files (err x) _ refl refl (other_errno x 111 e))
      ]
    ]
  ]

-- The removal of one session refuses, and leaves all files, if the session answers; it reports a
-- failure only if it left all files; if it reports success and no removal fails, the log is gone;
-- if the socket refuses connections and no removal fails, it reports success and the socket is gone;
-- files of other names stay as they are.
pub rm_single-Decides :
    (os_error : ℕ → List ℕ) (sess : Session) (files : Files)
    → Decides sess files (connect_at sess.sockname files) (rm_single os_error sess files)
rm_single-Decides os_error sess files =
    by_answer os_error sess files (connect_at sess.sockname files) refl
