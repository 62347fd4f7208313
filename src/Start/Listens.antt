-- ===== src/Start/Listens.antt =====
-- `listen_unix` replaces what is dead at its path, and nothing that lives; and the exit code of
-- `session_daemon_main` tells whether a session was started.
use zatch.Common.{
  ℕ, ◌≡◌, ◌≢◌, ◌⊎◌, inl, inr, List, ◌∷◌, Option, none, some, Bool, true, false, ◌==◌, ==_iff,
  if◌then◌else◌, Result, ok, err, same_refl, refl, ◌∙◌, arith, Bool-cases, Option-cases,
}
use zatch.Session.{Session}
use zatch.Session.Directory.{Entry, Files, lookup}
use zatch.Session.Directory.Store.{
  lookup-remove, lookup-remove_other, same-false, absent, gone, stuck, remove_file-cases,
}
use zatch.Start.{
  Bind, socket_file, Listened, bind, probe, try_remove, listen_unix, Kernel, child, parent, launch,
  Started, session_daemon_main, unbound,
}

probe-some :
    (path : List ℕ) (files : Files) (e : Entry)
    → lookup path files ≡ some e
    → probe path files ≡ e.connect
probe-some path files e q = rw (probe, q) refl

probe-none : (path : List ℕ) (files : Files) → lookup path files ≡ none → probe path files ≡ err 2
probe-none path files q = rw (probe, q) refl

-- No call of `bind` and what follows it fails.
abbrev pub Allows : Bind → Type 0
Allows b = (b.denied ≡ none) × (b.nonblocking ≡ none) × (b.permissions ≡ none)

-- The socket of a new session.
abbrev pub fresh : Bind → Entry
fresh b = socket_file b.now 0o140600 (ok tt)

-- What `listen_unix` has done.
pub record Listens (path : List ℕ) (b : Bind) (files : Files) (r : Listened) : Type 0 where
  pub in_use : probe path files ≡ ok tt → (r.result ≡ err 98) × (r.files ≡ files)
  pub made : r.result ≡ ok tt → lookup path r.files ≡ some (fresh b)
  pub replaces :
      (e : Entry)
      → lookup path files ≡ some e
      → e.connect ≡ err 111
      → e.locked ≡ none
      → Allows b
      → r.result ≡ ok tt
  pub creates : lookup path files ≡ none → Allows b → r.result ≡ ok tt
  pub others : (m : List ℕ) → m ≢ path → lookup m r.files ≡ lookup m files

lookup-first :
    (path : List ℕ) (e : Entry) (files : Files) → lookup path ((path, e) ∷ files) ≡ some e
lookup-first path e files = rw (same_refl path) refl

lookup-behind :
    (m path : List ℕ) (e : Entry) (files : Files)
    → m ≢ path
    → lookup m ((path, e) ∷ files) ≡ lookup m files
lookup-behind m path e files h = rw (same-false m path h) refl

-- `bind` alone.
record Binds (path : List ℕ) (b : Bind) (files : Files) (r : Listened) : Type 0 where
  made : r.result ≡ ok tt → lookup path r.files ≡ some (fresh b)
  creates : lookup path files ≡ none → Allows b → r.result ≡ ok tt
  others : (m : List ℕ) → m ≢ path → lookup m r.files ≡ lookup m files

bind_fails :
    (path : List ℕ) (b : Bind) (files : Files) (e : ℕ)
    → (lookup path files ≡ none → Allows b → ⊥)
    → Binds path b files (record { result = err e; files = files })
bind_fails path b files e h = record {
  made = λ q. cc;
  creates = λ q a. absurd (h q a);
  others = λ m k. refl;
}

bind_unbound :
    (path : List ℕ) (b : Bind) (files : Files) (e : ℕ)
    → ¬ Allows b
    → Binds path b files (unbound path b e files)
bind_unbound path b files e h = record {
  made = λ q. cc;
  creates = λ q a. absurd (h a);
  others = λ m k. lookup-behind m path _ files k;
}

-- The calls behind a path that is free.
by_calls :
    (path : List ℕ) (b : Bind) (files : Files) (d n p : Option ℕ)
    → b.denied ≡ d
    → b.nonblocking ≡ n
    → b.permissions ≡ p
    → Binds path b files (elim d [
      | some x ↦ record { result = err x; files = files }
      | none ↦ elim n [
        | some x ↦ unbound path b x files
        | none ↦ elim p [
          | some x ↦ unbound path b x files
          | none ↦ record { result = ok tt; files = (path, fresh b) ∷ files }
        ]
      ]
    ])
by_calls path b files (some x) n p i j k = bind_fails path b files x (λ q a. let z = a.0 in cc)
by_calls path b files none (some x) p i j k = bind_unbound path b files x (λ a. let z = a.1 in cc)
by_calls path b files none none (some x) i j k =
    bind_unbound path b files x (λ a. let z = a.2 in cc)
by_calls path b files none none none i j k = record {
  made = λ q. lookup-first path (fresh b) files;
  creates = λ q a. refl;
  others = λ m h. lookup-behind m path (fresh b) files h;
}

bind-Binds : (path : List ℕ) (b : Bind) (files : Files) → Binds path b files (bind path b files)
unfolding bind
bind-Binds path b files = elim (Option-cases (lookup path files)) [
  | inr (e, q) ↦ rw (bind, q) (bind_fails path b files 98 (λ k a. cc))
  | inl q ↦ rw (bind, q) (by_calls path b files b.denied b.nonblocking b.permissions refl refl refl)
]

try_remove-other :
    (m path : List ℕ) (files : Files) → m ≢ path → lookup m (try_remove path files) ≡ lookup m files
unfolding try_remove
try_remove-other m path files h = elim (remove_file-cases path files) [
  | absent a s ↦ rw (try_remove, s) refl
  | gone e a s ↦ rw (try_remove, s) (lookup-remove_other m path files h)
  | stuck e x a l s ↦ rw (try_remove, s) refl
]

try_remove-gone :
    (path : List ℕ) (files : Files) (e : Entry)
    → lookup path files ≡ some e
    → e.locked ≡ none
    → lookup path (try_remove path files) ≡ none
unfolding try_remove
try_remove-gone path files e q u = elim (remove_file-cases path files) [
  | absent a s ↦ rw (try_remove, s) a
  | gone x a s ↦ rw (try_remove, s) (lookup-remove path files)
  | stuck x z a l s ↦
      let entries : x ≡ e = cc in let free : x.locked ≡ none = rw entries u in absurd (cc)
]

module _ (path : List ℕ) (b : Bind) (files : Files) where
  -- The connection failed with this errno.
  probed :
      (x : ℕ)
      → probe path files ≡ err x
      → Listens path b files (bind path b (if x == 111 then try_remove path files else files))
  probed x q = elim (Bool-cases (x == 111)) [
    | inl e ↦
        let r = bind-Binds path b (try_remove path files) in
        rw e (record {
          in_use = λ k. cc;
          made = r.made;
          replaces = λ y f c u a. r.creates (try_remove-gone path files y f u) a;
          creates = λ n a.
              let no : probe path files ≡ err 2 = probe-none path files n in
              let two : x ≡ 2 = cc in absurd (omega (arith, (==_iff x 111).0 e, two));
          others = λ m h. r.others m h ∙ try_remove-other m path files h;
        })
    | inr e ↦
        let r = bind-Binds path b files in
        rw e (record {
          in_use = λ k. cc;
          made = r.made;
          replaces = λ y f c u a.
              let answer : probe path files ≡ err 111 = probe-some path files y f ∙ c in
              let same_errno : x ≡ 111 = cc in
              let yes : (x == 111) ≡ true = (==_iff x 111).1 same_errno in cc;
          creates = r.creates;
          others = r.others;
        })
  ]

  by_probe :
      (a : Result (Unit {0}) ℕ)
      → probe path files ≡ a
      → Listens path b files (elim a [
        | ok u ↦ record { result = err 98; files = files }
        | err x ↦ bind path b (if x == 111 then try_remove path files else files)
      ])
  by_probe (err x) q = probed x q
  by_probe (ok u) q = record {
    in_use = λ k. (refl, refl);
    made = λ k. cc;
    replaces =
        λ y f c n a. let answer : probe path files ≡ err 111 = probe-some path files y f ∙ c in cc;
    creates = λ n a. let answer : probe path files ≡ err 2 = probe-none path files n in cc;
    others = λ m h. refl;
  }

  -- `listen_unix` refuses with EADDRINUSE, and leaves all files, where a session answers at its path;
  -- it succeeds where the path is free, or has a file that refuses connections and can be removed,
  -- whatever file it is, if no call behind that fails; where it succeeds, a new socket is at the path,
  -- for the owner alone; and no file at another path changes.
  pub listen_unix-Listens : Listens path b files (listen_unix path b files)
  unfolding listen_unix
  listen_unix-Listens = by_probe (probe path files) refl

-- How `session_daemon_main` ends, with `fork` and the pipe made, in the background.
pub record Begins (sess : Session) (k : Kernel) (files : Files) (made : Result (Unit {0}) ℕ)
    (r : Started) : Type 0 where
  pub success : r.code ≡ 0 → (made ≡ ok tt) × (lookup sess.sockname r.files ≡ some (fresh k.bind))
  pub failure : (r.code ≡ 0) ⊎ (r.code ≡ 1)
  pub refused : probe sess.sockname files ≡ ok tt → (r.code ≡ 1) × (r.files ≡ files)
  pub starts : made ≡ ok tt → lookup sess.sockname files ≡ none → Allows k.bind → r.code ≡ 0
  pub others : (m : List ℕ) → m ≢ sess.sockname → lookup m r.files ≡ lookup m files

module _ (os_error : ℕ → List ℕ) (sess : Session) (k : Kernel) (run pid : ℕ) (files : Files)
    (forked : k.fork ≡ ok pid) (piped : k.pipe ≡ true) where
  abbrev l : Listened
  l = listen_unix sess.sockname k.bind files

  by_made :
      (made : Result (Unit {0}) ℕ)
      → l.result ≡ ok tt
      → Begins sess k files made (launch os_error sess k made run l.files)
  unfolding launch parent child
  by_made made e = let q = listen_unix-Listens sess.sockname k.bind files in by_result made q
    where
      by_result :
          (made : Result (Unit {0}) ℕ)
          → Listens sess.sockname k.bind files l
          → Begins sess k files made (launch os_error sess k made run l.files)
      by_result (ok u) q =
          rw (launch, forked)
            (record {
              success = λ z. (refl, q.made e);
              failure = inl refl;
              refused = λ p. let no = (q.in_use p).0 in cc;
              starts = λ m n a. refl;
              others = q.others;
            })
      by_result (err ec) q =
          rw (launch, forked, piped)
            (record {
              success = λ z. absurd (omega (arith, z));
              failure = inr refl;
              refused = λ p. let no = (q.in_use p).0 in cc;
              starts = λ m n a. cc;
              others = q.others;
            })

  by_listener :
      (made : Result (Unit {0}) ℕ) (a : Result (Unit {0}) ℕ)
      → l.result ≡ a
      → Begins sess k files made (session_daemon_main os_error sess false k made run files)
  unfolding session_daemon_main
  by_listener made (ok u) e = rw (session_daemon_main, e) (by_made made e)
  by_listener made (err x) e =
      let q = listen_unix-Listens sess.sockname k.bind files in
      rw (session_daemon_main, e)
        (record {
          success = λ z. absurd (omega (arith, z));
          failure = inr refl;
          refused = λ p. (refl, (q.in_use p).1);
          starts = λ m n a. let yes = q.creates n a in cc;
          others = q.others;
        })

-- The command that starts a session in the background, where `fork` succeeds and the pipe is made,
-- returns 0 or 1; if it returns 0, the child built the daemon, and a new socket is at the session's
-- path; it returns 0 if the path is free, no call on the listener fails, and the child built the
-- daemon; it returns 1 and leaves all files where a session answers at the path; and no file at
-- another path changes.
pub session_daemon_main-Begins :
    (os_error : ℕ → List ℕ) (sess : Session) (k : Kernel) (made : Result (Unit {0}) ℕ) (run pid : ℕ)
    (files : Files)
    → k.fork ≡ ok pid
    → k.pipe ≡ true
    → Begins sess k files made (session_daemon_main os_error sess false k made run files)
session_daemon_main-Begins os_error sess k made run pid files forked piped =
    by_listener os_error sess k run pid files forked piped made
      (listen_unix sess.sockname k.bind files).result refl

-- A session that answers is never started again.
pub session_daemon_main-refused :
    (os_error : ℕ → List ℕ) (sess : Session) (dontfork : Bool) (k : Kernel)
    (made : Result (Unit {0}) ℕ) (run : ℕ) (files : Files)
    → probe sess.sockname files ≡ ok tt
    → let r = session_daemon_main os_error sess dontfork k made run files in
      (r.code ≡ 1) × (r.files ≡ files)
unfolding session_daemon_main
session_daemon_main-refused os_error sess dontfork k made run files p =
    let q = (listen_unix-Listens sess.sockname k.bind files).in_use p in
    rw (session_daemon_main, q.0) (refl, q.1)
