-- ===== src/Session/Stop.antt =====
-- When `Session::kill` reports success, and that it comes back.
use zatch.Common.{
  ℕ, zero, suc, ◌+◌, ◌%◌, ◌≡◌, ◌≢◌, ◌↔◌, ◌≤◌, ◌<◌, inl, inr, List, [], ◌∷◌, if◌then◌else◌, ◌||◌,
  sym, ◌∙◌, Option, none, some, Bool, true, false, ◌==◌, Result, ok, err, Bool-cases, ==_iff, ltb,
  ltb→lt, ltb→le, refl, ap, arith,
}
use zatch.Os.{Write, progress}
use zatch.Wire.{ProtocolError, Sent, encode, kill as kill_type}
use zatch.Wire.Transmit.{write_to-returns}
use zatch.Log.App.{LogLevel}
use zatch.Session.{Session, status}
use zatch.Session.Kill.{
  Attempt, send_kill, polled, Stopped, first_sig, refused, connect_socket, to_errno, after_connect,
  escalate, await_stop, kill,
}

-- One of `n` polls from `k` on sees that the socket is gone.
abbrev pub SeenGone : ℕ → ℕ → (ℕ → Bool) → Type 0
SeenGone n k gone = (j : ℕ) × (k ≤ j) × (j < k + n) × (gone j ≡ true)

polled_iff : (n k : ℕ) (gone : ℕ → Bool) → (polled n k gone ≡ true) ↔ SeenGone n k gone
unfolding polled
polled_iff zero k gone = (λ e. cc, λ h. absurd (omega (arith, h.1, h.2)))
polled_iff (suc n) k gone = elim (Bool-cases (gone k)) [
  | inl e ↦ rw e (λ t. (k, omega arith, omega arith, e), λ h. refl)
  | inr e ↦ let later = polled_iff n (k + 1) gone in rw e (forth later.0, back later.1 e)
]
  where
    forth :
        (polled n (k + 1) gone ≡ true → SeenGone n (k + 1) gone)
        → polled n (k + 1) gone ≡ true
        → SeenGone (suc n) k gone
    forth f t = let (j, lo, hi, g) = f t in (j, omega arith, omega arith, g)

    back :
        (SeenGone n (k + 1) gone → polled n (k + 1) gone ≡ true)
        → gone k ≡ false
        → SeenGone (suc n) k gone
        → polled n (k + 1) gone ≡ true
    back f e (j, lo, hi, g) = elim (Bool-cases (j == k)) [
      | inl same ↦ let here : gone j ≡ gone k = ap gone ((==_iff j k).0 same) in absurd (cc)
      | inr other ↦
          let apart : j ≢ k = λ q. let same : (j == k) ≡ true = (==_iff j k).1 q in cc in
          f (j, omega arith, omega arith, g)
    ]

-- The polls that a stop makes at most.
abbrev pub all_polls : Bool → ℕ
all_polls true = 10
all_polls false = 4

-- If the call has come back: it reports success exactly when `P`, and has sent these bytes.
abbrev pub Decides : Option Stopped → Type 0 → List (List ℕ) → Type 0
Decides none P sent = Unit {0}
Decides (some k) P sent = ((k.code ≡ 0) ↔ P) × (k.sent ≡ sent)

-- What a stop asks the daemon for, over one connection after another: SIGKILL (9) if it is forced;
-- else SIGHUP (1), and then SIGKILL if the first request was sent, and the first poll found the
-- session running.
abbrev pub requests : Bool → Attempt → (ℕ → Bool) → Attempt → List (List ℕ)
requests force first gone second =
    let s = send_kill first (if force then 9 else 1) in
    let again = (send_kill second 9).out ∷ [] in
    s.out ∷ elim s.result [
      | none ↦ []
      | some (err e) ↦ []
      | some (ok u) ↦ if force || gone 0 then [] else again
    ]

-- Four polls see what one poll or the three behind it see.
seen_later : (gone : ℕ → Bool) → polled 1 0 gone ≡ false → SeenGone 3 1 gone ↔ SeenGone 4 0 gone
seen_later gone e = (λ h. let (j, lo, hi, g) = h in (j, omega arith, omega arith, g), back)
  where
    back : SeenGone 4 0 gone → SeenGone 3 1 gone
    back (j, lo, hi, g) = elim (Bool-cases (ltb j 1)) [
      | inl first ↦ let t = (polled_iff 1 0 gone).1 (j, lo, ltb→lt j 1 first, g) in absurd (cc)
      | inr later ↦ (j, ltb→le j 1 later, omega arith, g)
    ]

Decides-iff :
    (o : Option Stopped) (P Q : Type 0) (sent : List (List ℕ))
    → P ↔ Q
    → Decides o P sent
    → Decides o Q sent
Decides-iff none P Q sent f h = tt
Decides-iff (some k) P Q sent f h = ((λ z. f.0 (h.0.0 z), λ q. h.0.1 (f.1 q)), h.1)

-- The first poll alone.
first_poll : (gone : ℕ → Bool) → polled 1 0 gone ≡ gone 0
unfolding polled
first_poll gone = elim (Bool-cases (gone 0)) [ inl e ↦ rw e refl | inr e ↦ rw e refl ]

module _ (sess : Session) (gone : ℕ → Bool) (out : List ℕ) (second : Attempt) where
  escalate-Decides :
      (sent : List (List ℕ)) (r : Option (Result (Unit {0}) ℕ))
      → Decides (escalate sess gone sent r) (SeenGone 3 1 gone) sent
  unfolding escalate
  escalate-Decides sent none = tt
  escalate-Decides sent (some r) = elim (Bool-cases (polled 3 1 gone)) [
    | inl e ↦ rw e ((λ z. (polled_iff 3 1 gone).0 e, λ h. refl), refl)
    | inr e ↦ rw e (
      (λ z. absurd (omega (arith, z)), λ h. let t = (polled_iff 3 1 gone).1 h in absurd (cc)),
      refl,
    )
  ]

  -- What is sent while waiting.
  abbrev waiting_sent : Bool → List (List ℕ)
  waiting_sent force =
      let again = (send_kill second 9).out ∷ [] in out ∷ (if force || gone 0 then [] else again)

  await_stop-Decides :
      (force : Bool)
      → Decides
          (await_stop sess force gone out second)
          (SeenGone (all_polls force) 0 gone)
          (waiting_sent force)
  unfolding await_stop
  await_stop-Decides true = elim (Bool-cases (polled 10 0 gone)) [
    | inl e ↦ rw e ((λ z. (polled_iff 10 0 gone).0 e, λ h. refl), refl)
    | inr e ↦ rw e (
      (λ z. absurd (omega (arith, z)), λ h. let t = (polled_iff 10 0 gone).1 h in absurd (cc)),
      refl,
    )
  ]
  await_stop-Decides false = elim (Bool-cases (polled 1 0 gone)) [
    | inl e ↦
        let (j, lo, hi, g) = (polled_iff 1 0 gone).0 e in
        let now : gone 0 ≡ true = sym (first_poll gone) ∙ e in
        rw (e, now) ((λ z. (j, lo, omega arith, g), λ h. refl), refl)
    | inr e ↦
        let now : gone 0 ≡ false = sym (first_poll gone) ∙ e in
        let sent : List (List ℕ) = out ∷ (send_kill second 9).out ∷ [] in
        rw (e, now)
          (Decides-iff (escalate sess gone sent (send_kill second 9).result) (SeenGone 3 1 gone)
            (SeenGone 4 0 gone) sent (seen_later gone e)
            (escalate-Decides sent (send_kill second 9).result))
  ]

-- The first packet was written with this result, and what is waited for is decided.
first_sent-Decides :
    (os_error : ℕ → List ℕ) (sess : Session) (out : List ℕ) (waited : Option Stopped) (P : Type 0)
    (later : List (List ℕ))
    → Decides waited P (out ∷ later)
    → (r : Option (Result (Unit {0}) ℕ))
    → Decides
        (elim r [
          | none ↦ none
          | some (err e) ↦ some (record {
            code = 1;
            acts = status sess LogLevel.error (refused os_error sess e);
            sent = out ∷ [];
          })
          | some (ok u) ↦ waited
        ])
        ((r ≡ some (ok tt)) × P)
        (out ∷ elim r [ none ↦ [] | some (err e) ↦ [] | some (ok u) ↦ later ])
first_sent-Decides os_error sess out waited P later h none = tt
first_sent-Decides os_error sess out waited P later h (some (err e)) =
    ((λ z. absurd (omega (arith, z)), λ q. absurd (cc)), refl)
first_sent-Decides os_error sess out waited P later h (some (ok u)) =
    Decides-iff waited P _ _ (λ p. (refl, p), λ q. q.1) h

-- If `kill` comes back, it reports success exactly when the first packet was sent and a poll saw
-- that the socket was gone: one of ten polls if the stop is forced, else one of four. It has asked
-- for SIGKILL if the stop is forced; else for SIGHUP, and, if that was sent and the first poll did
-- not see the socket gone, then for SIGKILL, before the other three polls.
pub kill-Decides :
    (os_error : ℕ → List ℕ) (sess : Session) (force : Bool) (first : Attempt) (gone : ℕ → Bool)
    (second : Attempt)
    → Decides
        (kill os_error sess force first gone second)
        (((send_kill first (if force then 9 else 1)).result ≡ some (ok tt))
          × SeenGone (all_polls force) 0 gone)
        (requests force first gone second)
unfolding kill
kill-Decides os_error sess true first gone second =
    let s = send_kill first 9 in
    first_sent-Decides os_error sess s.out (await_stop sess true gone s.out second)
      (SeenGone 10 0 gone) [] (await_stop-Decides sess gone s.out second true) s.result
kill-Decides os_error sess false first gone second =
    let s = send_kill first 1 in
    first_sent-Decides os_error sess s.out (await_stop sess false gone s.out second)
      (SeenGone 4 0 gone) (if gone 0 then [] else (send_kill second 9).out ∷ [])
      (await_stop-Decides sess gone s.out second false) s.result

after_connect-returns :
    (connected : Result (Unit {0}) ℕ) (writes : List Write)
    (w : Sent (Result (Unit {0}) ProtocolError))
    → w.result ≢ none
    → (after_connect connected writes w).result ≢ none
unfolding after_connect
after_connect-returns (err e) writes w h q = cc
after_connect-returns (ok u) writes w h q = came_back w.result h q
  where
    came_back :
        (r : Option (Result (Unit {0}) ProtocolError))
        → r ≢ none
        → (elim r [ none ↦ none | some x ↦ some (to_errno x) ]) ≢ none
    came_back none k q = k refl
    came_back (some x) k q = cc

send_kill-returns :
    (t : Attempt) (sig : ℕ) → 10 ≤ progress t.writes → (send_kill t sig).result ≢ none
unfolding send_kill
send_kill-returns t sig h =
    after_connect-returns (connect_socket t.connect t.mode) t.writes _
      (write_to-returns (encode kill_type (sig % 256)) t.writes h)

-- `kill` comes back if the kernel takes bytes of each of its two packets often enough, whatever it
-- answers to the connections and the polls.
pub kill-returns :
    (os_error : ℕ → List ℕ) (sess : Session) (force : Bool) (first : Attempt) (gone : ℕ → Bool)
    (second : Attempt)
    → 10 ≤ progress first.writes
    → 10 ≤ progress second.writes
    → kill os_error sess force first gone second ≢ none
unfolding kill await_stop escalate
kill-returns os_error sess force first gone second h k =
    by_result (send_kill first (first_sig force)).result
      (send_kill-returns first (first_sig force) h)
  where
    out : List ℕ
    out = (send_kill first (first_sig force)).out

    escalated :
        (sent : List (List ℕ)) (r : Option (Result (Unit {0}) ℕ))
        → r ≢ none
        → escalate sess gone sent r ≢ none
    escalated sent none n q = n refl
    escalated sent (some r) n q = cc

    awaited : (force : Bool) → await_stop sess force gone out second ≢ none
    awaited true = elim (Bool-cases (polled 10 0 gone)) [
      | inl e ↦ rw e (λ q. cc)
      | inr e ↦ rw e (λ q. cc)
    ]
    awaited false = elim (Bool-cases (polled 1 0 gone)) [
      | inl e ↦ rw e (λ q. cc)
      | inr e ↦ rw e (
          escalated (out ∷ (send_kill second 9).out ∷ []) (send_kill second 9).result
            (send_kill-returns second 9 k))
    ]

    by_result :
        (r : Option (Result (Unit {0}) ℕ))
        → r ≢ none
        → (elim r [
          | none ↦ none
          | some (err e) ↦ some (record {
            code = 1;
            acts = status sess LogLevel.error (refused os_error sess e);
            sent = out ∷ [];
          })
          | some (ok u) ↦ await_stop sess force gone out second
        ])
          ≢ none
    by_result none n q = n refl
    by_result (some (err e)) n q = cc
    by_result (some (ok u)) n q = awaited force q
