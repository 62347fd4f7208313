-- ===== src/Daemon/Output/Delivery.antt =====
-- `send_to_clients`: a client that stays has received all of the data or nothing of it.
use zatch.Common.{
  All-retain, ℕ, ◌≡◌, ◌≢◌, ◌⊎◌, List, [], ◌∷◌, ◌++◌, Option, none, some, Bool, true, false, not,
  ◌&&◌, length, retain, All, ◌==◌, refl, ap, ap₂, ◌∙◌, arith, Bool-cases, inl, inr, append-nil,
}
use zatch.Os.{Select}
use zatch.Daemon.{Client, Effect, attached_clients}
use zatch.Daemon.Inv.{fds}
use zatch.Daemon.Output.{Round, Pass, write_pass, close_bad, push_round, send_loop, send_to_clients}
use zatch.Daemon.Output.Writes.{
  written, written-append, has, Distinct, Got, Spared, write_pass-Got, write_pass-Spared,
  close_bad-retain, close_bad-written,
}

abbrev pub is_waiting : Client → Bool
is_waiting c = not c.attached

All-fds-retain :
    (P : ℕ → Type 0) (q : Client → Bool) (cs : List Client)
    → All P (fds cs)
    → All P (fds (retain q cs))
All-fds-retain P q [] h = tt
All-fds-retain P q (c ∷ cs) h = elim (Bool-cases (q c)) [
  | inl e ↦ rw e (h.0, All-fds-retain P q cs h.1)
  | inr e ↦ rw e (All-fds-retain P q cs h.1)
]

Distinct-retain :
    (q : Client → Bool) (cs : List Client) → Distinct (fds cs) → Distinct (fds (retain q cs))
Distinct-retain q [] h = tt
Distinct-retain q (c ∷ cs) h = elim (Bool-cases (q c)) [
  | inl e ↦ rw e (All-fds-retain (λ y. y ≢ c.fd) q cs h.0, Distinct-retain q cs h.1)
  | inr e ↦ rw e (Distinct-retain q cs h.1)
]

retain-retain :
    (p q : Client → Bool) (cs : List Client) → retain q (retain p cs) ≡ retain (λ c. p c && q c) cs
retain-retain p q [] = refl
retain-retain p q (c ∷ cs) = ground (arith, retain-retain p q cs)

-- What a client got of the data: nothing, or all of it.
abbrev pub IsWhole : List ℕ → List Effect → Client → Type 0
IsWhole bytes es c = (written c.fd es ≡ []) ⊎ (written c.fd es ≡ bytes)

pub record Delivered (bytes : List ℕ) (cs cs' : List Client) (es : List Effect) : Type 0 where
  -- Clients are only removed.
  pub stays : Client → Bool
  pub remain : cs' ≡ retain stays cs
  -- Each client that is left got all of the data or nothing of it.
  pub whole : All (IsWhole bytes es) cs'
  -- Nobody who is not attached is removed or written to.
  pub spared : retain is_waiting cs' ≡ retain is_waiting cs
  pub silent : All (λ (c : Client). written c.fd es ≡ []) (retain is_waiting cs)

abbrev pub Delivers : List ℕ → List Client → Option (List Client × List Effect) → Type 0
Delivers bytes cs none = Unit {0}
Delivers bytes cs (some (cs', es)) = Delivered bytes cs cs' es

retain_all : (cs : List Client) → cs ≡ retain (λ c. true) cs
retain_all [] = refl
retain_all (c ∷ cs) = ap (◌∷◌ c) (retain_all cs)

-- No write at all.
nothing_sent : (bytes : List ℕ) (cs : List Client) → Delivered bytes cs cs []
nothing_sent bytes cs = record {
  stays = λ c. true;
  remain = retain_all cs;
  whole = all_whole cs;
  spared = refl;
  silent = all_silent (retain is_waiting cs);
}
  where
    all_whole : (cs : List Client) → All (IsWhole bytes []) cs
    all_whole [] = tt
    all_whole (c ∷ cs) = (inl refl, all_whole cs)

    all_silent : (cs : List Client) → All (λ (c : Client). written c.fd [] ≡ []) cs
    all_silent [] = tt
    all_silent (c ∷ cs) = (refl, all_silent cs)

module _ (bytes : List ℕ) (r : Round) (cs : List Client) (h : Distinct (fds cs)) where
  abbrev p : Pass
  p = write_pass bytes r cs

  abbrev good : Client → Bool
  good c = not (has c.fd p.bad_fds)

  written-round :
      (fd : ℕ) → written fd (p.effects ++ (close_bad p.bad_fds cs).1) ≡ written fd p.effects
  written-round fd =
      written-append fd p.effects (close_bad p.bad_fds cs).1
      ∙ rw (close_bad-written p.bad_fds cs fd) (append-nil _)

  -- After one round.
  round-Delivered : let s = push_round bytes r cs in Delivered bytes cs s.clients s.effects
  unfolding push_round
  round-Delivered = record {
    stays = good;
    remain = close_bad-retain p.bad_fds cs;
    whole = rw (close_bad-retain p.bad_fds cs) (whole_of cs (write_pass-Got bytes r cs h));
    spared = rw (close_bad-retain p.bad_fds cs) (spared_of cs (write_pass-Spared bytes r cs h));
    silent = silent_of cs (write_pass-Spared bytes r cs h);
  }
    where
      es : List Effect
      es = p.effects ++ (close_bad p.bad_fds cs).1

      got : (c : Client) → Got bytes r p c → good c ≡ true → IsWhole bytes es c
      got c (inl bad) e = absurd (ground arith)
      got c (inr (inl n)) e = inl (written-round c.fd ∙ n)
      got c (inr (inr w)) e = inr (written-round c.fd ∙ w.0)

      whole_of :
          (ks : List Client) → All (Got bytes r p) ks → All (IsWhole bytes es) (retain good ks)
      whole_of [] g = tt
      whole_of (c ∷ ks) g = elim (Bool-cases (good c)) [
        | inl e ↦ rw e (got c g.0 e, whole_of ks g.1)
        | inr e ↦ rw e (whole_of ks g.1)
      ]

      spared_of :
          (ks : List Client)
          → All (Spared bytes r p) ks
          → retain is_waiting (retain good ks) ≡ retain is_waiting ks
      spared_of [] g = refl
      spared_of (c ∷ ks) g = ground (arith, spared_of ks g.1, g.0)

      silent_of :
          (ks : List Client)
          → All (Spared bytes r p) ks
          → All (λ (c : Client). written c.fd es ≡ []) (retain is_waiting ks)
      silent_of [] g = tt
      silent_of (c ∷ ks) g = elim (Bool-cases c.attached) [
        | inl e ↦ rw e (silent_of ks g.1)
        | inr e ↦ rw e (written-round c.fd ∙ unwritten c g.0 e, silent_of ks g.1)
      ]
        where
          unwritten :
              (c : Client) → Spared bytes r p c → c.attached ≡ false → written c.fd p.effects ≡ []
          unwritten c (inl a) e = absurd (ground arith)
          unwritten c (inr u) e = u.1

  -- The loop goes on only if no client that is left got anything.
  round-none :
      let s = push_round bytes r cs in
      s.go_on ≡ true → All (λ (c : Client). written c.fd s.effects ≡ []) s.clients
  unfolding push_round
  round-none more = rw (close_bad-retain p.bad_fds cs) (none_of cs (write_pass-Got bytes r cs h))
    where
      none_of :
          (ks : List Client)
          → All (Got bytes r p) ks
          → All
              (λ (c : Client). written c.fd (p.effects ++ (close_bad p.bad_fds cs).1) ≡ [])
              (retain good ks)
      none_of [] g = tt
      none_of (c ∷ ks) g = elim (Bool-cases (good c)) [
        | inl e ↦ rw e (written-round c.fd ∙ got c g.0 e, none_of ks g.1)
        | inr e ↦ rw e (none_of ks g.1)
      ]
        where
          got : (c : Client) → Got bytes r p c → good c ≡ true → written c.fd p.effects ≡ []
          got c (inl bad) e = absurd (ground arith)
          got c (inr (inl n)) e = n
          got c (inr (inr w)) e = absurd (ground arith)

-- A round that goes on, and then what the later rounds do.
module _ (bytes : List ℕ) (cs ks : List Client) (es : List Effect)
    (first : Delivered bytes cs ks es)
    (none_yet : All (λ (c : Client). written c.fd es ≡ []) ks) where
  later-Delivered :
      (o : Option (List Client × List Effect))
      → Delivers bytes ks o
      → Delivers bytes cs (elim o [ none ↦ none | some (cs', fs) ↦ some (cs', es ++ fs) ])
  later-Delivered none q = tt
  later-Delivered (some (cs', fs)) q = record {
    stays = λ c. first.stays c && q.stays c;
    remain = q.remain ∙ ap (retain q.stays) first.remain ∙ retain-retain first.stays q.stays cs;
    whole = both (λ c n. joined c n) cs' (rw q.remain (All-retain _ q.stays ks none_yet)) q.whole;
    spared = q.spared ∙ first.spared;
    silent =
        both (λ c n w. written-append c.fd es fs ∙ ap₂ ◌++◌ n w) (retain is_waiting cs) first.silent
          (rw first.spared at q.silent);
  }
    where
      both :
          {P Q R : Client → Type 0}
          → ((c : Client) → P c → Q c → R c)
          → (xs : List Client) → All P xs
          → All Q xs
          → All R xs
      both f [] g k = tt
      both f (c ∷ xs) g k = (f c g.0 k.0, both f xs g.1 k.1)

      joined : (c : Client) → written c.fd es ≡ [] → IsWhole bytes fs c → IsWhole bytes (es ++ fs) c
      joined c n (inl w) = inl (written-append c.fd es fs ∙ ap₂ ◌++◌ n w)
      joined c n (inr w) = inr (written-append c.fd es fs ∙ ap₂ ◌++◌ n w)

send_loop-Delivers :
    (bytes : List ℕ) (rounds : List Round) (cs : List Client)
    → Distinct (fds cs)
    → Delivers bytes cs (send_loop bytes rounds cs)
unfolding send_loop
send_loop-Delivers bytes [] cs h = tt
send_loop-Delivers bytes (r ∷ rounds) cs h =
    let s = push_round bytes r cs in
    let first = round-Delivered bytes r cs h in
    by_select r.select first
      (λ more.
        later-Delivered bytes cs s.clients s.effects first (round-none bytes r cs h more)
          (send_loop bytes rounds s.clients)
          (send_loop-Delivers bytes rounds s.clients
            (rw first.remain (Distinct-retain first.stays cs h))))
      (send_loop-Delivers bytes rounds cs h)
  where
    by_select :
        (s : Select)
        → (let p = push_round bytes r cs in Delivered bytes cs p.clients p.effects)
        → ((push_round bytes r cs).go_on ≡ true
            → Delivers bytes cs (elim (send_loop bytes rounds (push_round bytes r cs).clients) [
              | none ↦ none
              | some (cs', es) ↦ some (cs', (push_round bytes r cs).effects ++ es)
            ]))
        → Delivers bytes cs (send_loop bytes rounds cs)
        → Delivers bytes cs (elim s [
          | Select.interrupted ↦ send_loop bytes rounds cs
          | Select.failed ↦ some (cs, [])
          | Select.ready ↦ elim (push_round bytes r cs).go_on [
            | false ↦ some ((push_round bytes r cs).clients, (push_round bytes r cs).effects)
            | true ↦ elim (send_loop bytes rounds (push_round bytes r cs).clients) [
              | none ↦ none
              | some (cs', es) ↦ some (cs', (push_round bytes r cs).effects ++ es)
            ]
          ]
        ])
    by_select Select.interrupted f l i = i
    by_select Select.failed f l i = nothing_sent bytes cs
    by_select Select.ready f l i = elim (Bool-cases (push_round bytes r cs).go_on) [
      | inl e ↦ rw e (l e)
      | inr e ↦ rw e f
    ]

-- If no two clients share a descriptor, and the call comes back, `send_to_clients` leaves no client
-- with a part of the data: each client that stays in the list has received all of it or nothing. It
-- only removes clients, none of them detached, and to a detached client it writes nothing.
pub send_to_clients-Delivers :
    (bytes : List ℕ) (rounds : List Round) (cs : List Client)
    → Distinct (fds cs)
    → Delivers bytes cs (send_to_clients bytes rounds cs)
unfolding send_to_clients
send_to_clients-Delivers bytes rounds cs h = elim (Bool-cases (length (attached_clients cs) == 0)) [
  | inl e ↦ rw e (nothing_sent bytes cs)
  | inr e ↦ rw e (send_loop-Delivers bytes rounds cs h)
]
