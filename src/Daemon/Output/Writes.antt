-- ===== src/Daemon/Output/Writes.antt =====
-- One round of `send_to_clients`: what the loop over the clients writes, and whom it evicts.
use zatch.Common.{
  ℕ, ◌≡◌, ◌≢◌, ◌⊎◌, List, [], ◌∷◌, ◌++◌, Bool, true, false, not, ◌||◌, length, retain, All, ◌==◌,
  ==_iff, if◌then◌else◌, refl, sym, ap, ◌∙◌, arith, Bool-cases, inl, inr, min, append_assoc,
  append-nil,
}
use zatch.Os.{Write}
use zatch.Daemon.{Client, Effect, wrote}
use zatch.Daemon.Inv.{fds}
use zatch.Daemon.Output.{Round, Pass, write_one, write_pass, close_bad}

-- All the bytes that a descriptor took.
abbrev pub written : ℕ → List Effect → List ℕ
written fd [] = []
written fd (wrote g bs ∷ es) = if g == fd then bs ++ written fd es else written fd es
written fd (_ ∷ es) = written fd es

pub written-append :
    (fd : ℕ) (es fs : List Effect) → written fd (es ++ fs) ≡ written fd es ++ written fd fs
written-append fd [] fs = refl
written-append fd (wrote g bs ∷ es) fs = elim (Bool-cases (g == fd)) [
  | inl e ↦ rw e (rw (written-append fd es fs, append_assoc))
  | inr e ↦ rw e (written-append fd es fs)
]
written-append fd (_ ∷ es) fs = written-append fd es fs

abbrev pub has : ℕ → List ℕ → Bool
has fd [] = false
has fd (g ∷ gs) = g == fd || has fd gs

-- No descriptor stands twice in a list.
abbrev pub Distinct : List ℕ → Type 0
Distinct [] = Unit {0}
Distinct (x ∷ xs) = All (λ y. y ≢ x) xs × Distinct xs

module _ (bytes : List ℕ) (r : Round) where
  -- What the pass did to one client.
  abbrev pub Got : Pass → Client → Type 0
  Got p c =
      (has c.fd p.bad_fds ≡ true)
      ⊎ ((written c.fd p.effects ≡ [])
          ⊎ ((written c.fd p.effects ≡ bytes) × (p.any_written ≡ true)))

  write_one-Got :
      (c : Client) (w : Write) (rest : Pass)
      → written c.fd rest.effects ≡ []
      → Got (write_one bytes c w rest) c
  unfolding write_one
  write_one-Got c (Write.room k) rest h = elim (Bool-cases (min (length bytes) k == length bytes)) [
    | inl e ↦ rw (e, (==_iff c.fd c.fd).1 refl, h) (inr (inr (append-nil bytes, refl)))
    | inr e ↦ rw e (inl (ground arith))
  ]
  write_one-Got c Write.would_block rest h = inr (inl h)
  write_one-Got c Write.interrupted rest h = inl (ground arith)
  write_one-Got c (Write.failed e) rest h = inl (ground arith)

  write_one-Got_other :
      (c : Client) (w : Write) (rest : Pass) (c' : Client)
      → c.fd ≢ c'.fd
      → Got rest c'
      → Got (write_one bytes c w rest) c'
  unfolding write_one
  write_one-Got_other c (Write.room k) rest c' ne g = ground arith
  write_one-Got_other c Write.would_block rest c' ne g = g
  write_one-Got_other c Write.interrupted rest c' ne g = ground arith
  write_one-Got_other c (Write.failed e) rest c' ne g = ground arith

  -- A pass either skips the first client or writes to it, and then it is attached.
  pass_cases :
      (P : Pass → Type 0) (c : Client) (cs : List Client)
      → P (write_pass bytes r cs)
      → (c.attached ≡ true → P (write_one bytes c (r.write c.fd) (write_pass bytes r cs)))
      → P (write_pass bytes r (c ∷ cs))
  unfolding write_pass
  pass_cases P c cs skip one = elim (Bool-cases (not c.attached || not (r.writable c.fd))) [
    | inl e ↦ rw (e, write_pass) skip
    | inr e ↦ rw (e, write_pass) (one (ground arith))
  ]

  -- A descriptor of no client is not written to, and not bad.
  abbrev pub Untouched : ℕ → Pass → Type 0
  Untouched fd p = (has fd p.bad_fds ≡ false) × (written fd p.effects ≡ [])

  write_one-Untouched :
      (c : Client) (w : Write) (rest : Pass) (fd : ℕ)
      → c.fd ≢ fd
      → Untouched fd rest
      → Untouched fd (write_one bytes c w rest)
  unfolding write_one
  write_one-Untouched c (Write.room k) rest fd ne u = ground arith
  write_one-Untouched c Write.would_block rest fd ne u = u
  write_one-Untouched c Write.interrupted rest fd ne u = ground arith
  write_one-Untouched c (Write.failed e) rest fd ne u = ground arith

  write_pass-Untouched :
      (cs : List Client) (fd : ℕ)
      → All (λ y. y ≢ fd) (fds cs)
      → Untouched fd (write_pass bytes r cs)
  unfolding write_pass
  write_pass-Untouched [] fd h = (refl, refl)
  write_pass-Untouched (c ∷ cs) fd h =
      let u = write_pass-Untouched cs fd h.1 in
      pass_cases (Untouched fd) c cs u
        (λ a. write_one-Untouched c (r.write c.fd) (write_pass bytes r cs) fd h.0 u)

  others {κ} :
      (P : Pass → Client → Type κ) (c : Client) (p q : Pass)
      → ((c' : Client) → c.fd ≢ c'.fd → P p c' → P q c')
      → (cs : List Client) → All (λ y. y ≢ c.fd) (fds cs)
      → All (P p) cs
      → All (P q) cs
  others P c p q f [] ne g = tt
  others P c p q f (c' ∷ cs) ne g = (f c' (λ e. ne.0 (sym e)) g.0, others P c p q f cs ne.1 g.1)

  pub write_pass-Got : (cs : List Client) → Distinct (fds cs) → All (Got (write_pass bytes r cs)) cs
  write_pass-Got [] h = tt
  write_pass-Got (c ∷ cs) h =
      let fresh = (write_pass-Untouched cs c.fd h.0).1 in
      let rest = write_pass bytes r cs in
      let later = write_pass-Got cs h.1 in
      pass_cases (λ p. All (Got p) (c ∷ cs)) c cs (inr (inl fresh), later)
        (λ a. (
          write_one-Got c (r.write c.fd) rest fresh,
          others Got c rest (write_one bytes c (r.write c.fd) rest)
              (write_one-Got_other c (r.write c.fd) rest) cs h.0 later,
        ))

  -- A client is attached, or it is neither written to nor evicted.
  abbrev pub Spared : Pass → Client → Type 0
  Spared p c = (c.attached ≡ true) ⊎ Untouched c.fd p

  write_one-Spared :
      (c : Client) (w : Write) (rest : Pass) (c' : Client)
      → c.fd ≢ c'.fd
      → Spared rest c'
      → Spared (write_one bytes c w rest) c'
  write_one-Spared c w rest c' ne (inl a) = inl a
  write_one-Spared c w rest c' ne (inr u) = inr (write_one-Untouched c w rest c'.fd ne u)

  pub write_pass-Spared :
      (cs : List Client) → Distinct (fds cs) → All (Spared (write_pass bytes r cs)) cs
  write_pass-Spared [] h = tt
  write_pass-Spared (c ∷ cs) h =
      let rest = write_pass bytes r cs in
      let later = write_pass-Spared cs h.1 in
      pass_cases (λ p. All (Spared p) (c ∷ cs)) c cs (inr (write_pass-Untouched cs c.fd h.0), later)
        (λ a. (
          inl a,
          others Spared c rest (write_one bytes c (r.write c.fd) rest)
              (write_one-Spared c (r.write c.fd) rest) cs h.0 later,
        ))

-- The removal of the clients whose descriptor is in the list.
pub close_bad-retain :
    (gs : List ℕ) (cs : List Client) → (close_bad gs cs).0 ≡ retain (λ c. not (has c.fd gs)) cs
unfolding close_bad
close_bad-retain [] cs = keep_all cs
  where
    keep_all : (cs : List Client) → cs ≡ retain (λ c. true) cs
    keep_all [] = refl
    keep_all (c ∷ cs) = ap (◌∷◌ c) (keep_all cs)
close_bad-retain (g ∷ gs) cs = close_bad-retain gs (retain (λ c. not (c.fd == g)) cs) ∙ twice cs
  where
    twice :
        (cs : List Client)
        → retain (λ (c : Client). not (has c.fd gs)) (retain (λ (c : Client). not (c.fd == g)) cs)
          ≡ retain (λ (c : Client). not (g == c.fd || has c.fd gs)) cs
    twice [] = refl
    twice (c ∷ cs) = ground (arith, twice cs)

pub close_bad-written :
    (gs : List ℕ) (cs : List Client) (fd : ℕ) → written fd (close_bad gs cs).1 ≡ []
unfolding close_bad
close_bad-written [] cs fd = refl
close_bad-written (g ∷ gs) cs fd = close_bad-written gs (retain (λ c. not (c.fd == g)) cs) fd
