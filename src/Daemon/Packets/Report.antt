-- ===== src/Daemon/Packets/Report.antt =====
-- What `handle_info` writes to the client that asked.
use zatch.Common.{
  suc, append_assoc, decimal, codes, if◌then◌else◌, Bool-cases, inl, inr, ◌∙◌, ℕ, ◌+◌, ◌*◌, ◌≡◌,
  ◌≤◌, List, [], ◌∷◌, ◌++◌, Option, none, some, true, false, ◌==◌, length, refl, arith,
}
use zatch.Os.{Write, progress, Clean}
use zatch.Wire.{write_buf}
use zatch.Wire.Returns.{write_buf-returns, write_buf-Clean}
use zatch.Wire.Transmit.{write_buf-all}
use zatch.Daemon.{
  Client, attached_clients, pid_lines, SessionDaemon, Effect, Handled, handle_info, write_lines,
  info_lines, wrote,
}
use zatch.Daemon.Output.Writes.{written}
use zatch.Daemon.Packets.Answers.{total, total-info_lines}

-- The lines, one after another.
abbrev pub flat : List (List ℕ) → List ℕ
flat [] = []
flat (line ∷ lines) = line ++ flat lines

-- The number of the attached clients.
abbrev pub attached_count : List Client → ℕ
attached_count [] = 0
attached_count (c ∷ cs) = let n = attached_count cs in if c.attached then suc n else n

-- A line for the process of each attached client.
abbrev pub processes : List Client → List ℕ
processes [] = []
processes (c ∷ cs) =
    let later = processes cs in
    if c.attached then codes "pid: " ++ (decimal c.peer_pid ++ (codes "\n" ++ later)) else later

-- The text that a report on these clients has to be.
abbrev pub report : List Client → List ℕ
report cs = codes "attached: " ++ (decimal (attached_count cs) ++ (codes "\n" ++ processes cs))

length-attached_clients : (cs : List Client) → length (attached_clients cs) ≡ attached_count cs
length-attached_clients [] = refl
length-attached_clients (c ∷ cs) = elim (Bool-cases c.attached) [
  | inl e ↦ rw (e, length-attached_clients cs) refl
  | inr e ↦ rw (e, length-attached_clients cs) refl
]

flat-pid_lines : (cs : List Client) → flat (pid_lines (attached_clients cs)) ≡ processes cs
unfolding pid_lines
flat-pid_lines [] = refl
flat-pid_lines (c ∷ cs) = elim (Bool-cases c.attached) [
  | inl e ↦
      rw (e, flat-pid_lines cs, append_assoc (decimal c.peer_pid) (codes "\n") (processes cs)) refl
  | inr e ↦ rw (e, flat-pid_lines cs) refl
]

flat-info_lines : (cs : List Client) → flat (info_lines cs) ≡ report cs
unfolding info_lines
flat-info_lines cs =
    rw
      (
        length-attached_clients cs,
        flat-pid_lines cs,
        append_assoc (decimal (attached_count cs)) (codes "\n") (processes cs),
      )
      refl

eq_self : (n : ℕ) → (n == n) ≡ true
eq_self n = ground arith

-- The writes came back, and the descriptor took these bytes.
abbrev Wrote : ℕ → List ℕ → Option (List Effect) → Type 0
Wrote fd text o = (es : List Effect) × (o ≡ some es) × (written fd es ≡ text)

line_first :
    (fd : ℕ) (line out more : List ℕ) (r : Option (Unit {0})) (later : Option (List Effect))
    → r ≡ some tt
    → out ≡ line
    → Wrote fd more later
    → Wrote fd (line ++ more) (elim r [
      | none ↦ none
      | some _ ↦ elim later [ none ↦ none | some es ↦ some (wrote fd out ∷ es) ]
    ])
line_first fd line out more none later e o w = cc
line_first fd line out more (some u) none e o (es, q, w) = cc
line_first fd line out more (some u) (some fs) e o (es, q, w) =
    let lists : fs ≡ es = cc in (wrote fd out ∷ fs, refl, rw (eq_self fd, o, lists, w) refl)

write_lines-Wrote :
    (fd : ℕ) (lines : List (List ℕ)) (writes : List Write)
    → Clean writes
    → total lines ≤ progress writes
    → Wrote fd (flat lines) (write_lines fd lines writes)
unfolding write_lines
write_lines-Wrote fd [] writes c h = ([], refl, refl)
write_lines-Wrote fd (line ∷ lines) writes c h =
    let s = write_buf line writes in
    let all = write_buf-all line writes c (omega arith) in
    let left = write_buf-returns line writes (omega arith) in
    line_first fd line s.out (flat lines) s.result (write_lines fd lines s.left) all.0 all.1
      (write_lines-Wrote fd lines s.left (write_buf-Clean line writes c) (omega (arith, left.1)))

-- The report reaches the client that asked, which is then closed.
pub record Informs (d : SessionDaemon) (fd : ℕ) (o : Option Handled) : Type 0 where
  pub effects : List Effect
  pub returns : o ≡ some (record { keep = false; daemon = d; effects = effects })
  pub text : written fd effects ≡ report d.clients

pub handle_info-Informs :
    (d : SessionDaemon) (fd : ℕ) (writes : List Write)
    → Clean writes
    → 31 + 26 * length d.clients ≤ progress writes
    → Informs d fd (handle_info d fd writes)
unfolding handle_info
handle_info-Informs d fd writes c h = told (write_lines fd (info_lines d.clients) writes) (
    write_lines-Wrote fd (info_lines d.clients) writes c
      (omega (arith, total-info_lines d.clients)))
  where
    told :
        (o : Option (List Effect))
        → Wrote fd (flat (info_lines d.clients)) o
        → Informs d fd (elim o [
          | none ↦ none
          | some es ↦ some (record { keep = false; daemon = d; effects = es })
        ])
    told none (es, q, w) = cc
    told (some fs) (es, q, w) =
        let lists : fs ≡ es = cc in
        record { effects = fs; returns = refl; text = rw lists (w ∙ flat-info_lines d.clients) }
