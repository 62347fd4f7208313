-- ===== src/Cli/Tail.antt =====
-- `cmd_tail` of src/main.rs without `-f`: the last lines of a session's log.
use zatch.Common.{
  ℕ, zero, suc, ◌+◌, ◌-◌, ◌≡◌, ◌≢◌, ◌≤◌, ◌<◌, min, List, [], ◌∷◌, ◌++◌, Option, none, some, false,
  All, Result, ok, err, length, take, drop, ltb, ◌==◌, if◌then◌else◌, refl, sym, ap, ◌∙◌, arith,
  codes, map, length-take, length-drop, drop_all, take-append-drop, drop-drop, Bool-cases, inl, inr,
  ==_iff, get_or, ltb→lt, ltb→le,
}
use zatch.Log.App.{LogLevel}
use zatch.Util.Tail.{find_tail_start, IsTailStart, find_tail_start-Finds}
use zatch.Util.Places.{Place, expand_sockname}
use zatch.Session.{Session, Act, output, about_session}
use zatch.Cli.{said, log_println, log_eprintln}

-- The loop that prints the file from `pos` on: each read takes an answer, the number of bytes that the
-- kernel is ready to give, where an error counts as 0. No result: a read has not come back.
unfoldable pub print_loop : ℕ → List ℕ → ℕ → List ℕ → Option (List (List ℕ))
print_loop bufsize file pos [] = none
print_loop bufsize file pos (answer ∷ answers) =
    let bs = take (min bufsize answer) (drop pos file) in
    let later = print_loop bufsize file (pos + length bs) answers in
    if length bs == 0 then some [] else elim later [ none ↦ none | some out ↦ some (bs ∷ out) ]

-- What the command leaves.
pub record Tailed : Type 0 where
  pub code : ℕ
  pub acts : List Act

abbrev printed_acts : List Act → Option (List (List ℕ)) → Option Tailed
printed_acts acts none = none
printed_acts acts (some out) = some (record { code = 0; acts = acts ++ map (λ bs. output bs) out })

-- The lines from the offset on.
abbrev from_start : ℕ → List ℕ → List ℕ → List Act → Option ℕ → Option Tailed
from_start bufsize file answers acts none = none
from_start bufsize file answers acts (some start) =
    printed_acts acts (print_loop bufsize file start answers)

-- `lines` is 0 where the code has a number below 1. ENOENT is 2.
unfoldable pub cmd_tail :
    (ℕ → List ℕ)
    → ℕ
    → Place
    → Session
    → List ℕ
    → ℕ
    → Result (List ℕ) ℕ
    → List ℕ
    → List ℕ
    → Option Tailed
unfolding print_loop
cmd_tail os_error bufsize place sess session lines opened scans answers =
    let p = expand_sockname place sess.progname session in
    let here = record sess { sockname = p.path } in
    let n = if ltb lines 1 then 1 else lines in
    elim opened [
      | err e ↦ some (record {
        code = 1;
        acts =
            said p.said
            ++ (if e == 2
                then log_println sess LogLevel.error (codes "no log for " ++ about_session here [])
                else log_eprintln sess LogLevel.error (p.path ++ (codes ".log: " ++ os_error e)));
      })
      | ok file ↦
          if ltb 0 (length file)
          then from_start bufsize file answers (said p.said)
              (find_tail_start bufsize file (length file) n scans)
          else some (record { code = 0; acts = said p.said })
    ]

-- What the actions write to standard output.
abbrev pub shown : List Act → List ℕ
shown [] = []
shown (output bs ∷ acts) = bs ++ shown acts
shown (_ ∷ acts) = shown acts

shown_said : (texts : List (List ℕ)) (acts : List Act) → shown (said texts ++ acts) ≡ shown acts
shown_said [] acts = refl
shown_said (t ∷ texts) acts = shown_said texts acts

-- The loop came back, and its pieces make up the file from `pos` on.
abbrev PrintsFrom : List ℕ → ℕ → Option (List (List ℕ)) → Type 0
PrintsFrom file pos o =
    (out : List (List ℕ)) × (o ≡ some out) × (shown (map (λ bs. output bs) out) ≡ drop pos file)

print_first :
    (file : List ℕ) (pos n : ℕ) (bs : List ℕ) (o : Option (List (List ℕ)))
    → bs ≡ take n (drop pos file)
    → PrintsFrom file (pos + n) o
    → PrintsFrom file pos (elim o [ none ↦ none | some out ↦ some (bs ∷ out) ])
print_first file pos n bs none b (out, e, s) = cc
print_first file pos n bs (some rest) b (out, e, s) =
    let lists : rest ≡ out = cc in
    (
      bs ∷ rest,
      refl,
      rw (lists, s, b)
          (ap (◌++◌ (take n (drop pos file))) (sym (drop-drop n pos (pos + n) file refl))
            ∙ take-append-drop n (drop pos file)),
    )

print_loop-Prints :
    (bufsize : ℕ) (file : List ℕ) (pos : ℕ) (answers : List ℕ)
    → bufsize ≢ 0
    → pos ≤ length file
    → length file < pos + length answers
    → All (λ k. 1 ≤ k) answers
    → PrintsFrom file pos (print_loop bufsize file pos answers)
unfolding print_loop
print_loop-Prints bufsize file pos [] b le enough full = absurd (omega arith)
print_loop-Prints bufsize file pos (k ∷ answers) b le enough full =
    let n = length (take (min bufsize k) (drop pos file)) in
    let size : n ≡ min (min bufsize k) (length file - pos) =
      omega (arith, length-take (min bufsize k) (drop pos file), length-drop pos file) in
    elim (Bool-cases (n == 0)) [
      | inl e ↦
          let over : n ≡ 0 = (==_iff n 0).0 e in
          rw (print_loop, e) ([], refl, sym (drop_all pos file (omega (arith, size, over, full.0))))
      | inr e ↦
          let same_take : take (min bufsize k) (drop pos file) ≡ take n (drop pos file) =
            take_min (min bufsize k) (drop pos file) in
          rw (print_loop, e)
            (print_first file pos n (take (min bufsize k) (drop pos file))
              (print_loop bufsize file (pos + n) answers) same_take
              (print_loop-Prints bufsize file (pos + n) answers b (omega (arith, size, le))
                (omega (arith, size, enough, some_read n e)) full.1))
    ]
  where
    some_read : (n : ℕ) → (n == 0) ≡ false → 1 ≤ n
    some_read n e = ground arith

    take_min : (m : ℕ) (xs : List ℕ) → take m xs ≡ take (length (take m xs)) xs
    take_min zero xs = refl
    take_min (suc m) [] = refl
    take_min (suc m) (x ∷ xs) = ap (◌∷◌ x) (take_min m xs)

-- The exit code is 0, and what is printed are the last lines.
abbrev pub Prints : List ℕ → ℕ → Option Tailed → Type 0
Prints file n o =
    (r : Tailed) × (start : ℕ) × (o ≡ some r)
    × (r.code ≡ 0)
    × IsTailStart file n start
    × (shown r.acts ≡ drop start file)

from_start-Prints :
    (bufsize : ℕ) (file : List ℕ) (answers : List ℕ) (texts : List (List ℕ)) (n start : ℕ)
    (o : Option (List (List ℕ)))
    → IsTailStart file n start
    → PrintsFrom file start o
    → Prints file n (printed_acts (said texts) o)
from_start-Prints bufsize file answers texts n start none t (out, e, s) = cc
from_start-Prints bufsize file answers texts n start (some rest) t (out, e, s) =
    let lists : rest ≡ out = cc in
    (
      record { code = 0; acts = said texts ++ map (λ bs. output bs) rest },
      start,
      refl,
      refl,
      t,
      shown_said texts (map (λ bs. output bs) rest) ∙ rw lists s,
    )

tail_start_in : (file : List ℕ) (n start : ℕ) → IsTailStart file n start → start ≤ length file
tail_start_in file n start (inl t) = omega (arith, t.1)
tail_start_in file n start (inr (l, q, e, h)) = elim (Bool-cases (ltb q (length file))) [
  | inl k ↦ omega (arith, ltb→lt q (length file) k, e)
  | inr k ↦
      let no : get_or file q 0 ≡ 0 = get_or_out file q (ltb→le q (length file) k) in
      absurd (omega (arith, no, h))
]
  where
    get_or_out : (xs : List ℕ) (i : ℕ) → length xs ≤ i → get_or xs i 0 ≡ 0
    get_or_out [] i h = refl
    get_or_out (x ∷ xs) zero h = absurd (omega arith)
    get_or_out (x ∷ xs) (suc i) h = get_or_out xs i (omega arith)

-- The last lines of a log that is there: if each read of the scan fills the buffer, and each read
-- behind it gives a byte at least as long as there are any, the command comes back with exit code 0,
-- and has printed exactly the file from an offset behind which there are as many line ends as lines
-- were asked for, and one right before it; or the whole file, if it has no more.
pub cmd_tail-Prints :
    (os_error : ℕ → List ℕ) (bufsize : ℕ) (place : Place) (sess : Session) (session : List ℕ)
    (lines : ℕ) (file scans answers : List ℕ)
    → bufsize ≢ 0
    → length file ≤ length scans
    → All (λ k. bufsize ≤ k) scans
    → length file < length answers
    → All (λ k. 1 ≤ k) answers
    → 1 ≤ lines
    → Prints file lines (cmd_tail os_error bufsize place sess session lines (ok file) scans answers)
unfolding cmd_tail
cmd_tail-Prints os_error bufsize place sess session lines file scans answers b enough full more
      some_bytes asked =
    let texts = (expand_sockname place sess.progname session).said in
    let n_is : ltb lines 1 ≡ false = ground (arith, asked) in
    elim (Bool-cases (ltb 0 (length file))) [
      | inr e ↦
          let empty : file ≡ [] = nothing file (ltb→le 0 (length file) e) in
          rw e (
            record { code = 0; acts = said texts },
            0,
            refl,
            refl,
            rw empty (inl (omega arith, refl)),
            rw empty (shown_all texts),
          )
      | inl e ↦
          let (start, q, t) = find_tail_start-Finds bufsize file lines scans b enough full in
          rw (e, n_is, q)
            (from_start-Prints bufsize file answers texts lines start
              (print_loop bufsize file start answers) t
              (print_loop-Prints bufsize file start answers b (tail_start_in file lines start t)
                (omega (arith, more)) some_bytes))
    ]
  where
    nothing : (xs : List ℕ) → length xs ≤ 0 → xs ≡ []
    nothing [] h = refl
    nothing (x ∷ xs) h = absurd (omega arith)

    shown_all : (texts : List (List ℕ)) → shown (said texts) ≡ []
    shown_all [] = refl
    shown_all (t ∷ texts) = shown_all texts
