-- ===== src/Session/Terminal/Restores.antt =====
-- The user gets the terminal back, however the process ends.
use zatch.Common.{◌≡◌, ◌⊎◌, inl, inr, Option, none, some, Bool, true, false, refl, Bool-cases}
use zatch.Session.Terminal.{
  Termios, raw_attributes, Tty, set_once, raw_terminal, restore_term, handle_die, handle_winch,
  set_attributes, before_exit,
}

-- The states of a process whose terminal had these attributes. The suspension sets them for as long
-- as the process is stopped, and then those that `raw_terminal` made; signals come at any time.
pub data Reaches (orig : Termios) : Tty → Type 0 where
  begins :
      (hook die win : Bool)
      → Reaches orig (record {
        attributes = orig;
        term_backup = none;
        term_backed_up = false;
        hook_set = hook;
        should_die = die;
        win_changed = win;
      })
  enters : (t : Tty) → Reaches orig t → Reaches orig (raw_terminal orig t)
  suspends : (t : Tty) → Reaches orig t → Reaches orig (set_attributes orig t)
  resumes :
      (t : Tty)
      → Reaches orig t
      → t.term_backed_up ≡ true
      → Reaches orig (set_attributes (raw_attributes orig) t)
  dies : (t : Tty) → Reaches orig t → Reaches orig (handle_die t)
  winches : (t : Tty) → Reaches orig t → Reaches orig (handle_winch t)
  leaves : (t : Tty) → Reaches orig t → Reaches orig (before_exit orig t)

-- The backup is what the terminal was; it is there unless the terminal is as it was.
record Backed (orig : Termios) (t : Tty) : Type 0 where
  same_backup : (t.term_backup ≡ none) ⊎ (t.term_backup ≡ some orig)
  there : t.term_backed_up ≡ true → t.term_backup ≡ some orig
  as_it_was : t.term_backed_up ≡ false → t.attributes ≡ orig

set_once-same :
    (o : Option Termios) (orig : Termios)
    → (o ≡ none) ⊎ (o ≡ some orig)
    → set_once o orig ≡ some orig
set_once-same none orig h = refl
set_once-same (some first) orig (inl e) = cc
set_once-same (some first) orig (inr e) = e

restore_term-attributes :
    (orig : Termios) (t : Tty) → Backed orig t → (restore_term t).attributes ≡ orig
unfolding restore_term
restore_term-attributes orig t b = elim (Bool-cases t.term_backed_up) [
  | inl e ↦ let k = b.there e in rw (e, k) refl
  | inr e ↦ let k = b.as_it_was e in rw e k
]

Reaches-Backed : (orig : Termios) (t : Tty) → Reaches orig t → Backed orig t
unfolding raw_terminal handle_die restore_term handle_winch before_exit
Reaches-Backed orig _ (begins hook die win) = record {
  same_backup = inl refl;
  there = λ e. cc;
  as_it_was = λ e. refl;
}
Reaches-Backed orig _ (enters t r) =
    let b = Reaches-Backed orig t r in
    let k = set_once-same t.term_backup orig b.same_backup in
    record { same_backup = inr k; there = λ e. k; as_it_was = λ e. cc }
Reaches-Backed orig _ (suspends t r) =
    let b = Reaches-Backed orig t r in
    record { same_backup = b.same_backup; there = b.there; as_it_was = λ e. refl }
Reaches-Backed orig _ (resumes t r on) =
    let b = Reaches-Backed orig t r in
    record { same_backup = b.same_backup; there = b.there; as_it_was = λ e. cc }
Reaches-Backed orig _ (dies t r) =
    let b = Reaches-Backed orig t r in
    record {
      same_backup = b.same_backup;
      there = b.there;
      as_it_was = λ e. restore_term-attributes orig t b;
    }
Reaches-Backed orig _ (winches t r) =
    let b = Reaches-Backed orig t r in
    record { same_backup = b.same_backup; there = b.there; as_it_was = b.as_it_was }
Reaches-Backed orig _ (leaves t r) =
    let b = Reaches-Backed orig t r in
    record { same_backup = b.same_backup; there = λ e. cc; as_it_was = λ e. refl }

-- In every state that an attachment's process can be in, with any number of changes to the raw
-- attributes, suspensions and signals in any order, `restore_term`, which runs when the process
-- exits or panics, leaves the terminal with the attributes that it had at the start; and so does
-- the handler of a signal that ends the process.
pub restore_term-Reaches :
    (orig : Termios) (t : Tty)
    → Reaches orig t
    → ((restore_term t).attributes ≡ orig) × ((handle_die t).attributes ≡ orig)
unfolding handle_die
restore_term-Reaches orig t r =
    let e = restore_term-attributes orig t (Reaches-Backed orig t r) in (e, e)
