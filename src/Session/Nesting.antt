-- ===== src/Session/Nesting.antt =====
-- Sessions inside sessions: the environment variable that names them, innermost last, as `Pty::new` of
-- src/pty.rs sets it, `Session::try_connect` and `cmd_current` of src/session.rs and
-- `resolve_session_name` of src/main.rs read it.
use zatch.Common.{
  ℕ, ◌≡◌, ◌≢◌, inl, inr, List, [], ◌∷◌, ◌++◌, Option, none, some, Bool, true, false, ◌||◌, ◌==◌,
  ==_iff, if◌then◌else◌, All, same, same_refl, refl, sym, ap, ◌∙◌, Bool-cases, append_assoc,
  append-nil,
}
use zatch.Util.Names.{rsplit_next}

-- The value of the variable in the child of a session: `prev` is its value in the parent, if it is
-- set.
unfoldable pub child_env : Option (List ℕ) → List ℕ → List ℕ
child_env none sockname = sockname
child_env (some []) sockname = sockname
child_env (some (c ∷ p)) sockname = (c ∷ p) ++ (b':' ∷ sockname)

-- `chain.split(':')`; `part` is what was read since the last one.
unfoldable pub split_colon : List ℕ → List ℕ → List (List ℕ)
split_colon part [] = part ∷ []
split_colon part (c ∷ s) =
    let here = part ∷ split_colon [] s in
    let later = split_colon (part ++ (c ∷ [])) s in if c == b':' then here else later

-- One of the segments is the session.
abbrev pub any_same : List ℕ → List (List ℕ) → Bool
any_same sockname [] = false
any_same sockname (seg ∷ segs) = same seg sockname || any_same sockname segs

-- The guard of `try_connect`: this process runs inside the session.
unfoldable pub inside : Option (List ℕ) → List ℕ → Bool
unfolding split_colon
inside none sockname = false
inside (some []) sockname = false
inside (some (c ∷ p)) sockname = any_same sockname (split_colon [] (c ∷ p))

-- The session that a command is about: the one that it names, or else the innermost one.
unfoldable pub resolve_session_name : Option (List ℕ) → Option (List ℕ) → List ℕ
unfolding rsplit_next
resolve_session_name (some name) env = name
resolve_session_name none none = []
resolve_session_name none (some []) = []
resolve_session_name none (some (c ∷ p)) = rsplit_next b':' [] (c ∷ p)

-- No colon stands in a name.
abbrev pub Plain : List ℕ → Type 0
Plain = All (λ c. c ≢ b':')

colon_self : (b':' == b':') ≡ true
colon_self = refl

not_colon : (c : ℕ) → c ≢ b':' → (c == b':') ≡ false
not_colon c h = elim (Bool-cases (c == b':')) [
  | inl e ↦ absurd (h ((==_iff c b':').0 e))
  | inr e ↦ e
]

split_colon-append :
    (part xs ys : List ℕ)
    → split_colon part (xs ++ (b':' ∷ ys)) ≡ split_colon part xs ++ split_colon [] ys
unfolding split_colon
split_colon-append part [] ys = refl
split_colon-append part (x ∷ xs) ys = elim (Bool-cases (x == b':')) [
  | inl e ↦ rw e (ap (◌∷◌ part) (split_colon-append [] xs ys))
  | inr e ↦ rw e (split_colon-append (part ++ (x ∷ [])) xs ys)
]

split_colon-Plain : (part s : List ℕ) → Plain s → split_colon part s ≡ (part ++ s) ∷ []
unfolding split_colon
split_colon-Plain part [] h = rw (append-nil part) refl
split_colon-Plain part (c ∷ s) h =
    rw (not_colon c h.0)
      (split_colon-Plain (part ++ (c ∷ [])) s h.1 ∙ ap (λ t. t ∷ []) (append_assoc part (c ∷ []) s))

rsplit_next-append :
    (part xs ys : List ℕ) → rsplit_next b':' part (xs ++ (b':' ∷ ys)) ≡ rsplit_next b':' [] ys
unfolding rsplit_next
rsplit_next-append part [] ys = refl
rsplit_next-append part (x ∷ xs) ys = elim (Bool-cases (x == b':')) [
  | inl e ↦ rw (rsplit_next, e) (rsplit_next-append [] xs ys)
  | inr e ↦ rw (rsplit_next, e) (rsplit_next-append (part ++ (x ∷ [])) xs ys)
]

rsplit_next-Plain : (part s : List ℕ) → Plain s → rsplit_next b':' part s ≡ part ++ s
unfolding rsplit_next
rsplit_next-Plain part [] h = sym (append-nil part)
rsplit_next-Plain part (c ∷ s) h =
    rw (not_colon c h.0) (rsplit_next-Plain (part ++ (c ∷ [])) s h.1 ∙ append_assoc part (c ∷ []) s)

any_same-append :
    (name : List ℕ) (xs ys : List (List ℕ))
    → any_same name (xs ++ ys) ≡ any_same name xs || any_same name ys
any_same-append name [] ys = refl
any_same-append name (x ∷ xs) ys = elim (Bool-cases (same x name)) [
  | inl e ↦ rw e refl
  | inr e ↦ rw e (any_same-append name xs ys)
]

or_true : (a : Bool) → a || true ≡ true
or_true true = refl
or_true false = refl

-- What a process in a session knows of the sessions around it.
pub record Nests (prev : Option (List ℕ)) (sockname : List ℕ) : Type 0 where
  pub own : inside (some (child_env prev sockname)) sockname ≡ true
  pub outer :
      (name : List ℕ)
      → inside prev name ≡ true
      → inside (some (child_env prev sockname)) name ≡ true
  pub current : resolve_session_name none (some (child_env prev sockname)) ≡ sockname

-- A session that is not inside another.
alone :
    (c : ℕ) (s : List ℕ)
    → Plain (c ∷ s)
    → (inside (some (c ∷ s)) (c ∷ s) ≡ true) × (resolve_session_name none (some (c ∷ s)) ≡ c ∷ s)
unfolding inside resolve_session_name
alone c s h =
    (rw (split_colon-Plain [] (c ∷ s) h, same_refl (c ∷ s)) refl, rsplit_next-Plain [] (c ∷ s) h)

-- In the child of a session whose socket's path is not empty and has no colon, the guard of
-- `try_connect` knows the session and every one around it, and a command without a session's name is
-- about this session.
pub child_env-Nests :
    (prev : Option (List ℕ)) (sockname : List ℕ)
    → sockname ≢ []
    → Plain sockname
    → Nests prev sockname
unfolding child_env inside resolve_session_name
child_env-Nests prev [] h plain = absurd (h refl)
child_env-Nests none (c ∷ s) h plain =
    let a = alone c s plain in record { own = a.0; outer = λ n k. cc; current = a.1 }
child_env-Nests (some []) (c ∷ s) h plain =
    let a = alone c s plain in record { own = a.0; outer = λ n k. cc; current = a.1 }
child_env-Nests (some (x ∷ p)) (c ∷ s) h plain = record {
  own =
      rw
        (
          split_colon-append [] (x ∷ p) (c ∷ s),
          any_same-append (c ∷ s) (split_colon [] (x ∷ p)) (split_colon [] (c ∷ s)),
          split_colon-Plain [] (c ∷ s) plain,
          same_refl (c ∷ s),
        )
        (or_true (any_same (c ∷ s) (split_colon [] (x ∷ p))));
  outer = λ n k.
      rw
        (
          split_colon-append [] (x ∷ p) (c ∷ s),
          any_same-append n (split_colon [] (x ∷ p)) (split_colon [] (c ∷ s)),
          k,
        )
        refl;
  current = rsplit_next-append [] (x ∷ p) (c ∷ s) ∙ rsplit_next-Plain [] (c ∷ s) plain;
}
