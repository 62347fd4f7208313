-- ===== src/Daemon/Clients.antt =====
-- `Vec::swap_remove` on the client list, and the descriptors of the clients.
use mathlib.Core.List.{Perm, Permᴰ}
use mathlib.Core.List.Perm
use mathlib.Core.Logic.{∥∥₁_elim}
use zatch.Common.{
  ℕ, zero, suc, ◌+◌, ◌<◌, ◌≤◌, ◌≡◌, List, [], ◌∷◌, none, some, length, get_elem?, set, drop, map,
  refl, ap, All, retain, Bool, Bool-cases, inl, inr, arith,
}

module _ {ℓ} {A : Type ℓ} where
  -- The last entry comes first, and the others behind it.
  unfoldable pub last_first : List A → List A
  last_first [] = []
  last_first (x ∷ xs) = elim (last_first xs) [ [] ↦ x ∷ [] | y ∷ ys ↦ y ∷ x ∷ ys ]

  -- `xs.swap_remove(i)`: the last entry takes the place of entry `i`.
  unfoldable pub swap_remove : List A → ℕ → List A
  unfolding last_first
  swap_remove [] i = []
  swap_remove (x ∷ xs) zero = last_first xs
  swap_remove (x ∷ xs) (suc i) = x ∷ swap_remove xs i

  pub last_first-perm : (xs : List A) → Perm (last_first xs) xs
  unfolding last_first
  last_first-perm [] = Perm.nil
  last_first-perm (x ∷ xs) = place (last_first xs) (last_first-perm xs)
    where
      place :
          (zs : List A) → Perm zs xs → Perm (elim zs [ [] ↦ x ∷ [] | y ∷ ys ↦ y ∷ x ∷ ys ]) (x ∷ xs)
      place [] p = Perm.cons x p
      place (y ∷ ys) p = Perm.trans (Perm.swap x y ys) (Perm.cons x p)

  length-last_first : (xs : List A) → length (last_first xs) ≡ length xs
  unfolding last_first
  length-last_first [] = refl
  length-last_first (x ∷ xs) = ground (arith, length-last_first xs)

  -- Behind entry `i` nothing is lost but that entry.
  pub drop-swap_remove :
      (xs : List A) (i : ℕ) (x : A)
      → get_elem? xs i ≡ some x
      → Perm (drop i xs) (x ∷ drop i (swap_remove xs i))
  unfolding swap_remove
  drop-swap_remove [] i x e = cc
  drop-swap_remove (y ∷ xs) zero x e =
      let same : y ≡ x = cc in rw same (Perm.cons x (Perm.symm (last_first-perm xs)))
  drop-swap_remove (y ∷ xs) (suc i) x e = drop-swap_remove xs i x e

  pub length-swap_remove :
      (xs : List A) (i : ℕ) → i < length xs → length (swap_remove xs i) + 1 ≡ length xs
  unfolding swap_remove
  length-swap_remove [] i h = elim h [ ]
  length-swap_remove (y ∷ xs) zero h = omega (arith, length-last_first xs)
  length-swap_remove (y ∷ xs) (suc i) h = omega (arith, length-swap_remove xs i (omega arith))

  -- The same of the whole list.
  pub swap_remove-perm :
      (xs : List A) (i : ℕ) (x : A) → get_elem? xs i ≡ some x → Perm xs (x ∷ swap_remove xs i)
  unfolding swap_remove
  swap_remove-perm [] i x e = cc
  swap_remove-perm (y ∷ xs) zero x e =
      let same : y ≡ x = cc in rw same (Perm.cons x (Perm.symm (last_first-perm xs)))
  swap_remove-perm (y ∷ xs) (suc i) x e =
      Perm.trans (Perm.cons y (swap_remove-perm xs i x e)) (Perm.swap x y (swap_remove xs i))

  -- Entry `i` and what stands behind it.
  pub drop-get_elem? :
      (xs : List A) (i : ℕ) (x : A) → get_elem? xs i ≡ some x → drop i xs ≡ x ∷ drop (i + 1) xs
  drop-get_elem? [] i x e = cc
  drop-get_elem? (y ∷ xs) zero x e = let same : y ≡ x = cc in rw same refl
  drop-get_elem? (y ∷ xs) (suc i) x e =
      let s : suc i + 1 ≡ suc (i + 1) = omega arith in rw s (drop-get_elem? xs i x e)

  pub get_elem?-lt : (xs : List A) (i : ℕ) (x : A) → get_elem? xs i ≡ some x → i < length xs
  get_elem?-lt [] i x e = cc
  get_elem?-lt (y ∷ xs) zero x e = omega arith
  get_elem?-lt (y ∷ xs) (suc i) x e = omega (arith, get_elem?-lt xs i x e)

  pub get_elem?-le : (xs : List A) (i : ℕ) → get_elem? xs i ≡ none → length xs ≤ i
  get_elem?-le [] i e = omega arith
  get_elem?-le (y ∷ xs) zero e = cc
  get_elem?-le (y ∷ xs) (suc i) e = omega (arith, get_elem?-le xs i e)

  pub map-set {κ} :
      {B : Type κ} (f : A → B) (xs : List A) (i : ℕ) (x y : A)
      → get_elem? xs i ≡ some x
      → f y ≡ f x
      → map f (set xs i y) ≡ map f xs
  map-set f [] i x y e h = refl
  map-set f (z ∷ xs) zero x y e h = let same : z ≡ x = cc in rw (h, same)
  map-set f (z ∷ xs) (suc i) x y e h = ap (◌∷◌ (f z)) (map-set f xs i x y e h)

  pub get_elem?-set :
      (xs : List A) (i : ℕ) (x y : A) → get_elem? xs i ≡ some x → get_elem? (set xs i y) i ≡ some y
  get_elem?-set [] i x y e = cc
  get_elem?-set (z ∷ xs) zero x y e = refl
  get_elem?-set (z ∷ xs) (suc i) x y e = get_elem?-set xs i x y e

  pub All-set {κ} :
      (P : A → Type κ) (xs : List A) (i : ℕ) (y : A) → P y → All P xs → All P (set xs i y)
  All-set P [] i y h hs = hs
  All-set P (x ∷ xs) zero y h hs = (h, hs.1)
  All-set P (x ∷ xs) (suc i) y h hs = (hs.0, All-set P xs i y h hs.1)

  pub All-get_elem? {κ} :
      (P : A → Type κ) (xs : List A) (i : ℕ) (x : A) → get_elem? xs i ≡ some x → All P xs → P x
  All-get_elem? P [] i x e hs = cc
  All-get_elem? P (y ∷ xs) zero x e hs = let same : y ≡ x = cc in rw (← same) hs.0
  All-get_elem? P (y ∷ xs) (suc i) x e hs = All-get_elem? P xs i x e hs.1

  All-last_first {κ} : (P : A → Type κ) (xs : List A) → All P xs → All P (last_first xs)
  unfolding last_first
  All-last_first P [] hs = hs
  All-last_first P (x ∷ xs) hs = place (last_first xs) (All-last_first P xs hs.1)
    where
      place : (zs : List A) → All P zs → All P (elim zs [ [] ↦ x ∷ [] | y ∷ ys ↦ y ∷ x ∷ ys ])
      place [] q = (hs.0, q)
      place (y ∷ ys) q = (q.0, (hs.0, q.1))

  pub All-swap_remove {κ} :
      (P : A → Type κ) (xs : List A) (i : ℕ) → All P xs → All P (swap_remove xs i)
  unfolding swap_remove
  All-swap_remove P [] i hs = hs
  All-swap_remove P (x ∷ xs) zero hs = All-last_first P xs hs.1
  All-swap_remove P (x ∷ xs) (suc i) hs = (hs.0, All-swap_remove P xs i hs.1)

  retain-permᴰ : (p : A → Bool) {xs ys : List A} → Permᴰ xs ys → Perm (retain p xs) (retain p ys)
  retain-permᴰ p Permᴰ.nil = Perm.nil
  retain-permᴰ p (Permᴰ.cons {a = x} {b = y} e q) = rw e (elim (Bool-cases (p y)) [
    | inl t ↦ rw t (Perm.cons y (retain-permᴰ p q))
    | inr f ↦ rw f (retain-permᴰ p q)
  ])
  retain-permᴰ p (Permᴰ.swap {a = x} {b = y} {a' = y'} {b' = x'} {l} e q) =
      rw (e, q)
        (elim (Bool-cases (p x')) [
          | inl t ↦ elim (Bool-cases (p y')) [
            | inl t' ↦ rw (t, t') (Perm.swap y' x' (retain p l))
            | inr f' ↦ rw (t, f') (Perm.refl _)
          ]
          | inr f ↦ rw f (Perm.refl _)
        ])
  retain-permᴰ p (Permᴰ.trans q r) = Perm.trans (retain-permᴰ p q) (retain-permᴰ p r)

  pub retain-perm : (p : A → Bool) {xs ys : List A} → Perm xs ys → Perm (retain p xs) (retain p ys)
  retain-perm p q = ∥∥₁_elim q squash₁ (retain-permᴰ p)

module _ {ℓ κ} {A : Type ℓ} {B : Type κ} (f : A → B) where
  last_first-map : (xs : List A) → last_first (map f xs) ≡ map f (last_first xs)
  unfolding last_first
  last_first-map [] = refl
  last_first-map (x ∷ xs) = rw (last_first-map xs) (place (last_first xs))
    where
      place :
          (zs : List A)
          → elim (map f zs) [ [] ↦ f x ∷ [] | y ∷ ys ↦ y ∷ f x ∷ ys ]
            ≡ map f (elim zs [ [] ↦ x ∷ [] | y ∷ ys ↦ y ∷ x ∷ ys ])
      place [] = refl
      place (y ∷ ys) = refl

  pub swap_remove-map : (xs : List A) (i : ℕ) → swap_remove (map f xs) i ≡ map f (swap_remove xs i)
  unfolding swap_remove
  swap_remove-map [] i = refl
  swap_remove-map (x ∷ xs) zero = last_first-map xs
  swap_remove-map (x ∷ xs) (suc i) = ap (◌∷◌ (f x)) (swap_remove-map xs i)

  pub get_elem?-map :
      (xs : List A) (i : ℕ) (x : A) → get_elem? xs i ≡ some x → get_elem? (map f xs) i ≡ some (f x)
  get_elem?-map [] i x e = cc
  get_elem?-map (y ∷ xs) zero x e = let same : y ≡ x = cc in rw same refl
  get_elem?-map (y ∷ xs) (suc i) x e = get_elem?-map xs i x e

  pub length-map : (xs : List A) → length (map f xs) ≡ length xs
  length-map [] = refl
  length-map (x ∷ xs) = ap suc (length-map xs)
