-- ===== src/Scrollback/Window.antt =====
-- The bytes that a ring holds, and the arithmetic of its indices.
use native.Mathlib.Nat.{mod-eq_of_lt, mod-eq-sub-mod}
use zatch.Common.{
  ℕ, ◌+◌, ◌-◌, ◌%◌, ◌≤◌, ◌<◌, ◌≡◌, List, length, get_or, tabulate, length-tabulate, ltb,
  if◌then◌else◌, arith, inl, inr, Bool-cases, tests, length-replicate, ◌≢◌,
}
use zatch.Scrollback.{Scrollback, new}

pub record IsValid (size : ℕ) (sb : Scrollback) : Type 0 where
  pub full_size : length sb.buf ≡ size
  pub head_in : sb.head < size
  pub len_in : sb.len ≤ size

-- The `n` bytes of `buf` from index `h` on, going round at `size`.
abbrev pub window : ℕ → List ℕ → ℕ → ℕ → List ℕ
window size buf h n = tabulate n (λ i. get_or buf ((h + i) % size) 0)

-- What the ring holds, oldest byte first.
abbrev pub contents : ℕ → Scrollback → List ℕ
contents size sb = window size sb.buf sb.head sb.len

pub length-contents : (size : ℕ) (sb : Scrollback) → length (contents size sb) ≡ sb.len
length-contents size sb = length-tabulate sb.len (λ i. get_or sb.buf ((sb.head + i) % size) 0)

-- One turn round the ring at most: `%` is a subtraction.
pub round :
    (size h k : ℕ)
    → h < size
    → k ≤ size
    → (h + k) % size ≡ (if ltb (h + k) size then h + k else h + k - size)
round size h k hh hk = elim (Bool-cases (ltb (h + k) size)) [
  | inl e ↦ rw e (mod-eq_of_lt (omega tests))
  | inr e ↦ rw e (
      omega (
        tests,
        mod-eq-sub-mod {n = h + k} {m = size} (omega tests),
        mod-eq_of_lt {n = h + k - size} {m = size} (omega tests),
      ))
]

pub new-IsValid : (size : ℕ) → size ≢ 0 → IsValid size (new size)
unfolding new
new-IsValid size h = omega (arith, length-replicate size (let z : ℕ = 0 in z))
