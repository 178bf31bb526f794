-- ===== src/Buffer/Growth.antt =====
-- The doubling loop of ntb_buffer_ensure_size.
use notbit.Common.{
  ℕ, zero, suc, ◌+◌, ◌*◌, ◌%◌, ◌^◌, ◌≤◌, ◌<◌, ◌≡◌, refl, ap, arith, none, some, ltb, Bool-cases,
  inl, inr, ◌⊎◌, ltb→lt, lt→ltb, ltb→le,
}
use native.Mathlib.Nat.{pow-suc, pow-le-pow_right}
use notbit.Buffer.{grow}

-- With `n` doublings left before the target, `n + 1` rounds end at a size that is enough, less than
-- twice too large, and no smaller than the start.
pub grow_total :
    (n new_size size : ℕ)
    → 1 ≤ new_size
    → new_size < 2 ^ 64
    → size ≤ 2 ^ 63
    → size ≤ new_size * 2 ^ n
    → (r : ℕ) × (grow (suc n) new_size size ≡ some r)
      × (size ≤ r)
      × (r < 2 ^ 64)
      × (new_size ≤ r)
      × ((r ≡ new_size) ⊎ (r < 2 * size))
unfolding grow
grow_total zero new_size size pos fits small enough =
    (new_size, ground arith, omega arith, fits, omega arith, inl refl)
grow_total (suc n) new_size size pos fits small enough = elim (Bool-cases (ltb new_size size)) [
  | inr e ↦ (new_size, rw e, ltb→le _ _ e, fits, omega arith, inl refl)
  | inl e ↦
      let less = ltb→lt new_size size e in
      let half : size ≤ new_size * 2 * 2 ^ n =
        omega (arith, ap (λ (t : ℕ). new_size * t) (pow-suc 2 n)) in
      let (r, run, a, b, c, d) =
        grow_total n (new_size * 2) size (omega arith) (omega arith) small half in
      let same : new_size * 2 % 2 ^ 64 ≡ new_size * 2 = omega arith in
      (r, rw (e, same) run, a, b, omega arith, inr (ground arith))
]

grow_zero : (fuel size : ℕ) → 0 < size → grow fuel 0 size ≡ none
unfolding grow
grow_zero zero size h = refl
grow_zero (suc fuel) size h = rw (lt→ltb 0 size h) (grow_zero fuel size h)

-- A request above 2 ^ 63 is never met from a power of two: the size wraps round to 0 and stays
-- there, however many rounds are made.
pub grow_stuck : (fuel k n size : ℕ) → 2 ^ 63 < size → n + k ≡ 63 → grow fuel (2 ^ n) size ≡ none
unfolding grow
grow_stuck zero k n size big h = refl
grow_stuck (suc fuel) zero n size big h =
    let e : n ≡ 63 = omega arith in
    rw (e, lt→ltb (2 ^ 63) size big) (grow_zero fuel size (omega arith))
grow_stuck (suc fuel) (suc k) n size big h =
    let low : 2 ^ suc n ≤ 2 ^ 63 =
      pow-le-pow_right {n = 2} (omega arith) {i = suc n} {j = 63} (omega arith) in
    let next : 2 ^ n * 2 % 2 ^ 64 ≡ 2 ^ suc n = omega (arith, low, pow-suc 2 n) in
    rw (lt→ltb (2 ^ n) size (omega (arith, low, pow-suc 2 n)), next)
      (grow_stuck fuel k (suc n) size big (omega arith))
