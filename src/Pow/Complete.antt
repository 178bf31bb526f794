-- ===== src/Pow/Complete.antt =====
-- find_nonce of src/ntb-pow.c finds a nonce if there is one among those that it tries.
use notbit.Common.{
  ℕ, zero, suc, ◌+◌, ◌-◌, ◌*◌, ◌%◌, ◌^◌, ◌≤◌, ◌<◌, ◌≡◌, ◌≢◌, ◌⊎◌, inl, inr, refl, sym, ◌∙◌, ap,
  arith, Bytes, Bool, true, false, leb, ltb, ltb→lt, ltb→le, Bool-cases, replicate, Outcome, ok,
  ◌>>=◌,
}
use notbit.Pow.{Progress, pow_value, try_nonces, find_nonce, nonces_per_check}

-- The nonces that a thread tries, one after the other.
abbrev pub candidate : (n_threads nonce : ℕ) → ℕ → ℕ
candidate n_threads nonce zero = nonce
candidate n_threads nonce (suc j) = candidate n_threads ((nonce + n_threads) % 2 ^ 64) j

true_ne_false : true ≢ false
true_ne_false e = cc

-- A place where a test holds is not among the first ones, where it does not.
beyond : (test : ℕ → Bool) (j m : ℕ) → ((i : ℕ) → i < m → test i ≡ false) → test j ≡ true → m ≤ j
beyond test j m none_of holds = elim (Bool-cases (ltb j m)) [
  | inl e ↦ absurd (true_ne_false (sym holds ∙ none_of j (ltb→lt j m e)))
  | inr e ↦ ltb→le j m e
]

-- The search has found a nonce.
abbrev pub IsSolved : Outcome Progress → Type 0
IsSolved r = (nonce : ℕ) × (r ≡ ok (Progress.solved nonce))

module _ (sha512 : Bytes → Bytes) (n_threads target : ℕ) (hash : Bytes) (value : ℕ → ℕ)
    (valued : (nonce : ℕ) → pow_value sha512 nonce hash ≡ ok (value nonce)) where
  -- A round of the inner loop finds a nonce, or none of those that it tried is one.
  abbrev Tried : ℕ → ℕ → Type 0
  Tried i nonce =
      IsSolved (try_nonces sha512 n_threads target hash i nonce)
      ⊎ ((try_nonces sha512 n_threads target hash i nonce
            ≡ ok (Progress.searching (candidate n_threads nonce i)))
          × ((j : ℕ) → j < i → leb (value (candidate n_threads nonce j)) target ≡ false))

  try_nonces-Tried : (i nonce : ℕ) → Tried i nonce
  unfolding try_nonces
  try_nonces-Tried zero nonce = inr (refl, λ j h. absurd (omega arith))
  try_nonces-Tried (suc i) nonce = elim (Bool-cases (leb (value nonce) target)) [
    | inl e ↦ inl (nonce, rw (valued nonce, ◌>>=◌, e, try_nonces) refl)
    | inr e ↦ elim (try_nonces-Tried i ((nonce + n_threads) % 2 ^ 64)) [
      | inl (n, f) ↦ inl (n, rw (valued nonce, ◌>>=◌, e, try_nonces) f)
      | inr (f, none_of) ↦ inr (rw (valued nonce, ◌>>=◌, e, try_nonces) f, past e none_of)
    ]
  ]
    where
      past :
          leb (value nonce) target ≡ false
          → ((j : ℕ)
              → j < i
              → leb (value (candidate n_threads ((nonce + n_threads) % 2 ^ 64) j)) target ≡ false)
          → (j : ℕ) → j < suc i
          → leb (value (candidate n_threads nonce j)) target ≡ false
      past e none_of zero h = e
      past e none_of (suc j) h = none_of j (omega arith)

  candidate_add :
      (i j nonce k : ℕ)
      → k ≡ i + j
      → candidate n_threads nonce k ≡ candidate n_threads (candidate n_threads nonce i) j
  candidate_add zero j nonce k e =
      (let same : k ≡ j = omega arith in ap (candidate n_threads nonce) same)
  candidate_add (suc i) j nonce zero e = absurd (omega arith)
  candidate_add (suc i) j nonce (suc k) e =
      candidate_add i j ((nonce + n_threads) % 2 ^ 64) k (omega arith)

  -- If every nonce has a value, and one of the first nonces that a thread tries, 4096 for each time it
  -- has found that the search is to go on, has a value of at most the target, the thread finds a nonce.
  pub find_nonce-IsSolved :
      (k j nonce : ℕ)
      → j < nonces_per_check * k
      → leb (value (candidate n_threads nonce j)) target ≡ true
      → IsSolved (find_nonce sha512 n_threads target hash (replicate k false) nonce)
  unfolding find_nonce
  find_nonce-IsSolved zero j nonce h good = absurd (omega arith)
  find_nonce-IsSolved (suc k) j nonce h good = elim (try_nonces-Tried nonces_per_check nonce) [
    | inl (n, f) ↦ (n, rw (f, ◌>>=◌, find_nonce) refl)
    | inr (f, none_of) ↦
        let later : nonces_per_check ≤ j =
          beyond (λ i. leb (value (candidate n_threads nonce i)) target) j nonces_per_check none_of
            good in
        let rest = candidate_add nonces_per_check (j - nonces_per_check) nonce j (omega arith) in
        let (n, g) =
          find_nonce-IsSolved k (j - nonces_per_check) (candidate n_threads nonce nonces_per_check)
            (omega arith) (rw rest at good) in
        (n, rw (f, ◌>>=◌, find_nonce) g)
  ]
