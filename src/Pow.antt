-- ===== src/Pow.antt =====
-- src/ntb-pow.c: the proof of work. A hash is its bytes; SHA512 is a parameter.
pub mod Sharing
pub mod Search
pub mod Complete
mod Tests
use notbit.Common.{
  ℕ, zero, suc, ◌+◌, ◌-◌, ◌*◌, ◌/◌, ◌%◌, ◌^◌, Bytes, List, [], ◌∷◌, ◌++◌, Bool, true, false, ◌||◌,
  ◌==◌, ltb, leb, take, drop, length, if◌then◌else◌, Option, none, some, Outcome, ok, fault, ◌>>=◌,
}
use notbit.Proto.Read.{get_64}
use notbit.Proto.Write.{be_bytes}

-- The product is one of 64 bits, and so are the quotient's double and the remainder's. The two int arguments
-- are not negative. For a product of 0 modulo 2 ^ 64 the source divides by zero; the quotient is 0 here.
unfoldable pub calculate_target : (length payload_extra_bytes average_trials_per_byte : ℕ) → ℕ
calculate_target length payload_extra_bytes average_trials_per_byte =
    let divisor = (length + payload_extra_bytes) * average_trials_per_byte % 2 ^ 64 in
    let target = 2 ^ 63 / divisor * 2 % 2 ^ 64 in
    if leb divisor (2 ^ 63 % divisor * 2 % 2 ^ 64) then (target + 1) % 2 ^ 64 else target

-- NTB_POW_NONCES_PER_CHECK
abbrev pub nonces_per_check : ℕ
nonces_per_check = 4096

-- How the search of a thread stands: it has found a nonce, was told to stop, or goes on with a nonce.
pub data Progress : Type 0 where
  solved : ℕ → Progress
  stopped : Progress
  searching : ℕ → Progress

module _ (sha512 : Bytes → Bytes) where
  -- The value of a nonce for the hash of a payload.
  unfoldable pub pow_value : ℕ → Bytes → Outcome ℕ
  pow_value nonce hash = get_64 (sha512 (sha512 (be_bytes 8 nonce ++ hash)))

  -- The inner loop of find_nonce.
  unfoldable pub try_nonces : (n_threads target : ℕ) → Bytes → ℕ → ℕ → Outcome Progress
  try_nonces n_threads target hash zero nonce = ok (Progress.searching nonce)
  try_nonces n_threads target hash (suc i) nonce = pow_value nonce hash >>= λ value.
      elim (leb value target) [
        | true ↦ ok (Progress.solved nonce)
        | false ↦ try_nonces n_threads target hash i ((nonce + n_threads) % 2 ^ 64)
      ]

  -- find_nonce; the list tells what the thread finds each time it has taken the lock: whether the
  -- search is done, or all threads are to quit.
  unfoldable pub find_nonce : (n_threads target : ℕ) → Bytes → List Bool → ℕ → Outcome Progress
  find_nonce n_threads target hash [] nonce = ok (Progress.searching nonce)
  find_nonce n_threads target hash (true ∷ checks) nonce = ok Progress.stopped
  find_nonce n_threads target hash (false ∷ checks) nonce =
      try_nonces n_threads target hash nonces_per_check nonce >>= λ p. elim p [
        | Progress.solved n ↦ ok (Progress.solved n)
        | Progress.stopped ↦ ok Progress.stopped
        | Progress.searching n ↦ find_nonce n_threads target hash checks n
      ]

  -- What ntb_pow_calculate writes to a cookie: the hash of the payload and the target.
  unfoldable pub cookie_hash : Bytes → Bytes
  cookie_hash payload = sha512 payload

  unfoldable pub cookie_target : Bytes → (payload_extra_bytes average_trials_per_byte : ℕ) → ℕ
  cookie_target payload payload_extra_bytes average_trials_per_byte =
      calculate_target (length payload + 8) payload_extra_bytes average_trials_per_byte

  -- ntb_pow_check; its assertion that there are 8 bytes may fail.
  unfoldable pub check : Bytes → (payload_extra_bytes average_trials_per_byte : ℕ) → Outcome Bool
  check payload payload_extra_bytes average_trials_per_byte =
      let initial_hash = take 8 payload ++ sha512 (drop 8 payload) in
      let target = calculate_target (length payload) payload_extra_bytes average_trials_per_byte in
      if ltb (length payload) 8
      then fault
      else (get_64 (sha512 (sha512 initial_hash)) >>= λ value. ok (leb value target))
