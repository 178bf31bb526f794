-- ===== src/Pow/Search.antt =====
-- The nonce that find_nonce of src/ntb-pow.c finds.
use notbit.Common.{
  ℕ, zero, suc, ◌+◌, ◌%◌, ◌^◌, ◌<◌, ◌≡◌, Ensures, ok-Ensures, >>=-Ensures, refl, ◌∙◌, arith, Bytes,
  List, [], ◌∷◌, ◌++◌, Bool, true, false, leb, length, length-append, take_front, le→ltb,
  drop_front, ok,
}
use notbit.Proto.Write.{be_bytes}
use notbit.Proto.Frame.{length-be_bytes}
use notbit.Pow.{
  Progress, pow_value, try_nonces, find_nonce, cookie_hash, cookie_target, check, nonces_per_check,
}

module _ (sha512 : Bytes → Bytes) (n_threads target : ℕ) (hash : Bytes) where
  -- A nonce of 64 bits whose value is at most the target.
  abbrev pub Solves : ℕ → Type 0
  Solves nonce =
      (nonce < 2 ^ 64)
      × (value : ℕ) × (pow_value sha512 nonce hash ≡ ok value)
      × (leb value target ≡ true)

  abbrev Sound : Progress → Type 0
  Sound (Progress.solved nonce) = Solves nonce
  Sound Progress.stopped = Unit
  Sound (Progress.searching nonce) = nonce < 2 ^ 64

  try_nonces-Sound :
      (i nonce : ℕ)
      → nonce < 2 ^ 64
      → Ensures Sound (try_nonces sha512 n_threads target hash i nonce)
  unfolding try_nonces
  try_nonces-Sound zero nonce h = ok-Ensures Sound _ h
  try_nonces-Sound (suc i) nonce h = >>=-Ensures Sound (pow_value sha512 nonce hash) _ λ value e.
      tested value e (leb value target) refl
        (try_nonces-Sound i ((nonce + n_threads) % 2 ^ 64) (omega arith))
    where
      tested :
          (value : ℕ)
          → pow_value sha512 nonce hash ≡ ok value
          → (b : Bool) → leb value target ≡ b
          → Ensures Sound (try_nonces sha512 n_threads target hash i ((nonce + n_threads) % 2 ^ 64))
          → Ensures Sound (elim b [
            | true ↦ ok (Progress.solved nonce)
            | false ↦ try_nonces sha512 n_threads target hash i ((nonce + n_threads) % 2 ^ 64)
          ])
      tested value e true f rest = ok-Ensures Sound _ (h, value, e, f)
      tested value e false f rest = rest

  find_nonce-Sound :
      (checks : List Bool) (nonce : ℕ)
      → nonce < 2 ^ 64
      → Ensures Sound (find_nonce sha512 n_threads target hash checks nonce)
  unfolding find_nonce
  find_nonce-Sound [] nonce h = ok-Ensures Sound _ h
  find_nonce-Sound (true ∷ checks) nonce h = ok-Ensures Sound _ tt
  find_nonce-Sound (false ∷ checks) nonce h =
      >>=-Ensures Sound (try_nonces sha512 n_threads target hash nonces_per_check nonce) _ λ p e.
        ended p (try_nonces-Sound nonces_per_check nonce h p e) λ n k. find_nonce-Sound checks n k
    where
      ended :
          (p : Progress)
          → Sound p
          → ((n : ℕ)
              → n < 2 ^ 64
              → Ensures Sound (find_nonce sha512 n_threads target hash checks n))
          → Ensures Sound (elim p [
            | Progress.solved n ↦ ok (Progress.solved n)
            | Progress.stopped ↦ ok Progress.stopped
            | Progress.searching n ↦ find_nonce sha512 n_threads target hash checks n
          ])
      ended (Progress.solved n) s rest = ok-Ensures Sound _ s
      ended Progress.stopped s rest = ok-Ensures Sound _ tt
      ended (Progress.searching n) s rest = rest n s

-- The nonce that a thread finds for a payload, put in front of it in 8 bytes, passes ntb_pow_check with
-- the same difficulty. The thread begins with a nonce of 64 bits.
pub check-find_nonce :
    (sha512 : Bytes → Bytes) (n_threads extra trials : ℕ) (payload : Bytes) (checks : List Bool)
    (offset nonce : ℕ)
    → offset < 2 ^ 64
    → find_nonce sha512 n_threads
        (cookie_target sha512 payload extra trials)
        (cookie_hash sha512 payload)
        checks
        offset
      ≡ ok (Progress.solved nonce)
    → check sha512 (be_bytes 8 nonce ++ payload) extra trials ≡ ok true
unfolding check cookie_target cookie_hash pow_value
check-find_nonce sha512 n_threads extra trials payload checks offset nonce h e =
    let target = cookie_target sha512 payload extra trials in
    let (_, value, found, low) =
      find_nonce-Sound sha512 n_threads target (sha512 payload) checks offset h
        (Progress.solved nonce) e in
    let front = be_bytes 8 nonce in
    let eight = length-be_bytes 8 nonce in
    let size : length (front ++ payload) ≡ length payload + 8 =
      length-append front payload ∙ omega arith in
    rw
      (
        size,
        take_front 8 front payload eight,
        drop_front 8 front payload eight,
        le→ltb (length payload + 8) 8 (omega arith),
        found,
        low,
      )
      refl
