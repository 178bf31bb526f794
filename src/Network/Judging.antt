-- ===== src/Network/Judging.antt =====
-- should_reject of src/ntb-network.c: which objects are accepted.
use notbit.Common.{
  ℕ, ◌+◌, ◌*◌, ◌^◌, ◌<◌, ◌≡◌, refl, arith, Bytes, List, ◌++◌, Bool, true, false, not, leb,
  if◌then◌else◌, Outcome, ok, ◌>>=◌,
}
use notbit.Proto.Types.{InvType, get_max_age_for_type, min_extra_bytes, min_nonce_trials_per_byte}
use notbit.Proto.Write.{be_bytes}
use notbit.Pow.{Progress, find_nonce, cookie_hash, cookie_target, check}
use notbit.Pow.Search.{check-find_nonce}

-- NTB_NETWORK_INV_FUTURE_AGE
abbrev pub inv_future_age : ℕ
inv_future_age = 30 * 60

-- `timestamp` is that of the object; its age is the difference from `now`.
unfoldable pub should_reject :
    (Bytes → Bytes) → (now timestamp : ℕ) → InvType → Bytes → Outcome Bool
should_reject sha512 now timestamp type payload =
    if leb (now + inv_future_age) timestamp
    then ok true
    else if leb (timestamp + get_max_age_for_type type) now
    then ok true
    else check sha512 payload min_extra_bytes min_nonce_trials_per_byte >>= λ good. ok (not good)

above : (a b : ℕ) → b < a → leb a b ≡ false
above a b h = ground arith

-- An object whose nonce a thread found for the least difficulty, that is less than 30 minutes in the
-- future and younger than objects of its type get, is not rejected.
pub should_reject-find_nonce :
    (sha512 : Bytes → Bytes) (now timestamp n_threads offset nonce : ℕ) (type : InvType)
    (payload : Bytes) (checks : List Bool)
    → timestamp < now + inv_future_age
    → now < timestamp + get_max_age_for_type type
    → offset < 2 ^ 64
    → find_nonce sha512 n_threads
        (cookie_target sha512 payload min_extra_bytes min_nonce_trials_per_byte)
        (cookie_hash sha512 payload)
        checks
        offset
      ≡ ok (Progress.solved nonce)
    → should_reject sha512 now timestamp type (be_bytes 8 nonce ++ payload) ≡ ok false
unfolding should_reject
should_reject-find_nonce sha512 now timestamp n_threads offset nonce type payload checks h k l
      found =
    rw
      (
        above (now + inv_future_age) timestamp h,
        above (timestamp + get_max_age_for_type type) now k,
        check-find_nonce sha512 n_threads min_extra_bytes min_nonce_trials_per_byte payload checks
            offset nonce l found,
        should_reject,
      )
      refl
