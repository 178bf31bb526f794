-- ===== src/Pow/Tests.antt =====
-- The theorems on src/ntb-pow.c at concrete values.
use notbit.Common.{◌≡◌, ◌↔◌, refl, arith, Bytes, [], ◌∷◌, ◌++◌, true, false, replicate, ok}
use notbit.Proto.Read.{get_64, read_be}
use notbit.Proto.Write.{be_bytes}
use notbit.Pow.{
  calculate_target, pow_value, try_nonces, find_nonce, cookie_hash, cookie_target, check,
}
use notbit.Pow.Search.{check-find_nonce}
use notbit.Pow.Complete.{IsSolved, find_nonce-IsSolved}
use notbit.Pow.Sharing.{Cookie, new_cookie, Step, Reach, take_cookie, IsUnused, Reach-freed_iff}

-- Stands for SHA512.
abbrev some_hash : Bytes → Bytes
some_hash bytes = replicate 64 0

abbrev payload : Bytes
payload = 1 ∷ (2 ∷ [])

check-find_nonce_example : check some_hash (be_bytes 8 3 ++ payload) 14000 320 ≡ ok true
unfolding find_nonce try_nonces pow_value get_64 read_be cookie_target cookie_hash calculate_target
check-find_nonce_example =
    check-find_nonce some_hash 4 14000 320 payload (false ∷ []) 3 3 (omega arith) refl

abbrev taken : Cookie
taken = take_cookie 4 (new_cookie 0)

Reach-freed_iff_example : (taken.freed ≡ true) ↔ IsUnused taken
Reach-freed_iff_example =
    Reach-freed_iff 4 0 taken (omega arith) (Reach.next Reach.here (Step.takes (new_cookie 0) refl))

find_nonce-IsSolved_example : IsSolved (find_nonce some_hash 4 9 [] (false ∷ []) 3)
unfolding pow_value get_64 read_be
find_nonce-IsSolved_example =
    find_nonce-IsSolved some_hash 4 9 [] (λ nonce. 0) (λ nonce. refl) 1 5 3 (omega arith) refl
