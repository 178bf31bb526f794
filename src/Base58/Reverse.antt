-- ===== src/Base58/Reverse.antt =====
-- reverse_bytes reverses its array in place.
use notbit.Common.{
  ℕ, zero, suc, ◌+◌, ◌-◌, ◌/◌, ◌≡◌, refl, sym, ◌∙◌, ap, arith, Bytes, [], ◌∷◌, ◌++◌, length,
  length-append, append_assoc, append-nil, get_or, set,
}
use mathlib.Core.Path.{ap₂, subst}
use mathlib.Core.List.{reverse, reverse-cons, reverse-append}
use notbit.Base58.{reverse_loop, reverse_bytes, swap_at}

pub get_or_middle : (xs ys : Bytes) (y i : ℕ) → length xs ≡ i → get_or (xs ++ (y ∷ ys)) i 0 ≡ y
get_or_middle [] ys y zero e = refl
get_or_middle [] ys y (suc i) e = absurd (omega arith)
get_or_middle (x ∷ xs) ys y zero e = absurd (omega arith)
get_or_middle (x ∷ xs) ys y (suc i) e = get_or_middle xs ys y i (omega arith)

pub set_middle :
    (xs ys : Bytes) (y i v : ℕ) → length xs ≡ i → set (xs ++ (y ∷ ys)) i v ≡ xs ++ (v ∷ ys)
set_middle [] ys y zero v e = refl
set_middle [] ys y (suc i) v e = absurd (omega arith)
set_middle (x ∷ xs) ys y zero v e = absurd (omega arith)
set_middle (x ∷ xs) ys y (suc i) v e = ap (λ t. x ∷ t) (set_middle xs ys y i v (omega arith))

-- Two bytes at the same distance from the ends change places.
swap_at_lem :
    (front mid back : Bytes) (x y : ℕ)
    → length front ≡ length back
    → swap_at (length front) (front ++ (x ∷ (mid ++ (y ∷ back))))
      ≡ front ++ (y ∷ (mid ++ (x ∷ back)))
swap_at_lem front mid back x y e =
    let i = length front in
    let j = length (front ++ (x ∷ mid)) in
    let whole = front ++ (x ∷ (mid ++ (y ∷ back))) in
    let split = append_assoc front (x ∷ mid) (y ∷ back) in
    let place : length whole - 1 - i ≡ j = simp length-append (omega arith) in
    let high : get_or whole j 0 ≡ y =
      rw (← split) (get_or_middle (front ++ (x ∷ mid)) back y j refl) in
    let low : get_or whole i 0 ≡ x = get_or_middle front _ x i refl in
    let first : set whole i y ≡ front ++ (y ∷ (mid ++ (y ∷ back))) =
      set_middle front _ x i y refl in
    let second : set (front ++ (y ∷ (mid ++ (y ∷ back)))) j x ≡ front ++ (y ∷ (mid ++ (x ∷ back))) =
      rw (← append_assoc front (y ∷ mid) (y ∷ back)) (
        set_middle (front ++ (y ∷ mid)) back y j x (rw (length-append, length-append) refl)
        ∙ append_assoc front (y ∷ mid) (x ∷ back)) in
    rw (place, high, low, first) second

snoc : (x : ℕ) (xs : Bytes) → (ys : Bytes) × (y : ℕ) × (x ∷ xs ≡ ys ++ (y ∷ []))
snoc x [] = ([], x, refl)
snoc x (z ∷ xs) = let (ys, y, e) = snoc z xs in (x ∷ ys, y, ap (λ t. x ∷ t) e)

reverse_snoc :
    (x y : ℕ) (mid : Bytes) → reverse (x ∷ (mid ++ (y ∷ []))) ≡ y ∷ (reverse mid ++ (x ∷ []))
reverse_snoc x y mid =
    reverse-cons x (mid ++ (y ∷ [])) ∙ ap (λ t. t ++ (x ∷ [])) (reverse-append mid (y ∷ []))

-- What lies between the `i` bytes at either end is reversed by half as many rounds.
reverse_loop_lem :
    (n : ℕ) (front mid back : Bytes)
    → length front ≡ length back
    → length mid / 2 ≡ n
    → reverse_loop n (length front) (front ++ (mid ++ back)) ≡ front ++ (reverse mid ++ back)
unfolding reverse_loop
reverse_loop_lem zero front [] back e h = refl
reverse_loop_lem zero front (x ∷ []) back e h = refl
reverse_loop_lem zero front (x ∷ (z ∷ mid)) back e h = absurd (omega arith)
reverse_loop_lem (suc n) front [] back e h = absurd (omega arith)
reverse_loop_lem (suc n) front (x ∷ []) back e h = absurd (omega arith)
reverse_loop_lem (suc n) front (x ∷ (z ∷ mid)) back e h =
    let (inner, y, same) = snoc z mid in
    let next = front ++ (y ∷ []) in
    let size : length (z ∷ mid) ≡ length inner + 1 =
      ap length same ∙ length-append inner (y ∷ []) in
    let index : length front + 1 ≡ length next = sym (length-append front (y ∷ [])) in
    let swapped = swap_at_lem front inner back x y e in
    let rest = reverse_loop_lem n next inner (x ∷ back) (omega arith) (omega arith) in
    let body : reverse_loop (suc n) (length front) (front ++ (x ∷ ((inner ++ (y ∷ [])) ++ back)))
        ≡ front ++ (reverse (x ∷ (inner ++ (y ∷ []))) ++ back) =
      ap (λ t. reverse_loop n (length front + 1) (swap_at (length front) (front ++ (x ∷ t))))
        (append_assoc inner (y ∷ []) back)
      ∙ ap (reverse_loop n (length front + 1)) swapped
      ∙ ap₂ (reverse_loop n) index (sym (append_assoc front (y ∷ []) (inner ++ (x ∷ back))))
      ∙ rest
      ∙ simp (reverse_snoc, append_assoc) in
    subst
      (λ t.
        reverse_loop (suc n) (length front) (front ++ (x ∷ (t ++ back)))
        ≡ front ++ (reverse (x ∷ t) ++ back))
      (sym same) body

-- reverse_bytes gives the array in the opposite order.
pub reverse_bytes-eq-reverse : (bytes : Bytes) → reverse_bytes bytes ≡ reverse bytes
unfolding reverse_bytes
reverse_bytes-eq-reverse bytes =
    ap (reverse_loop (length bytes / 2) 0) (sym (append-nil bytes))
    ∙ reverse_loop_lem (length bytes / 2) [] bytes [] refl refl
    ∙ append-nil (reverse bytes)
