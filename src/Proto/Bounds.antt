-- ===== src/Proto/Bounds.antt =====
-- Where the readers leave the cursor, and which memory they touch.
use notbit.Common.{
  ℕ, zero, suc, ◌+◌, ◌-◌, ◌≤◌, ◌≡◌, refl, sym, ◌∙◌, ap, arith, Bytes, List, [], ◌∷◌, ◌==◌, drop, ok,
  Bool-cases, >>=-eq-ok, inl, inr, Outcome,
}
use notbit.Proto.Types.{Argument, ValueOf, Values, VarStr, VarIntList}
use notbit.Proto.Read.{
  Cursor, advance, get_field, get_prefixed, get_8, get_16, get_32, get_64, get_var_int,
  get_timestamp, get_bool, get_netaddress, get_var_str, get_var_int_list, skip_var_ints,
  get_argument, get_command,
}

drop-nil : (n : ℕ) → drop {A = ℕ} n [] ≡ []
drop-nil zero = refl
drop-nil (suc n) = refl

drop-drop : (m n k : ℕ) (xs : Bytes) → n + m ≡ k → drop m (drop n xs) ≡ drop k xs
drop-drop m zero k xs e = ap (λ t. drop t xs) (omega arith)
drop-drop m (suc n) k [] e = drop-nil m ∙ sym (drop-nil k)
drop-drop m (suc n) zero (x ∷ xs) e = absurd (omega arith)
drop-drop m (suc n) (suc k) (x ∷ xs) e = drop-drop m n k xs (omega arith)

-- `d` is `c` with some bytes of the message consumed, and none beyond it.
pub record Moves (c d : Cursor) : Type 0 where
  pub shorter : d.len ≤ c.len
  pub points : d.mem ≡ drop (c.len - d.len) c.mem

pub Moves-refl : (c : Cursor) → Moves c c
Moves-refl c = record {
  shorter = omega arith;
  points = ap (λ t. drop t c.mem) (let e : 0 ≡ c.len - c.len = omega arith in e);
}

pub Moves-trans : {c d e : Cursor} → Moves c d → Moves d e → Moves c e
Moves-trans {c} {d} {e} p q = record {
  shorter = omega arith;
  points =
      q.points
      ∙ ap (drop (d.len - e.len)) p.points
      ∙ drop-drop (d.len - e.len) (c.len - d.len) (c.len - e.len) c.mem (omega arith);
}

pub advance-Moves : (n : ℕ) (c : Cursor) → n ≤ c.len → Moves c (advance n c)
advance-Moves n c h = record {
  shorter = omega arith;
  points = ap (λ t. drop t c.mem) (let e : n ≡ c.len - (c.len - n) = omega arith in e);
}

pub get_field-Moves :
    (n : ℕ) (get : Bytes → Outcome ℕ) (c d : Cursor) (v : ℕ)
    → get_field n get c ≡ ok (v, d)
    → Moves c d
get_field-Moves n get c d v h = ground (arith, advance-Moves n c)

get_prefixed-Moves :
    (n : ℕ) (get : Bytes → Outcome ℕ) (c d : Cursor) (v : ℕ)
    → get_prefixed n get c ≡ ok (v, d)
    → Moves c d
get_prefixed-Moves n get c d v h = ground (arith, advance-Moves (n + 1) c)

pub get_var_int-Moves : (c d : Cursor) (v : ℕ) → get_var_int c ≡ ok (v, d) → Moves c d
unfolding get_var_int
get_var_int-Moves c d v h = ground (
  arith,
  get_field-Moves 1 get_8 c d v,
  get_prefixed-Moves 2 get_16 c d v,
  get_prefixed-Moves 4 get_32 c d v,
  get_prefixed-Moves 8 get_64 c d v,
)

get_timestamp-Moves : (c d : Cursor) (v : ℕ) → get_timestamp c ≡ ok (v, d) → Moves c d
unfolding get_timestamp
get_timestamp-Moves c d v h =
    let ((w, c'), e, h') = >>=-eq-ok (get_field 4 get_32 c) _ h in
    let first = get_field-Moves 4 get_32 c c' w e in
    elim (Bool-cases (w == 0)) [
      | inl z ↦ Moves-trans first (get_field-Moves 4 get_32 c' d v (rw z at h'))
      | inr z ↦ ground (arith, first)
    ]

get_var_str-Moves : (c d : Cursor) (v : VarStr) → get_var_str c ≡ ok (v, d) → Moves c d
unfolding get_var_str
get_var_str-Moves c d v h =
    let ((n, c'), e, h') = >>=-eq-ok (get_var_int c) _ h in
    Moves-trans (get_var_int-Moves c c' n e) (ground (arith, advance-Moves n c'))

pub skip_var_ints-Moves : (n : ℕ) (c d : Cursor) → skip_var_ints n c ≡ ok d → Moves c d
unfolding skip_var_ints
skip_var_ints-Moves zero c d h = ground (arith, Moves-refl c)
skip_var_ints-Moves (suc n) c d h =
    let ((v, c'), e, h') = >>=-eq-ok (get_var_int c) _ h in
    Moves-trans (get_var_int-Moves c c' v e) (skip_var_ints-Moves n c' d h')

get_var_int_list-Moves :
    (c d : Cursor) (v : VarIntList) → get_var_int_list c ≡ ok (v, d) → Moves c d
unfolding get_var_int_list
get_var_int_list-Moves c d v h =
    let ((n, c'), e, h') = >>=-eq-ok (get_var_int c) _ h in
    let (end, e', h'') = >>=-eq-ok (skip_var_ints n c') _ h' in
    let same : end ≡ d = ground arith in
    rw (← same) (Moves-trans (get_var_int-Moves c c' n e) (skip_var_ints-Moves n c' end e'))

pub get_argument-Moves :
    (a : Argument) (c d : Cursor) (v : ValueOf a) → get_argument a c ≡ ok (v, d) → Moves c d
unfolding get_argument
get_argument-Moves Argument.uint8 c d v h = get_field-Moves 1 get_8 c d v h
get_argument-Moves Argument.uint16 c d v h = get_field-Moves 2 get_16 c d v h
get_argument-Moves Argument.uint32 c d v h = get_field-Moves 4 get_32 c d v h
get_argument-Moves Argument.uint64 c d v h = get_field-Moves 8 get_64 c d v h
get_argument-Moves Argument.boolean c d v h = unfold get_bool in ground (arith, advance-Moves 1 c)
get_argument-Moves Argument.var_int c d v h = get_var_int-Moves c d v h
get_argument-Moves Argument.timestamp c d v h = get_timestamp-Moves c d v h
get_argument-Moves Argument.netaddress c d v h =
    unfold get_netaddress in ground (arith, advance-Moves 18 c)
get_argument-Moves Argument.var_str c d v h = get_var_str-Moves c d v h
get_argument-Moves Argument.var_int_list c d v h = get_var_int_list-Moves c d v h

-- Whatever the arguments, a successful ntb_proto_get_command consumes a part of the message and
-- nothing beyond it: the cursor moves by as much as the length falls.
pub get_command-Moves :
    (args : List Argument) (c d : Cursor) (vs : Values args)
    → get_command args c ≡ ok (vs, d)
    → Moves c d
unfolding get_command
get_command-Moves [] c d vs h = ground (arith, Moves-refl c)
get_command-Moves (a ∷ args) c d vs h =
    let ((v, c'), e, h') = >>=-eq-ok (get_argument a c) _ h in
    let ((ws, end), e', h'') = >>=-eq-ok (get_command args c') _ h' in
    let same : end ≡ d = cc in
    rw (← same) (Moves-trans (get_argument-Moves a c c' v e) (get_command-Moves args c' end ws e'))
