-- ===== src/Connection/Queues.antt =====
-- The queues of objects of src/ntb-connection.c: what holds of them whatever happens.
use notbit.Common.{
  ℕ, zero, suc, ◌+◌, ◌≤◌, ◌≡◌, ◌≢◌, refl, sym, ◌∙◌, ap, arith, Bytes, List, [], ◌∷◌, ◌++◌, Bool,
  true, false, ◌||◌, Bool-cases, inl, inr, ltb, lt→ltb, length, length-append, take, drop, Option,
  none, some, ok,
}
use notbit.Proto.Types.{InvType, getpubkey, pubkey, msg, broadcast, get_command_name_for_type}
use notbit.Proto.Write.{be_bytes, write_at, begin_command, end_command}
use notbit.Connection.{Connection, Blob, update_poll_flags, connection_is_ready_to_write}
use notbit.Connection.Objects.{
  maybe_queue_load, load_cb, send_blob, add_ready_object, add_ready_loop,
}
use notbit.Connection.Ordered.{PollsToWrite, WellQueued, Gives}

snoc_ne_nil {ℓ} : {A : Type ℓ} (xs : List A) (x : A) → (xs ++ x ∷ []) ≢ []
snoc_ne_nil [] x e = cc
snoc_ne_nil (y ∷ xs) x e = cc

pub maybe_queue_load-WellQueued :
    (c : Connection)
    → (c.is_loading ≡ true → 1 ≤ length c.objects_to_load)
    → PollsToWrite c
    → WellQueued (maybe_queue_load c)
unfolding maybe_queue_load
maybe_queue_load-WellQueued c busy polls = record {
  idle = ground arith;
  busy = ground arith;
  polls = ground arith;
}

maybe_queue_load-ready : (c : Connection) → (maybe_queue_load c).ready_objects ≡ c.ready_objects
unfolding maybe_queue_load
maybe_queue_load-ready c = ground arith

pub send_blob-WellQueued :
    (hash : Bytes) (blob : Option Blob) (c : Connection)
    → WellQueued c
    → WellQueued (send_blob hash blob c)
unfolding send_blob update_poll_flags
send_blob-WellQueued hash (some blob) c w = record {
  idle = λ e f. absurd (snoc_ne_nil c.ready_objects blob f);
  busy = w.busy;
  polls = λ h. refl;
}
send_blob-WellQueued hash none c w =
    maybe_queue_load-WellQueued (record c { objects_to_load = c.objects_to_load ++ hash ∷ [] })
      (λ e. omega (arith, length-append c.objects_to_load (hash ∷ []))) w.polls

abbrev pub Loads : Blob → Connection → Type 0
Loads blob c =
    (hash : Bytes) × (rest : List Bytes) × (d : Connection) × (c.objects_to_load ≡ hash ∷ rest)
    × (load_cb (some blob) c ≡ ok d)
    × (d.objects_to_load ≡ rest)
    × (d.ready_objects ≡ c.ready_objects ++ blob ∷ [])
    × WellQueued d

pub load_cb-Loads :
    (blob : Blob) (c : Connection) → WellQueued c → c.is_loading ≡ true → Loads blob c
unfolding load_cb update_poll_flags
load_cb-Loads blob c w e = go c.objects_to_load refl
  where
    go : (waiting : List Bytes) → c.objects_to_load ≡ waiting → Loads blob c
    go [] f = absurd (omega (arith, w.busy e, ap length f))
    go (hash ∷ rest) f =
        let d : Connection = update_poll_flags (record c {
          objects_to_load = rest;
          ready_objects = c.ready_objects ++ blob ∷ [];
          is_loading = false;
        }) in
        (
          hash,
          rest,
          d,
          f,
          rw f refl,
          refl,
          refl,
          record {
            idle = λ _ g. absurd (snoc_ne_nil c.ready_objects blob g);
            busy = λ g. cc;
            polls = λ h. refl;
          },
        )

-- The name of a type of object fits into a command.
begins :
    (junk buf : Bytes) (type : InvType)
    → (begun : Bytes) × (begin_command junk buf (get_command_name_for_type type) ≡ ok begun)
unfolding begin_command get_command_name_for_type
begins junk buf getpubkey = (_, refl)
begins junk buf pubkey = (_, refl)
begins junk buf msg = (_, refl)
begins junk buf broadcast = (_, refl)

take_some : {A : Type 0} (n : ℕ) (xs : List A) → 1 ≤ n → 1 ≤ length xs → 1 ≤ length (take n xs)
take_some zero xs h k = absurd (omega arith)
take_some (suc n) [] h k = k
take_some (suc n) (x ∷ xs) h k = omega arith

write_some :
    (buf : Bytes) (n : ℕ) (bytes : Bytes)
    → 1 ≤ n
    → 1 ≤ length buf
    → 1 ≤ length (write_at buf n bytes)
write_some buf n bytes h k =
    omega (
      arith,
      length-append (take n buf) (bytes ++ drop (n + length bytes) buf),
      take_some n buf h k,
    )

write_bytes_some : (buf : Bytes) (n v : ℕ) → 1 ≤ length (write_at buf n (be_bytes 4 v))
unfolding be_bytes
write_bytes_some buf n v = rw (length-append) (omega arith)

or_true : (b : Bool) → (b || true) ≡ true
or_true true = refl
or_true false = refl

module _ (sha512 : Bytes → Bytes) (junk : Bytes) where
  end_command_some : (buf : Bytes) (start : ℕ) → 1 ≤ length (end_command sha512 buf start)
  unfolding end_command
  end_command_some buf start =
      write_some _ (start + 20) _ (omega arith) (write_bytes_some buf (start + 16) _)

  add_ready_object-Gives :
      (blob : Blob) (rest : List Blob) (c : Connection)
      → c.ready_objects ≡ blob ∷ rest
      → WellQueued c
      → (d : Connection) × (add_ready_object sha512 junk blob rest c ≡ ok d)
        × WellQueued d
        × (d.ready_objects ≡ rest)
  unfolding add_ready_object
  add_ready_object-Gives blob rest c e w =
      let (begun, good) = begins junk c.out_buf blob.type in
      let out = end_command sha512 (begun ++ blob.contents) (length c.out_buf) in
      let some_out = end_command_some (begun ++ blob.contents) (length c.out_buf) in
      let taken : Connection = record c { out_buf = out; ready_objects = rest } in
      let was : connection_is_ready_to_write c ≡ true = rw e (or_true (ltb 0 (length c.out_buf))) in
      let is : connection_is_ready_to_write taken ≡ true =
        rw (lt→ltb 0 (length out) some_out) refl in
      let polls : PollsToWrite taken = λ h. w.polls h ∙ was ∙ sym is in
      (
        maybe_queue_load taken,
        rw good refl,
        maybe_queue_load-WellQueued taken w.busy polls,
        maybe_queue_load-ready taken,
      )

  pub add_ready_loop-Gives :
      (ready : List Blob) (c : Connection)
      → c.ready_objects ≡ ready
      → WellQueued c
      → Gives WellQueued (add_ready_loop sha512 junk ready c)
  unfolding add_ready_loop
  add_ready_loop-Gives [] c e w = (c, refl, w)
  add_ready_loop-Gives (blob ∷ rest) c e w = elim (Bool-cases (ltb (length c.out_buf) 1024)) [
    | inl f ↦
        let (d, added, w', e') = add_ready_object-Gives blob rest c e w in
        let (end, done, w'') = add_ready_loop-Gives rest d e' w' in
        (end, rw (f, added, add_ready_loop) done, w'')
    | inr f ↦ (c, rw (f, add_ready_loop) refl, w)
  ]
