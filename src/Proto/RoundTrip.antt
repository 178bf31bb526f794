-- ===== src/Proto/RoundTrip.antt =====
-- What ntb_proto_add_command writes for its arguments, ntb_proto_get_command reads back.
use notbit.Common.{
  ℕ, ◌+◌, ◌%◌, ◌^◌, ◌<◌, ◌≡◌, refl, sym, ◌∙◌, ap, arith, Bytes, List, [], ◌∷◌, ◌++◌, length, take,
  ok, append_assoc, length-append, append-nil, map, ◌>>=◌, length-take, All, take_front, drop_front,
  take-length,
}
use notbit.Proto.Types.{Argument, ValueOf, Values, NetAddress}
use notbit.Proto.Read.{
  Cursor, get_8, get_32, get_var_int, get_timestamp, get_bool, get_netaddress, get_var_str,
  get_argument, get_command,
}
use notbit.Proto.Write.{
  be_bytes, add_16, add_64, add_var_int, add_timestamp, add_netaddress, add_var_str, Item, add_item,
  add_items,
}
use notbit.Proto.Integers.{
  get_16-be_bytes, get_32-be_bytes, get_64-be_bytes, get_var_int-add_var_int,
}

-- The argument code that stands before an item, and the value that is read for it.
abbrev pub argument_of : Item → Argument
argument_of (Item.uint8 v) = Argument.uint8
argument_of (Item.uint16 v) = Argument.uint16
argument_of (Item.uint32 v) = Argument.uint32
argument_of (Item.uint64 v) = Argument.uint64
argument_of (Item.var_int v) = Argument.var_int
argument_of (Item.boolean v) = Argument.boolean
argument_of Item.timestamp = Argument.timestamp
argument_of (Item.netaddress v) = Argument.netaddress
argument_of (Item.var_str v) = Argument.var_str

abbrev pub value_of : ℕ → (item : Item) → ValueOf (argument_of item)
value_of now (Item.uint8 v) = v
value_of now (Item.uint16 v) = v
value_of now (Item.uint32 v) = v
value_of now (Item.uint64 v) = v
value_of now (Item.var_int v) = v
value_of now (Item.boolean v) = v
value_of now Item.timestamp = now
value_of now (Item.netaddress v) = v
value_of now (Item.var_str v) = record { size = length v; bytes = v }

-- The items that are written without loss: each number in the range of its type, a time before
-- 2 ^ 32, a host of 16 bytes, and a string of at most 252 bytes.
abbrev pub Fits : ℕ → Item → Type 0
Fits now (Item.uint8 v) = v < 2 ^ 8
Fits now (Item.uint16 v) = v < 2 ^ 16
Fits now (Item.uint32 v) = v < 2 ^ 32
Fits now (Item.uint64 v) = v < 2 ^ 64
Fits now (Item.var_int v) = v < 2 ^ 64
Fits now (Item.boolean v) = Unit
Fits now Item.timestamp = now < 2 ^ 32
Fits now (Item.netaddress v) = (length v.host ≡ 16) × (v.port < 2 ^ 16)
Fits now (Item.var_str v) = length v < 253

-- A cursor at `bytes`, with `rest` behind it in memory, of which `n` bytes belong to the message.
abbrev pub cursor : Bytes → Bytes → ℕ → Cursor
cursor bytes rest n = record { mem = bytes ++ rest; len = length bytes + n }

abbrev pub at_rest : Bytes → ℕ → Cursor
at_rest rest n = record { mem = rest; len = n }

get_timestamp-add_timestamp :
    (now n : ℕ) (rest : Bytes)
    → now < 2 ^ 32
    → get_timestamp (cursor (add_timestamp now []) rest n) ≡ ok (now, at_rest rest n)
unfolding get_timestamp add_timestamp add_64 get_32
get_timestamp-add_timestamp now n rest h = ground arith

get_netaddress-add_netaddress :
    (a : NetAddress) (n : ℕ) (rest : Bytes)
    → length a.host ≡ 16
    → a.port < 2 ^ 16
    → get_netaddress (cursor (add_netaddress [] a) rest n) ≡ ok (a, at_rest rest n)
unfolding get_netaddress add_netaddress add_16
get_netaddress-add_netaddress a n rest e h =
    let p = be_bytes 2 a.port in
    let split = append_assoc a.host p rest in
    let size : length (a.host ++ p) ≡ 18 =
      length-append a.host p ∙ unfold be_bytes in omega arith in
    ground (
      arith,
      size,
      split,
      take_front 16 a.host (p ++ rest) e,
      drop_front 16 a.host (p ++ rest) e,
      drop_front 18 (a.host ++ p) rest size,
      get_16-be_bytes a.port rest h,
    )

-- A string is cut to its length modulo 256, and is read back if that is below 253.
pub get_var_str-add_var_str :
    (s : Bytes) (n : ℕ) (rest : Bytes)
    → length s % 256 < 253
    → length (add_var_str [] s) + n < 2 ^ 31
    → get_var_str (cursor (add_var_str [] s) rest n)
      ≡ ok (record { size = length s % 256; bytes = take (length s % 256) s }, at_rest rest n)
unfolding get_var_str add_var_str get_var_int get_8
get_var_str-add_var_str s n rest h k =
    let m = length s % 256 in
    let size : length (take m s) ≡ m = length-take m s (omega arith) in
    ground (arith, size, take_front m (take m s) rest size, drop_front m (take m s) rest size)

add_var_int-append : (v : ℕ) (buf : Bytes) → add_var_int buf v ≡ buf ++ add_var_int [] v
unfolding add_var_int
add_var_int-append v buf = ground (
  arith,
  append_assoc buf (0xfd ∷ []) (be_bytes 2 v),
  append_assoc buf (0xfe ∷ []) (be_bytes 4 v),
  append_assoc buf (0xff ∷ []) (be_bytes 8 v),
)

module _ (now : ℕ) where
  add_item-append :
      (item : Item) (buf : Bytes) → add_item now buf item ≡ buf ++ add_item now [] item
  unfolding add_item
  add_item-append (Item.uint8 v) buf = refl
  add_item-append (Item.uint16 v) buf = refl
  add_item-append (Item.uint32 v) buf = refl
  add_item-append (Item.uint64 v) buf = refl
  add_item-append (Item.var_int v) buf = add_var_int-append v buf
  add_item-append (Item.boolean v) buf = refl
  add_item-append Item.timestamp buf = refl
  add_item-append (Item.netaddress v) buf = append_assoc buf v.host (be_bytes 2 v.port)
  add_item-append (Item.var_str v) buf = append_assoc buf _ (take (length v % 256) v)

  pub add_items-append :
      (items : List Item) (buf : Bytes) → add_items now buf items ≡ buf ++ add_items now [] items
  unfolding add_items
  add_items-append [] buf = sym (append-nil buf)
  add_items-append (item ∷ items) buf =
      add_items-append items (add_item now buf item)
      ∙ ap (λ t. t ++ add_items now [] items) (add_item-append item buf)
      ∙ append_assoc buf (add_item now [] item) (add_items now [] items)
      ∙ ap (λ t. buf ++ t) (sym (add_items-append items (add_item now [] item)))

  pub get_argument-add_item :
      (item : Item) (n : ℕ) (rest : Bytes)
      → Fits now item
      → length (add_item now [] item) + n < 2 ^ 31
      → get_argument (argument_of item) (cursor (add_item now [] item) rest n)
        ≡ ok (value_of now item, at_rest rest n)
  unfolding get_argument add_item
  get_argument-add_item (Item.uint8 v) n rest h k = unfold get_8 in ground arith
  get_argument-add_item (Item.uint16 v) n rest h k = ground (arith, get_16-be_bytes v rest h)
  get_argument-add_item (Item.uint32 v) n rest h k = ground (arith, get_32-be_bytes v rest h)
  get_argument-add_item (Item.uint64 v) n rest h k = ground (arith, get_64-be_bytes v rest h)
  get_argument-add_item (Item.var_int v) n rest h k = get_var_int-add_var_int v n rest h k
  get_argument-add_item (Item.boolean v) n rest h k = unfold get_8 get_bool in ground arith
  get_argument-add_item Item.timestamp n rest h k = get_timestamp-add_timestamp now n rest h
  get_argument-add_item (Item.netaddress v) n rest h k =
      get_netaddress-add_netaddress v n rest h.0 h.1
  get_argument-add_item (Item.var_str v) n rest h k =
      get_var_str-add_var_str v n rest (omega arith) k ∙ ground (arith, take-length v)

  abbrev pub values_of : (items : List Item) → Values (map argument_of items)
  values_of [] = tt
  values_of (item ∷ items) = (value_of now item, values_of items)

  -- Reading with the argument codes of the items that were written gives the values written and
  -- uses up exactly the bytes written, whatever follows them. The items are in range, and the
  -- message is shorter than 2 ^ 31.
  pub get_command-add_items :
      (items : List Item) (n : ℕ) (rest : Bytes)
      → All (Fits now) items
      → length (add_items now [] items) + n < 2 ^ 31
      → get_command (map argument_of items) (cursor (add_items now [] items) rest n)
        ≡ ok (values_of items, at_rest rest n)
  unfolding get_command add_items
  get_command-add_items [] n rest h k = ground arith
  get_command-add_items (item ∷ items) n rest h k =
      let first = add_item now [] item in
      let more = add_items now [] items in
      let same = add_items-append items first in
      let size : length (add_items now first items) ≡ length first + length more =
        ap length same ∙ length-append first more in
      let split : add_items now first items ++ rest ≡ first ++ (more ++ rest) =
        ap (λ t. t ++ rest) same ∙ append_assoc first more rest in
      let start : cursor (add_items now first items) rest n
          ≡ cursor first (more ++ rest) (length more + n) =
        ground (arith, size, split) in
      rw (
        start,
        get_argument-add_item item (length more + n) (more ++ rest) h.0 (omega arith),
        ◌>>=◌,
        get_command-add_items items n rest h.1 (omega arith),
      )
