-- ===== src/Network/Items/Tests.antt =====
-- The theorems on the inventory of src/ntb-network.c at concrete values.
use notbit.Address.{Digests, double_hash}
use notbit.Common.{
  ◌%◌, ◌<◌, ◌≡◌, refl, ◌∙◌, arith, Bytes, [], ◌∷◌, ◌++◌, length, replicate, IsByte, All-replicate,
  true, false, inl, none, ok, fault, ◌>>=◌, bytes_eq, some,
}
use notbit.HashTable.Setting.{get-new, get-set_value, new-IsValid}
use notbit.HashTable.{Value, new, get, set_value}
use notbit.Network.Items.Again.{add_object_again}
use notbit.Network.Items.Finding.{IsMissing, renumber}
use notbit.Network.Items.Knowing.{get_object-handle_object}
use notbit.Network.Items.Leaks.{handle_object-leaks, handle_getdata-stub}
use notbit.Network.Items.Objects.{Flags, add_object, handle_object, max_rejected_inventories}
use notbit.Network.Items.Sound.{IsSound, create-IsSound, join_rejected}
use notbit.Network.Items.Steps.{came, perform, start, Reach-perform, Reach-IsSound}
use notbit.Network.Items.{
  Inventories, InventoryItem, rejected, new_inventories, create, enter, lookup, get_object, memory,
  handle_inv, handle_getdata,
}
use notbit.Network.Judging.{should_reject}
use notbit.Network.Items.Judged.{whole}
use notbit.Pow.{check, calculate_target}
use notbit.Proto.Read.{get_command, get_argument, get_64, get_32, read_be, get_timestamp}
use notbit.Proto.Types.{InvType, uint64, timestamp, get_max_age_for_type}

-- Digests that depend on the length, and digests of zeroes only.
abbrev digests : Digests
digests = record {
  sha512 = λ bytes. length bytes % 256 ∷ replicate 63 5;
  ripemd160 = λ bytes. replicate 20 0;
  length-sha512 = λ bytes. refl;
  sha512_bytes = λ bytes. (omega arith, All-replicate IsByte 63 5 (omega arith));
  length-ripemd160 = λ bytes. refl;
}

abbrev zeroes : Digests
zeroes = record {
  sha512 = λ bytes. replicate 64 0;
  ripemd160 = λ bytes. replicate 20 0;
  length-sha512 = λ bytes. refl;
  sha512_bytes = λ bytes. All-replicate IsByte 64 0 (omega arith);
  length-ripemd160 = λ bytes. refl;
}

-- An object from the second 100.
abbrev object : Bytes
object = replicate 8 0 ++ (0 ∷ 0 ∷ 0 ∷ 100 ∷ [])

abbrev flags : Flags
flags = record { skip_validation = false; delay = false }

few : new_inventories.n_rejected_inventories < max_rejected_inventories
unfolding new_inventories
few = omega arith

Reach-perform_example :
    (s : Inventories) × (perform digests (came 200 InvType.msg object flags []) new_inventories
      ≡ ok s)
    × IsSound s
Reach-perform_example = Reach-perform {h = digests} (came 200 InvType.msg object flags []) start few

empty-IsSound : IsSound new_inventories
empty-IsSound = Reach-IsSound {h = digests} start

unknown : (hash : Bytes) → IsMissing hash new_inventories
unfolding new_inventories lookup
unknown hash = (get-new hash, rw (get-new hash, lookup) refl)

object_header :
    get_command (uint64 ∷ timestamp ∷ []) (whole object)
    ≡ ok ((0, (100, tt)), record { mem = []; len = 0 })
unfolding get_command get_argument get_64 get_32 read_be get_timestamp
object_header = refl

object_passes : should_reject zeroes.sha512 200 100 InvType.msg object ≡ ok false
unfolding should_reject check get_64 read_be calculate_target get_max_age_for_type
object_passes = refl

get_object-handle_object_example :
    (s : Inventories) × (handle_object zeroes 200 InvType.msg object [] new_inventories ≡ ok s)
    × (get_object (double_hash zeroes object) s
        ≡ ok (memory (record { type = InvType.msg; contents = object })))
get_object-handle_object_example =
    get_object-handle_object zeroes 200 InvType.msg object [] new_inventories 0 100
      (record { mem = []; len = 0 }) false empty-IsSound few object_header
      (inl (unknown (double_hash zeroes object))) object_passes

add_object_again_example :
    (add_object digests 200 InvType.msg object flags [] new_inventories
      >>= add_object digests 300 InvType.msg object flags [])
    ≡ add_object digests 200 InvType.msg object flags [] new_inventories
add_object_again_example =
    add_object_again digests 200 300 InvType.msg InvType.msg object flags flags [] []
      new_inventories empty-IsSound few

handle_getdata-stub_example :
    (s : Inventories) × (handle_inv 5 1 (replicate 32 7 ∷ []) new_inventories ≡ ok s)
    × (handle_getdata 1 (replicate 32 7 ∷ []) s ≡ fault)
handle_getdata-stub_example =
    handle_getdata-stub 5 1 (replicate 32 7) new_inventories empty-IsSound
      (unknown (replicate 32 7))

-- 16384 items are said to be rejected, of which one is there; another object is too old.
abbrev hash : Bytes
hash = replicate 32 9

abbrev item : InventoryItem
item = record { hash = hash; state = rejected 100 }

abbrev crowded : Inventories
crowded = record (create hash (rejected 100) new_inventories) {
  n_rejected_inventories = max_rejected_inventories;
  rejected_inventories = 0 ∷ [];
}

crowded-IsSound : IsSound crowded
unfolding create enter new_inventories
crowded-IsSound =
    let (made, loose) =
      create-IsSound new_inventories empty-IsSound hash (rejected 100) (get-new hash) in
    renumber max_rejected_inventories (join_rejected _ made 0 item loose refl)

not_there : IsMissing (double_hash digests object) crowded
unfolding create enter new_inventories lookup double_hash bytes_eq
not_there =
    let v : Value = record { pointer = 0; hash = hash } in
    let other = double_hash digests object in
    let e : get (set_value new v).1 other ≡ none =
      (get-set_value new v other new-IsValid).1 ∙ get-new other in
    (e, rw (e, lookup) refl)

item_is_there : crowded.cells 0 ≡ some item
unfolding create enter new_inventories
item_is_there = refl

object_is_old : should_reject digests.sha512 1000000 100 InvType.msg object ≡ ok true
unfolding should_reject get_max_age_for_type
object_is_old = refl

handle_object-leaks_example :
    (s : Inventories) × (handle_object digests 1000000 InvType.msg object [] crowded ≡ ok s)
    × (lookup hash s ≡ fault)
handle_object-leaks_example =
    handle_object-leaks digests 1000000 InvType.msg object [] crowded 100 0 item 0
      (record { mem = []; len = 0 }) crowded-IsSound object_header object_is_old not_there
      (omega arith) refl item_is_there
