-- ===== src/HashTable.antt =====
-- src/ntb-hash-table.c: a chained hash table from hashes to the structures that hold them. A chain is
-- a list of the `data` pointers of its entries; the slice allocator that the entries come from
-- stops the program where memory runs out. Memory bounds the number of chains, so that `size * 3`
-- and the doubling of the size do not wrap round.
pub mod Index
pub mod Placing
pub mod Grow
pub mod Lookup
pub mod Chains
pub mod Setting
pub mod Unlink
pub mod Removing
pub mod Runs
pub mod Counting
mod Tests
use Prim.Native.Nat.{bit_and}
use notbit.Common.{
  ℕ, ◌+◌, ◌-◌, ◌*◌, ◌/◌, ◌^◌, Bytes, List, [], ◌∷◌, Bool, true, false, Option, none, some, ◌==◌,
  leb, get_or, set, replicate, if◌then◌else◌, bytes_eq,
}

-- A pointer to a structure, and the hash of NTB_PROTO_HASH_LENGTH bytes that stands in the structure
-- at `hash_offset`. The hash does not change while the structure is in the table.
pub record Value : Type 0 where
  pub pointer : ℕ
  pub hash : Bytes

abbrev pub Chain : Type 0
Chain = List Value

-- struct ntb_hash_table
pub record Table : Type 0 where
  pub size : ℕ
  pub n_entries : ℕ
  pub entries : List Chain

abbrev pub alloc_entries : ℕ → List Chain
alloc_entries size = replicate size []

unfoldable pub new : Table
new = record { size = 8; n_entries = 0; entries = alloc_entries 8 }

-- `memcpy(&index, hash, 4)` on a machine that stores the low byte first.
unfoldable pub load_32 : Bytes → ℕ
load_32 hash =
    get_or hash 0 0 + get_or hash 1 0 * 2 ^ 8 + get_or hash 2 0 * 2 ^ 16 + get_or hash 3 0 * 2 ^ 24

pub get_index : ℕ → Bytes → ℕ
unfolding load_32
get_index size hash = bit_and (load_32 hash) (size - 1)

-- The loop over a chain that looks for a hash.
pub find : Bytes → Chain → Option Value
find hash [] = none
find hash (entry ∷ chain) = if bytes_eq hash entry.hash then some entry else find hash chain

-- `entry->data = value` at the entry that the loop finds.
pub replace : Value → Chain → Chain
replace value [] = []
replace value (entry ∷ chain) =
    if bytes_eq value.hash entry.hash then value ∷ chain else entry ∷ replace value chain

pub get : Table → Bytes → Option Value
unfolding get_index find
get t hash = find hash (get_or t.entries (get_index t.size hash) [])

pub insert_entry_at_index : List Chain → Value → ℕ → List Chain
insert_entry_at_index entries entry index = set entries index (entry ∷ get_or entries index [])

-- The inner and the outer loop of ntb_hash_table_grow.
pub move_chain : ℕ → Chain → List Chain → List Chain
unfolding get_index insert_entry_at_index
move_chain size [] entries = entries
move_chain size (entry ∷ chain) entries =
    move_chain size chain (insert_entry_at_index entries entry (get_index size entry.hash))

pub move_all : ℕ → List Chain → List Chain → List Chain
unfolding move_chain
move_all size [] entries = entries
move_all size (chain ∷ chains) entries = move_all size chains (move_chain size chain entries)

pub grow : Table → Table
unfolding move_all
grow t =
    let size = t.size * 2 in
    record t { size = size; entries = move_all size t.entries (alloc_entries size) }

-- The part of ntb_hash_table_set that adds an entry.
pub add : Table → Value → Table
unfolding grow
add t value =
    let room = if leb (t.size * 3 / 4) t.n_entries then grow t else t in
    record room {
      n_entries = room.n_entries + 1;
      entries = insert_entry_at_index room.entries value (get_index room.size value.hash);
    }

-- The result is the value that was replaced, if there was one.
pub set_value : Table → Value → Option Value × Table
unfolding add find replace
set_value t value =
    let index = get_index t.size value.hash in
    let chain = get_or t.entries index [] in
    elim (find value.hash chain) [
      | some old ↦ (some old, record t { entries = set t.entries index (replace value chain) })
      | none ↦ (none, add t value)
    ]

-- The loop of ntb_hash_table_remove, which compares pointers; none if the value is not there.
pub unlink : Value → Chain → Option Chain
unlink value [] = none
unlink value (entry ∷ chain) =
    if entry.pointer == value.pointer
    then some chain
    else elim (unlink value chain) [ none ↦ none | some rest ↦ some (entry ∷ rest) ]

pub remove : Table → Value → Bool × Table
unfolding unlink
remove t value =
    let index = get_index t.size value.hash in
    elim (unlink value (get_or t.entries index [])) [
      | none ↦ (false, t)
      | some chain ↦
          (true, record t { n_entries = t.n_entries - 1; entries = set t.entries index chain })
    ]
