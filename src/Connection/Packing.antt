-- ===== src/Connection/Packing.antt =====
-- The lists of hashes of src/ntb-connection.c: begin_hash_command, add_hash_for_command for each hash,
-- end_hash_command.
use notbit.Common.{
  ℕ, ◌+◌, ◌≤◌, ◌≡◌, refl, sym, ◌∙◌, ap, arith, Bytes, List, [], ◌∷◌, ◌++◌, All, leb, Bool-cases,
  inl, inr, length, length-append, append_assoc, append-nil, map, Outcome, ok, ◌>>=◌,
}
use notbit.Connection.{Connection}
use notbit.Connection.Sending.{begin_hash_command, end_hash_command, add_hash_for_command}
use notbit.Connection.Frames.{stream}
use notbit.Connection.Names.{framed}
use notbit.Connection.Opened.{
  AreHashes, counted, IsOpen, end_list-IsOpen, end_list_none, begin_list-IsOpen, add_hash_room,
  add_hash_full,
}

-- add_hash_for_command for each of the hashes.
abbrev pub add_all :
    (Bytes → Bytes) → Bytes → ℕ → Bytes → List Bytes → Connection → Outcome Connection
add_all sha512 junk blank command [] conn = ok conn
add_all sha512 junk blank command (hash ∷ hashes) conn =
    add_hash_for_command sha512 junk blank command hash conn
    >>= add_all sha512 junk blank command hashes

abbrev pub join : List (List Bytes) → List Bytes
join [] = []
join (g ∷ groups) = g ++ join groups

-- What a list of hashes is split into: some hashes, 252 at most.
abbrev pub IsGroup : List Bytes → Type 0
IsGroup g = (1 ≤ length g) × (length g ≤ 252)

-- The commands with the hashes of each group.
abbrev pub packed : (Bytes → Bytes) → Bytes → List (List Bytes) → Bytes
packed sha512 command groups = stream sha512 (map (λ g. (command, counted g)) groups)

module _ (sha512 : Bytes → Bytes) (junk : Bytes) (blank : ℕ) (command : Bytes)
    (short : length command ≤ 12) (whole : length junk ≡ 8)
    (hashed : (bytes : Bytes) → 4 ≤ length (sha512 bytes)) where
  abbrev pub Ends : Bytes → List Bytes → List Bytes → Connection → Type 0
  Ends base group hashes conn =
      (d : Connection) × (groups : List (List Bytes)) × (add_all sha512 junk blank command hashes
          conn
        ≡ ok d)
      × ((end_hash_command sha512 junk blank d).out_buf ≡ base ++ packed sha512 command groups)
      × (join groups ≡ group ++ hashes)
      × All IsGroup groups

  add_all-Ends :
      (hashes : List Bytes) (base : Bytes) (group : List Bytes) (conn : Connection)
      → IsOpen sha512 junk blank command short whole hashed base group conn
      → AreHashes hashes
      → 1 ≤ length group + length hashes
      → length group ≤ 252
      → Ends base group hashes conn
  add_all-Ends [] base group conn h all some_of bound = (
    conn,
    group ∷ [],
    refl,
    end_list-IsOpen sha512 junk blank command short whole hashed base group conn h (omega arith)
          bound
        ∙ ap (λ t. base ++ t) (sym (append-nil (framed sha512 command (counted group)))),
    refl,
    (((omega arith), bound), tt),
  )
  add_all-Ends (hash ∷ hashes) base group conn h (e, all) some_of bound =
      elim (Bool-cases (leb 0xfc (length group))) [
        | inl full ↦
            let (d, added, o) =
              add_hash_full sha512 junk blank command short whole hashed base group conn h hash e
                full bound in
            let base' = base ++ framed sha512 command (counted group) in
            let (end, groups, done, written, same, good) =
              add_all-Ends hashes base' (hash ∷ []) d o all (omega arith) (omega arith) in
            (
              end,
              group ∷ groups,
              rw added done,
              written
                  ∙ append_assoc base (framed sha512 command (counted group))
                      (packed sha512 command groups),
              ap (λ t. group ++ t) same,
              (((ground arith), bound), good),
            )
        | inr room ↦
            let (d, added, o) =
              add_hash_room sha512 junk blank command short whole hashed base group conn h hash e
                room in
            let more = length-append group (hash ∷ []) in
            let (end, groups, done, written, same, good) =
              add_all-Ends hashes base (group ++ hash ∷ []) d o all (omega (arith, more))
                (ground (arith, more)) in
            (
              end,
              groups,
              rw added done,
              written,
              same ∙ append_assoc group (hash ∷ []) hashes,
              good,
            )
      ]

  -- Hashes of 32 bytes are begun, added one after the other and ended: the buffer then holds, behind
  -- what it held, whole commands of 1 to 252 hashes each, which together have all the hashes in their
  -- order; without hashes it holds what it held.
  pub hash_commands-join :
      (hashes : List Bytes) (conn : Connection)
      → AreHashes hashes
      → (d : Connection) × (groups : List (List Bytes)) × ((begin_hash_command sha512 junk blank
              command conn
            >>= add_all sha512 junk blank command hashes)
          ≡ ok d)
        × ((end_hash_command sha512 junk blank d).out_buf
            ≡ conn.out_buf ++ packed sha512 command groups)
        × (join groups ≡ hashes)
        × All IsGroup groups
  hash_commands-join [] conn all =
      let (begun, good, o) = begin_list-IsOpen sha512 junk blank command short whole hashed conn in
      (
        begun,
        [],
        rw good refl,
        end_list_none sha512 junk blank command short whole hashed conn.out_buf begun o
            ∙ sym (append-nil conn.out_buf),
        refl,
        tt,
      )
  hash_commands-join (hash ∷ hashes) conn all =
      let (begun, good, o) = begin_list-IsOpen sha512 junk blank command short whole hashed conn in
      let (end, groups, done, written, same, good') =
        add_all-Ends (hash ∷ hashes) conn.out_buf [] begun o all (omega arith) (omega arith) in
      (end, groups, rw good done, written, same, good')
