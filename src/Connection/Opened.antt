-- ===== src/Connection/Opened.antt =====
-- A list of hashes that is being written, of src/ntb-connection.c.
use notbit.Common.{
  ℕ, ◌+◌, ◌-◌, ◌*◌, ◌%◌, ◌≤◌, ◌≡◌, refl, sym, ◌∙◌, ap, arith, Bytes, List, [], ◌∷◌, ◌++◌, All, true,
  false, ==_ne, le→ltb, leb, length, length-append, length-replicate, append_assoc, append-nil,
  take, drop, take_front, take-length, take-append-drop, length-take, All-append, length-drop, ok,
}
use notbit.Proto.Types.{magic, header_size}
use notbit.Proto.Write.{be_bytes, write_at, begin_command}
use notbit.Proto.Frame.{end_command_lem, write_at_middle}
use notbit.Connection.{Connection, update_poll_flags}
use notbit.Connection.Handlers.{hash_length}
use notbit.Connection.Sending.{n_entries, begin_list, end_list, add_entry, add_hash_for_command}
use notbit.Connection.Names.{framed, pad}

abbrev pub flat : List Bytes → Bytes
flat [] = []
flat (h ∷ hashes) = h ++ flat hashes

flat-append : (g : List Bytes) (h : Bytes) → flat (g ++ h ∷ []) ≡ flat g ++ h
flat-append [] h = append-nil h
flat-append (x ∷ g) h = ap (λ t. x ++ t) (flat-append g h) ∙ sym (append_assoc x (flat g) h)

abbrev pub AreHashes : List Bytes → Type 0
AreHashes = All (λ h. length h ≡ hash_length)

length-flat : (g : List Bytes) → AreHashes g → length (flat g) ≡ hash_length * length g
length-flat [] h = refl
length-flat (x ∷ g) h = rw (length-append) (omega (arith, length-flat g h.1, h.0))

-- The payload of a command with these hashes.
abbrev pub counted : List Bytes → Bytes
counted g = length g ∷ flat g

module _ (sha512 : Bytes → Bytes) (junk : Bytes) (blank : ℕ) (command : Bytes)
    (short : length command ≤ 12) (whole : length junk ≡ 8)
    (hashed : (bytes : Bytes) → 4 ≤ length (sha512 bytes)) where
  abbrev pub open_command : Bytes → Bytes → Bytes
  open_command base entries = base ++ (magic ++ (pad command ++ (junk ++ (blank ∷ entries))))

  -- A command is begun behind `base`, and has these hashes so far.
  pub record IsOpen (base : Bytes) (group : List Bytes) (conn : Connection) : Type 0 where
    pub start : conn.command_start ≡ length base
    pub contents : conn.out_buf ≡ open_command base (flat group)
    pub hashes : AreHashes group

  pub length-open :
      (base entries : Bytes)
      → length (open_command base entries) ≡ length base + (header_size + 1) + length entries
  length-open base entries =
      simp length-append (omega (arith, length-replicate {A = ℕ} (12 - length command) 0))

  module _ (base : Bytes) (group : List Bytes) (conn : Connection)
      (h : IsOpen base group conn) where
    n_entries-IsOpen : n_entries hash_length conn ≡ length group
    n_entries-IsOpen =
        rw (h.contents, h.start, length-open base (flat group), length-flat group h.hashes)
          (omega arith)

    pub end_list-IsOpen :
        1 ≤ length group
        → length group ≤ 252
        → (end_list sha512 junk blank hash_length conn).out_buf
          ≡ base ++ framed sha512 command (counted group)
    unfolding end_list update_poll_flags
    end_list-IsOpen some_of bound =
        let n = length group in
        let entries = flat group in
        let front = base ++ (magic ++ pad command) in
        let before = base ++ (magic ++ (pad command ++ junk)) in
        let low : n % 256 ≡ n = omega arith in
        let place : open_command base entries ≡ before ++ ((blank ∷ []) ++ entries) =
          simp append_assoc in
        let head : length before ≡ length base + header_size =
          simp length-append (omega (arith, length-replicate {A = ℕ} (12 - length command) 0)) in
        let counts : write_at (open_command base entries) (length base + header_size) (n ∷ [])
            ≡ before ++ (n ∷ entries) =
          ap (λ t. write_at t (length base + header_size) (n ∷ [])) place
          ∙ write_at_middle before (blank ∷ []) (n ∷ []) entries (length base + header_size) head
              refl in
        let split : before ++ (n ∷ entries)
            ≡ front ++ (take 4 junk ++ (drop 4 junk ++ counted group)) =
          let front_first : before ++ (n ∷ entries) ≡ front ++ (junk ++ counted group) =
            simp append_assoc in
          front_first
          ∙ ap (λ j. front ++ (j ++ counted group)) (sym (take-append-drop 4 junk))
          ∙ ap (λ t. front ++ t) (append_assoc (take 4 junk) (drop 4 junk) (counted group)) in
        let size : length front ≡ length base + 16 =
          simp length-append (omega (arith, length-replicate {A = ℕ} (12 - length command) 0)) in
        let closes =
          end_command_lem sha512 front (take 4 junk) (drop 4 junk) (counted group) (length base)
            size (length-take 4 junk (omega arith)) (length-drop 4 junk ∙ omega arith)
            (omega (arith, length-flat group h.hashes)) (hashed (counted group)) in
        let same : front
              ++ (be_bytes 4 (length (counted group))
                  ++ (take 4 (sha512 (counted group)) ++ counted group))
            ≡ base ++ framed sha512 command (counted group) =
          simp append_assoc in
        rw
          (
            n_entries-IsOpen,
            h.start,
            h.contents,
            ==_ne n 0 (λ e. omega arith),
            low,
            counts,
            split,
            closes,
          )
          same

  -- A command without hashes is taken away.
  pub end_list_none :
      (base : Bytes) (conn : Connection)
      → IsOpen base [] conn
      → (end_list sha512 junk blank hash_length conn).out_buf ≡ base
  unfolding end_list update_poll_flags
  end_list_none base conn h =
      rw (n_entries-IsOpen base [] conn h, h.start, h.contents)
        (take_front (length base) base _ refl)

  module _ (conn : Connection) where
    pub begin_list-IsOpen :
        (d : Connection) × (begin_list sha512 junk blank command conn ≡ ok d)
        × IsOpen conn.out_buf [] d
    unfolding begin_list begin_command
    begin_list-IsOpen =
        let begun : Connection = record conn {
          command_start = length conn.out_buf;
          out_buf = open_command conn.out_buf [];
        } in
        (
          begun,
          rw (le→ltb 12 (length command) short) (simp append_assoc),
          record { start = refl; contents = refl; hashes = tt },
        )

  module _ (base : Bytes) (group : List Bytes) (conn : Connection) (h : IsOpen base group conn)
      (hash : Bytes) (e : length hash ≡ hash_length) where
    whole_hash : take hash_length hash ≡ hash
    whole_hash = ap (λ n. take n hash) (sym e) ∙ take-length hash

    -- There is room for another hash.
    pub add_hash_room :
        leb 0xfc (length group) ≡ false
        → (d : Connection) × (add_hash_for_command sha512 junk blank command hash conn ≡ ok d)
          × IsOpen base (group ++ hash ∷ []) d
    unfolding add_entry
    add_hash_room room = (
      record conn { out_buf = conn.out_buf ++ hash },
      rw (n_entries-IsOpen base group conn h, room, whole_hash) refl,
      record {
        start = h.start;
        contents = rw (h.contents, flat-append group hash) (simp append_assoc);
        hashes = All-append _ group (hash ∷ []) h.hashes (e, tt);
      },
    )

    -- There is none: the command is ended, and another one begun.
    pub add_hash_full :
        leb 0xfc (length group) ≡ true
        → length group ≤ 252
        → (d : Connection) × (add_hash_for_command sha512 junk blank command hash conn ≡ ok d)
          × IsOpen (base ++ framed sha512 command (counted group)) (hash ∷ []) d
    unfolding add_entry
    add_hash_full full bound =
        let ended = end_list sha512 junk blank hash_length conn in
        let (begun, good, o) = begin_list-IsOpen ended in
        let same = end_list-IsOpen base group conn h (ground arith) bound in
        (
          record begun { out_buf = begun.out_buf ++ hash },
          rw (n_entries-IsOpen base group conn h, full, whole_hash, good) refl,
          record {
            start = o.start ∙ ap length same;
            contents = rw (o.contents, same) (simp (append_assoc, append-nil));
            hashes = (e, tt);
          },
        )
