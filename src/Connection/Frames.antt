-- ===== src/Connection/Frames.antt =====
-- What one connection writes, another one takes apart.
use notbit.Common.{
  ℕ, zero, suc, ◌+◌, ◌-◌, ◌≤◌, ◌<◌, ◌≡◌, refl, ◌∙◌, ap, arith, Bytes, List, [], ◌∷◌, ◌++◌, All,
  Bool, true, false, le→ltb, lt→ltb, take, drop, length, length-append, length-take, append_assoc,
  take_front, drop_front, if◌then◌else◌, Option, some, Outcome, ok, fail, fault, bytes_eq_refl,
  ◌>>=◌,
}
use notbit.Proto.Types.{header_size, magic}
use notbit.Proto.Read.{get_32}
use notbit.Proto.Write.{be_bytes}
use notbit.Proto.Integers.{get_32-be_bytes}
use notbit.Proto.Frame.{length-be_bytes}
use notbit.Connection.{Connection, Listener}
use notbit.Connection.Commands.{process_command, process_loop, process_commands, max_message_size}
use notbit.Connection.Handlers.{dispatch}
use notbit.Connection.Receiving.{after, round_processes, round_short}
use notbit.Connection.Names.{
  length-pad, c_string-pad, check-pad, framed, length-framed, at_size, at_sum, at_payload, IsName,
  pad,
}

module _ (sha512 : Bytes → Bytes) (junk : Bytes) (listener : Listener) (name payload : Bytes)
    (good : IsName name) (hashed : 4 ≤ length (sha512 payload)) where
  regroup :
      (rest : Bytes)
      → framed sha512 name payload ++ rest
        ≡ magic
          ++ (pad name
              ++ (be_bytes 4 (length payload) ++ (take 4 (sha512 payload) ++ (payload ++ rest))))
  regroup rest = simp append_assoc

  -- A command that came in whole is handed to its handler.
  process_command-framed :
      (conn : Connection) (rest : Bytes)
      → process_command sha512 junk listener conn
          (framed sha512 name payload ++ rest)
          (length payload)
        ≡ dispatch sha512 junk listener name conn
            (record { mem = payload ++ rest; len = length payload })
  unfolding process_command
  process_command-framed conn rest =
      let size = be_bytes 4 (length payload) in
      let sum = take 4 (sha512 payload) in
      let tail = size ++ (sum ++ (payload ++ rest)) in
      let g = length-take 4 (sha512 payload) hashed in
      let at =
        at_payload (pad name) size sum (payload ++ rest) (length-pad name good)
          (length-be_bytes 4 (length payload)) g in
      let at' =
        at_sum (pad name) size sum (payload ++ rest) (length-pad name good)
          (length-be_bytes 4 (length payload)) g in
      rw
        (
          regroup rest,
          check-pad name good tail,
          c_string-pad name good tail,
          at,
          at',
          take_front (length payload) payload rest refl,
          take_front 4 sum (payload ++ rest) g,
          bytes_eq_refl sum,
        )
        refl

  -- A round of the loop on a command that came in whole, with `n` bytes of others behind it.
  process_loop-framed :
      (fuel : ℕ) (conn : Connection) (rest : Bytes) (n : ℕ)
      → length payload ≤ max_message_size
      → process_loop sha512 junk listener
          (suc fuel)
          conn
          (framed sha512 name payload ++ rest)
          (length (framed sha512 name payload) + n)
        ≡ after
            (dispatch sha512 junk listener name conn
              (record { mem = payload ++ rest; len = length payload }))
            λ d. process_loop sha512 junk listener fuel d rest n
  process_loop-framed fuel conn rest n small =
      let m = length payload in
      let size = be_bytes 4 m in
      let sum = take 4 (sha512 payload) in
      let g = length-take 4 (sha512 payload) hashed in
      let f = length-be_bytes 4 m in
      let e = length-pad name good in
      let whole = length-framed sha512 name payload good hashed in
      let known : get_32 (drop 16 (framed sha512 name payload ++ rest)) ≡ ok m =
        ap (λ t. get_32 (drop 16 t)) (regroup rest)
        ∙ ap get_32 (at_size (pad name) size sum (payload ++ rest) e f g)
        ∙ get_32-be_bytes m (sum ++ (payload ++ rest)) (omega arith) in
      let behind : drop (m + header_size) (framed sha512 name payload ++ rest) ≡ rest =
        drop_front (m + header_size) (framed sha512 name payload) rest (omega (arith, whole)) in
      let left : length (framed sha512 name payload) + n - (m + header_size) ≡ n =
        omega (arith, whole) in
      round_processes sha512 junk listener fuel conn (framed sha512 name payload ++ rest)
        (length (framed sha512 name payload) + n) m known
        (le→ltb _ header_size (omega (arith, whole))) (le→ltb max_message_size m small)
        (le→ltb _ (header_size + m) (omega (arith, whole)))
      ∙ rw (behind, left, process_command-framed conn rest) refl

module _ (sha512 : Bytes → Bytes) where
  -- Commands one behind the other.
  abbrev pub stream : List (Bytes × Bytes) → Bytes
  stream [] = []
  stream ((name, payload) ∷ commands) = framed sha512 name payload ++ stream commands

-- A name and a payload that make a command.
abbrev pub IsCommand : (Bytes → Bytes) → Bytes × Bytes → Type 0
IsCommand sha512 (name, payload) =
    IsName name × ((4 ≤ length (sha512 payload)) × (length payload ≤ max_message_size))

module _ (sha512 : Bytes → Bytes) (junk : Bytes) (listener : Listener) where
  -- The handler of each command in turn, until one says that the connection is gone. `behind` is what
  -- stands in memory behind them all, and becomes what is kept.
  abbrev pub handle_all : List (Bytes × Bytes) → Bytes → Bytes → Connection → Outcome Connection
  handle_all [] part behind conn = ok (record conn { in_buf = part })
  handle_all ((name, payload) ∷ commands) part behind conn =
      dispatch sha512 junk listener name conn (record {
        mem = payload ++ (stream sha512 commands ++ (part ++ behind));
        len = length payload;
      })
      >>= λ r. if r.0 then handle_all commands part behind r.1 else ok r.1

  after_all :
      (commands : List (Bytes × Bytes)) (part behind : Bytes) (r : Outcome (Bool × Connection))
      (k : Connection → Option (Outcome Connection))
      → ((d : Connection) → k d ≡ some (handle_all commands part behind d))
      → after r k ≡ some (r >>= λ a. if a.0 then handle_all commands part behind a.1 else ok a.1)
  after_all commands part behind fail k h = refl
  after_all commands part behind fault k h = refl
  after_all commands part behind (ok (false, d)) k h = refl
  after_all commands part behind (ok (true, d)) k h = h d

  loop-stream :
      (commands : List (Bytes × Bytes)) (part behind : Bytes) (conn : Connection) (fuel : ℕ)
      → All (IsCommand sha512) commands
      → length part < header_size
      → length (stream sha512 commands ++ part) < fuel
      → process_loop sha512 junk listener fuel conn
          (stream sha512 commands ++ (part ++ behind))
          (length (stream sha512 commands ++ part))
        ≡ some (handle_all commands part behind conn)
  loop-stream commands part behind conn zero good small enough = absurd (omega arith)
  loop-stream [] part behind conn (suc fuel) good small enough =
      round_short sha512 junk listener fuel conn (part ++ behind) (length part)
        (lt→ltb (length part) header_size small)
      ∙ rw (take_front (length part) part behind refl) refl
  loop-stream ((name, payload) ∷ commands) part behind conn (suc fuel) (good, more) small enough =
      let one = framed sha512 name payload in
      let rest = stream sha512 commands ++ (part ++ behind) in
      let mem : (one ++ stream sha512 commands) ++ (part ++ behind) ≡ one ++ rest =
        append_assoc one _ _ in
      let len : length ((one ++ stream sha512 commands) ++ part)
          ≡ length one + length (stream sha512 commands ++ part) =
        ap length (append_assoc one (stream sha512 commands) part) ∙ length-append one _ in
      let whole = length-framed sha512 name payload good.0 good.1.0 in
      rw (mem, len)
        (process_loop-framed sha512 junk listener name payload good.0 good.1.0 fuel conn rest
            (length (stream sha512 commands ++ part)) good.1.1
          ∙ after_all commands part behind _ _
              λ d. loop-stream commands part behind d fuel more small (omega arith))

  -- What has come in is some whole commands and less than a header of another one: process_commands
  -- gives each of them to its handler, in order, until a handler says that the connection is gone,
  -- and keeps the part of the last one for the next read. Each payload has at most 128 MB, and each
  -- name at most 11 bytes, none of them zero.
  pub process_commands-stream :
      (commands : List (Bytes × Bytes)) (part behind : Bytes) (conn : Connection)
      → All (IsCommand sha512) commands
      → length part < header_size
      → process_commands sha512 junk listener behind
          (record conn { in_buf = stream sha512 commands ++ part })
        ≡ some (
            handle_all commands part behind
              (record conn { in_buf = stream sha512 commands ++ part }))
  unfolding process_commands
  process_commands-stream commands part behind conn good small =
      rw (append_assoc (stream sha512 commands) part behind) (
        loop-stream commands part behind (record conn { in_buf = stream sha512 commands ++ part })
          (suc (length (stream sha512 commands ++ part))) good small (omega arith))
