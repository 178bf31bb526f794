-- ===== src/Proto/Overread.antt =====
-- ntb_proto_get_var_int reads its first byte before it looks at the length, so a message that stops
-- in front of a variable-length integer is read one byte past its end.
use notbit.Common.{
  ℕ, ◌^◌, ◌<◌, ◌≡◌, refl, ap, arith, List, [], ◌∷◌, ◌++◌, All, map, length, length-append, fault,
  ◌>>=◌,
}
use notbit.Proto.Types.{Argument}
use notbit.Proto.Read.{get_var_int, get_argument, get_command}
use notbit.Proto.Write.{Item, add_item, add_items}
use notbit.Proto.RoundTrip.{
  argument_of, Fits, cursor, at_rest, add_items-append, get_argument-add_item,
}

module _ (now : ℕ) where
  -- If the object ends with the message, and the message with the last item that was written for
  -- the arguments so far, reading a variable-length integer behind it leaves the object.
  pub get_command-overread :
      (items : List Item) (args : List Argument)
      → All (Fits now) items
      → length (add_items now [] items) < 2 ^ 31
      → get_command
          (map argument_of items ++ (Argument.var_int ∷ args))
          (at_rest (add_items now [] items) (length (add_items now [] items)))
        ≡ fault
  unfolding get_command add_items
  get_command-overread [] args h k = unfold get_argument get_var_int in refl
  get_command-overread (item ∷ items) args h k =
      let first = add_item now [] item in
      let more = add_items now [] items in
      let same : add_items now first items ≡ first ++ more = add_items-append now items first in
      let start : at_rest (add_items now first items) (length (add_items now first items))
          ≡ cursor first more (length more) =
        ground (arith, same, length-append first more) in
      rw (
        start,
        get_argument-add_item now item (length more) more h.0
            (omega (arith, ap length same, length-append first more)),
        ◌>>=◌,
        get_command-overread items args h.1
            (omega (arith, ap length same, length-append first more)),
      )
