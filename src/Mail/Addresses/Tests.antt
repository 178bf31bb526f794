-- ===== src/Mail/Addresses/Tests.antt =====
-- Lists of addresses.
use notbit.Address.Instance.{digests, address, address-IsValid}
use notbit.Address.{Address}
use notbit.Base58.Instance.{big_num}
use notbit.Common.{◌≡◌, ◌≢◌, refl, arith, Bytes, [], ◌∷◌, map, true, some, ok, fault}
use notbit.Mail.Accepting.{with_addresses, taken, handle_from-listed}
use notbit.Mail.Addresses.{parse_addresses}
use notbit.Mail.Addresses.Ending.{parse_addresses-apart}
use notbit.Mail.Addresses.Plain.{plain_addresses}
use notbit.Mail.Addresses.Written.{Entry, listed, parse_addresses-listed}
use notbit.Mail.{ValueParsers, MailParser, new_parser, handle_from}
use notbit.Proto.Types.{codes}

abbrev one : Bytes × Address
one = (codes "A b", address)

one-Entry : Entry big_num digests one
one-Entry = ((refl, (refl, (refl, tt))), address-IsValid, omega arith)

abbrev two : Bytes × Address
two = ([], address)

two-Entry : Entry big_num digests two
two-Entry = (tt, address-IsValid, omega arith)

parse_addresses-apart_example :
    (parse_addresses big_num digests (codes "a \"b\" <BM-2@bitmessage>")
      ≡ plain_addresses big_num digests (codes "a \"b\" <BM-2@bitmessage>"))
    × (parse_addresses big_num digests (codes "a \"b\" <BM-2@bitmessage>") ≢ fault)
parse_addresses-apart_example =
    parse_addresses-apart big_num digests (codes "a \"b\" <BM-2@bitmessage>")

parse_addresses-listed_example :
    parse_addresses big_num digests (listed big_num digests one (two ∷ []))
    ≡ ok (map (λ x. x.1) (one ∷ two ∷ []))
parse_addresses-listed_example =
    parse_addresses-listed big_num digests one (two ∷ []) (one-Entry, (two-Entry, tt))

abbrev values : ValueParsers
values = record {
  parse_addresses = λ bytes. ([], true);
  parse_content_type = λ bytes. (some bytes, [], true);
  decode_words = λ bytes. bytes;
}

abbrev with_from : MailParser
with_from = record new_parser { buffer = listed big_num digests one [] }

handle_from-listed_example :
    handle_from (with_addresses big_num digests values) with_from
    ≡ taken big_num digests with_from one []
handle_from-listed_example =
    handle_from-listed big_num digests values with_from one [] (one-Entry, tt) refl refl
