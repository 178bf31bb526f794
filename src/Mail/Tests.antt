-- ===== src/Mail/Tests.antt =====
-- Mails for the parser, and the theorems on them.
use notbit.Common.{
  ◌≡◌, ◌≢◌, fault, refl, arith, Bytes, List, [], ◌∷◌, ◌++◌, length, if◌then◌else◌, true, some, ok,
  fail,
}
use notbit.Mail.Accepting.{with_content_type, all_known, handle_content_type-written}
use notbit.Mail.Attributes.{written, parse_content_type-written}
use notbit.Mail.ContentType.{is_token, is_text, parse_content_type}
use notbit.Mail.Ending.{parse_content_type-ends}
use notbit.Mail.Bytewise.{run}
use notbit.Mail.Parsing.{buf_size, parse, feed, concat, end}
use notbit.Mail.Sources.{one_source}
use notbit.Mail.Stream.{feed_whole}
use notbit.Mail.{
  handle_content_type, ValueParsers, content, to, MailParser, new_parser, ascii_tolower, is_header,
}
use notbit.Proto.Types.{codes}

-- Parsers of header values that find one address in everything.
abbrev values : ValueParsers
values = record {
  parse_addresses = λ bytes. (record { version = 3; stream = 1; ripe = bytes } ∷ [], true);
  parse_content_type = λ bytes. (some bytes, [], true);
  decode_words = λ bytes. bytes;
}

abbrev halves : List Bytes
halves =
    codes "Fr"
    ∷ codes "om: a"
    ∷ (13 ∷ 10 ∷ codes "T")
    ∷ (codes "o: b" ++ 10 ∷ 10 ∷ codes "hel")
    ∷ codes "lo"
    ∷ []

feed_whole_example : feed values new_parser halves ≡ run values new_parser (concat halves)
feed_whole_example =
    feed_whole values halves
      (omega arith, (omega arith, (omega arith, (omega arith, (omega arith, tt)))))

abbrev after : MailParser
after = record new_parser {
  state = content;
  buffer = [];
  current_header = to;
  had_from = true;
  had_to = true;
  sources = record { version = 3; stream = 1; ripe = codes "a" } ∷ [];
  destinations = record { version = 3; stream = 1; ripe = codes "b" } ∷ [];
  body = codes "hello";
}

halves-after : feed values new_parser halves ≡ ok after
unfolding feed parse notbit.Mail.Parsing.handle_state notbit.Mail.Parsing.handle_header_name
    notbit.Mail.Parsing.end_name notbit.Mail.Parsing.handle_header_value_start
    notbit.Mail.Parsing.handle_header_value notbit.Mail.Parsing.handle_check_eol
    notbit.Mail.Parsing.handle_check_continuation notbit.Mail.handle_header_end
    notbit.Mail.handle_value notbit.Mail.set_header notbit.Mail.handle_from notbit.Mail.handle_to
    notbit.Mail.Parsing.handle_content notbit.Mail.trim_end
halves-after = refl

end-after : end after ≡ ok after
unfolding end
end-after = refl

one_source_example : length after.sources ≡ 1
one_source_example =
    one_source values halves after after
      (omega arith, (omega arith, (omega arith, (omega arith, (omega arith, tt))))) halves-after
      end-after

-- A content type with two attributes, of which one has an escaped quote.
abbrev charset : List (Bytes × Bytes)
charset = (codes "charset", codes "utf-8") ∷ (codes "x", b'"' ∷ codes "a b") ∷ []

parse_content_type-written_example :
    parse_content_type (codes "text" ++ b'/' ∷ (codes "plain" ++ written charset))
    ≡ (some (codes "text" ++ b'/' ∷ codes "plain"), charset, ok tt)
unfolding is_token is_text
parse_content_type-written_example =
    parse_content_type-written (codes "text") (codes "plain") charset
      (refl, (refl, (refl, (refl, tt)))) (refl, (refl, (refl, (refl, (refl, tt)))))
      (
        (
          (refl, (refl, (refl, (refl, (refl, (refl, (refl, tt))))))),
          (refl, (refl, (refl, (refl, (refl, tt))))),
        ),
        (((refl, tt), (refl, (refl, (refl, (refl, tt))))), tt),
      )

parse_content_type-ends_example : (parse_content_type (codes "text/plain; charset=")).2 ≢ fault
parse_content_type-ends_example = parse_content_type-ends (codes "text/plain; charset=")

abbrev with_type : MailParser
with_type = record new_parser { buffer = codes "text/plain" ++ written charset }

handle_content_type-written_example : handle_content_type (with_content_type values) with_type ≡ (
    if all_known charset
    then ok (record with_type { had_content_type = true; buffer = with_type.buffer ++ 0 ∷ [] })
    else fail)
unfolding is_token is_text
handle_content_type-written_example =
    handle_content_type-written values with_type charset
      (
        (
          (refl, (refl, (refl, (refl, (refl, (refl, (refl, tt))))))),
          (refl, (refl, (refl, (refl, (refl, tt))))),
        ),
        (((refl, tt), (refl, (refl, (refl, (refl, tt))))), tt),
      )
      refl refl
