-- ===== src/Mail/Values.antt =====
-- The handlers of header values leave the base 64 decoder alone.
use notbit.Address.{Address}
use notbit.Common.{
  ◌≡◌, sym, ap, arith, List, [], ◌∷◌, ◌++◌, true, ok-injective, Outcome, Ensures, >>=-eq-ok,
}
use notbit.Mail.{
  ValueParsers, Header, skip, to, cc, bcc, from, subject, content_type, transfer_encoding,
  MailParser, handle_subject, add_destinations, handle_to, handle_cc, handle_bcc, add_sources,
  handle_from, handle_content_type, handle_transfer_encoding, handle_value, handle_header_end,
}

abbrev pub SameDecoder : MailParser → Outcome MailParser → Type 0
SameDecoder p = Ensures λ q. q.base64_data ≡ p.base64_data

module _ (values : ValueParsers) where
  add_sources-SameDecoder :
      (addresses : List Address) (p : MailParser) → SameDecoder p (add_sources values addresses p)
  unfolding add_sources
  add_sources-SameDecoder [] p q e = ap MailParser.base64_data (sym (ok-injective e))
  add_sources-SameDecoder (address ∷ addresses) p q e = ground (
    arith,
    add_sources-SameDecoder addresses
        (record p { had_from = true; sources = p.sources ++ address ∷ [] }) q,
  )

  handle_from-SameDecoder : (p : MailParser) → SameDecoder p (handle_from values p)
  unfolding handle_from
  handle_from-SameDecoder p q e =
      let parsed = values.parse_addresses p.buffer in
      let (p', f, g) = >>=-eq-ok (add_sources values parsed.0 p) _ e in
      ground (arith, add_sources-SameDecoder parsed.0 p p' f)

  handle_value-SameDecoder : (k : Header) (p : MailParser) → SameDecoder p (handle_value values k p)
  unfolding handle_value
  handle_value-SameDecoder skip p q e = ap MailParser.base64_data (sym (ok-injective e))
  handle_value-SameDecoder to p q e = unfold handle_to add_destinations in ground arith
  handle_value-SameDecoder cc p q e = unfold handle_cc add_destinations in ground arith
  handle_value-SameDecoder bcc p q e = unfold handle_bcc add_destinations in ground arith
  handle_value-SameDecoder from p q e = handle_from-SameDecoder p q e
  handle_value-SameDecoder subject p q e = unfold handle_subject in ground arith
  handle_value-SameDecoder content_type p q e = unfold handle_content_type in ground arith
  handle_value-SameDecoder transfer_encoding p q e = unfold handle_transfer_encoding in ground arith

  pub handle_header_end-SameDecoder : (p : MailParser) → SameDecoder p (handle_header_end values p)
  unfolding handle_header_end
  handle_header_end-SameDecoder p q e = handle_value-SameDecoder p.current_header _ q e
