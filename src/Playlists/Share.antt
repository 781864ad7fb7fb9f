-- ===== src/Playlists/Share.antt =====
-- parseLink gives back what buildLink of packages/playlists-web/src/link.ts was given.
use trackerstream.Common.{
  ℕ, ◌+◌, ◌≤◌, ◌<◌, ◌≡◌, refl, ap, ◌∙◌, sym, true, none, some, List, [], ◌∷◌, ◌++◌, ltb, leb,
  if◌then◌else◌, length, arith, length-append, Bool-cases, inl, inr, ltb→lt, ◌⊎◌,
}
use trackerstream.Common.Result.{ok, err}
use trackerstream.Playlists.Wire.{TextCodec, framed}
use trackerstream.Playlists.Varint.{uvarint, uvarint-length}
use trackerstream.Playlists.Link.{too_many_arguments, spread, envelope_bytes, encode_envelope-cases}
use trackerstream.Playlists.Url.{
  Base64, url_char_max, web_base, trim, valid_name, each, url_text, b64url, unb64url, build_link,
  parse_link,
}
use trackerstream.Playlists.Strip.{Free, fragment_apart}
use trackerstream.Playlists.Fragment.{
  Bytes, Base64Laws, url_text-Fragment, valid_name-parts, parse_link_bare, parse_link_full,
}

module _ (B : Base64) (laws : Base64Laws B) (T : TextCodec) where
  -- The envelope is never empty.
  envelope_bytes-length : (name rec doc : List ℕ) → 1 ≤ length (envelope_bytes T name rec doc)
  unfolding framed
  envelope_bytes-length name rec doc =
      let nb : List ℕ = T.encode name in
      omega (
        arith,
        uvarint-length (length nb),
        length-append (uvarint (length nb) ++ nb) (framed rec ++ framed doc),
        length-append (uvarint (length nb)) nb,
      )

  fragment_not_empty : (bs : List ℕ) → 1 ≤ length bs → unb64url B [] ≡ some bs → ⊥
  unfolding unb64url each
  fragment_not_empty bs l e =
      let empty : B.atob [] ≡ some [] = ap B.atob (sym laws.btoa_empty) ∙ laws.atob_back [] tt in
      let same : [] ≡ bs = cc in omega (arith, ap length same)

  parse_link_whole :
      (name frag envelope : List ℕ)
      → valid_name name ≡ true
      → Free fragment_apart frag
      → unb64url B frag ≡ some envelope
      → 1 ≤ length envelope
      → parse_link B (web_base ++ (name ++ (35 ∷ frag)))
        ≡ ok (record { name = name; envelope = some envelope })
  parse_link_whole name [] envelope valid free back l = absurd (fragment_not_empty envelope l back)
  parse_link_whole name (c ∷ cs) envelope valid free back l =
      parse_link_full B name valid c cs envelope free back

  b64url-cases :
      (limit : ℕ) (bs : List ℕ)
      → ((length bs ≤ limit) × (b64url B limit bs ≡ ok (url_text B bs)))
        ⊎ ((limit < length bs) × (b64url B limit bs ≡ err too_many_arguments))
  unfolding b64url spread
  b64url-cases limit bs = elim (Bool-cases (leb (length bs) limit)) [
    | inl fits ↦ inl (ground (arith, fits), rw fits refl)
    | inr over ↦ inr (ground (arith, over), rw over refl)
  ]

  -- Each part is shorter than the envelope.
  envelope_bytes-parts :
      (name rec doc : List ℕ)
      → (length (T.encode name) + (length rec + length doc))
        ≤ length (envelope_bytes T name rec doc)
  unfolding framed
  envelope_bytes-parts name rec doc =
      let nb : List ℕ = T.encode name in
      omega (
        arith,
        length-append (uvarint (length nb) ++ nb) (framed rec ++ framed doc),
        length-append (uvarint (length nb)) nb,
        length-append (framed rec) (framed doc),
        length-append (uvarint (length rec)) rec,
        length-append (uvarint (length doc)) doc,
      )

  -- The link of a fragment, the full one or the one cut down to the name, is parsed.
  shared :
      (name envelope : List ℕ)
      → valid_name name ≡ true
      → Bytes envelope
      → 1 ≤ length envelope
      → let long : List ℕ = web_base ++ (name ++ (35 ∷ url_text B envelope)) in
        let url : List ℕ = if ltb url_char_max (length long) then web_base ++ name else long in
        (length url ≤ url_char_max)
        × ((parse_link B url ≡ ok (record { name = name; envelope = some envelope }))
            ⊎ ((parse_link B url ≡ ok (record { name = name; envelope = none }))
                × (url_char_max < length long)))
  shared name envelope valid bytes filled =
      let frag : List ℕ = url_text B envelope in
      let long : List ℕ = web_base ++ (name ++ (35 ∷ frag)) in
      let f = url_text-Fragment B laws T envelope bytes in
      let size = (valid_name-parts name valid).0 in
      elim (Bool-cases (ltb url_char_max (length long))) [
        | inl over ↦ rw over (
          omega (arith, length-append web_base name),
          inr (parse_link_bare B name valid, ltb→lt url_char_max (length long) over),
        )
        | inr short ↦
            rw short
              (ground arith, inl (parse_link_whole name frag envelope valid f.free f.back filled))
      ]

  -- For every valid name, every record that decodes from its base64 and every document, where name,
  -- record and document make an envelope of bytes, and a btoa and atob with the laws of base64: where
  -- the envelope has at most as many bytes as a call takes arguments, buildLink succeeds, its link has at
  -- most 8000 characters, and parseLink returns the name with exactly the envelope, or without one just
  -- where the link that holds it would be longer than that; where the envelope has more bytes, buildLink
  -- throws.
  pub parse_link-build_link :
      (limit : ℕ) (name record_b64 rec doc_json : List ℕ)
      → valid_name name ≡ true
      → B.atob (trim record_b64) ≡ some rec
      → Bytes (envelope_bytes T name rec (T.encode doc_json))
      → ((length (envelope_bytes T name rec (T.encode doc_json)) ≤ limit)
          × (url : List ℕ) × (build_link B T limit name record_b64 doc_json ≡ ok url)
          × (length url ≤ url_char_max)
          × ((parse_link B url
                ≡ ok (record {
                  name = name;
                  envelope = some (envelope_bytes T name rec (T.encode doc_json));
                }))
              ⊎ ((parse_link B url ≡ ok (record { name = name; envelope = none }))
                  × (url_char_max
                      < length (
                          web_base
                          ++ (name
                              ++ (35
                                  ∷ url_text B
                                      (envelope_bytes T name rec (T.encode doc_json)))))))))
        ⊎ ((limit < length (envelope_bytes T name rec (T.encode doc_json)))
            × (build_link B T limit name record_b64 doc_json ≡ err too_many_arguments))
  unfolding build_link
  parse_link-build_link limit name record_b64 rec doc_json valid decoded bytes =
      let doc : List ℕ = T.encode doc_json in
      let sizes = envelope_bytes-parts name rec doc in
      elim (encode_envelope-cases T limit name rec doc) [
        | inr (thrown, inl long) ↦ inr (omega (arith, sizes, long), rw (decoded, thrown) refl)
        | inr (thrown, inr (inl long)) ↦ inr (omega (arith, sizes, long), rw (decoded, thrown) refl)
        | inr (thrown, inr (inr long)) ↦ inr (omega (arith, sizes, long), rw (decoded, thrown) refl)
        | inl written ↦ elim (b64url-cases limit (envelope_bytes T name rec doc)) [
          | inr (over, thrown) ↦ inr (over, rw (decoded, written, thrown) refl)
          | inl (fits, passed) ↦
              let envelope : List ℕ = envelope_bytes T name rec doc in
              let long : List ℕ = web_base ++ (name ++ (35 ∷ url_text B envelope)) in
              let url : List ℕ =
                if ltb url_char_max (length long) then web_base ++ name else long in
              let (size, parsed) =
                shared name envelope valid bytes (envelope_bytes-length name rec doc) in
              inl (fits, url, rw (decoded, written, passed) refl, size, parsed)
        ]
      ]
