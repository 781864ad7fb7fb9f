-- ===== src/Tests/Links.antt =====
-- The theorem on packages/playlists-web/src/link.ts, with a text code that has the laws asked of base64.
use trackerstream.Common.{
  ℕ, ◌+◌, ◌-◌, ◌*◌, ◌/◌, ◌%◌, ◌≤◌, ◌<◌, ◌≡◌, refl, ap, Option, none, some, List, [], ◌∷◌, ◌++◌,
  length, arith, ◌⊎◌, append-nil, sym, true,
}
use trackerstream.Common.Result.{ok, err}
use trackerstream.Parse.Bytes.{codes}
use trackerstream.Playlists.Wire.{TextCodec, framed}
use trackerstream.Playlists.Varint.{uvarint, uvarint_from}
use trackerstream.Playlists.Link.{too_many_arguments, envelope_bytes}
use trackerstream.Playlists.Url.{
  Base64, url_char_max, web_base, valid_name, all_alnum, trim, strip_end, strip_start, url_text,
  build_link, parse_link,
}
use trackerstream.Playlists.Strip.{in_alphabet, Alphabet}
use trackerstream.Playlists.Fragment.{Bytes, Base64Laws}
use trackerstream.Playlists.Share.{parse_link-build_link}

abbrev plain : TextCodec
plain = record { encode = λ s. s; decode = λ b. b }

-- Four letters for each byte: its two digits to the base 16, and twice the letter A.
abbrev spell : List ℕ → List ℕ
spell [] = []
spell (x ∷ xs) = (65 + x / 16) ∷ (65 + x % 16) ∷ 65 ∷ 65 ∷ spell xs

abbrev unspell : List ℕ → Option (List ℕ)
unspell [] = some []
unspell (a ∷ b ∷ c ∷ d ∷ cs) = elim (unspell cs) [
  | none ↦ none
  | some xs ↦ some (((a - 65) * 16 + (b - 65)) ∷ xs)
]
unspell _ = none

abbrev spelled : Base64
spelled = record { btoa = spell; atob = unspell }

unspell-spell : (bs : List ℕ) → Bytes bs → unspell (spell bs) ≡ some bs
unspell-spell [] h = refl
unspell-spell (x ∷ xs) (h, hs) =
    let byte : (65 + x / 16 - 65) * 16 + (65 + x % 16 - 65) ≡ x = omega arith in
    rw (unspell-spell xs hs) (ap (λ b. some (b ∷ xs)) byte)

letter : (n : ℕ) → n < 16 → in_alphabet (65 + n) ≡ true
letter n h = ground arith

spell-Alphabet : (bs : List ℕ) → Bytes bs → Alphabet (spell bs)
spell-Alphabet [] h = tt
spell-Alphabet (x ∷ xs) (h, hs) = (
  letter (x / 16) (omega arith),
  (letter (x % 16) (omega arith), (refl, (refl, spell-Alphabet xs hs))),
)

length-spell : (bs : List ℕ) → length (spell bs) ≡ 4 * length bs
length-spell [] = refl
length-spell (x ∷ xs) = omega (arith, length-spell xs)

spelled_laws : Base64Laws spelled
spelled_laws = record {
  btoa_empty = refl;
  atob_back = unspell-spell;
  btoa_padded = λ bs h. record {
    body = spell bs;
    padding = 0;
    shape = sym (append-nil (spell bs));
    few = omega arith;
    whole = omega (arith, length-spell bs);
    letters = spell-Alphabet bs h;
  };
}

abbrev name : List ℕ
name = codes "k51q"

name_valid : valid_name name ≡ true
unfolding valid_name all_alnum
name_valid = refl

-- The text of the bytes 1 and 2, with a space behind it.
abbrev record_text : List ℕ
record_text = codes "ABAAACAA "

record_read : unspell (trim record_text) ≡ some (1 ∷ 2 ∷ [])
unfolding trim strip_end strip_start
record_read = refl

abbrev envelope : List ℕ
envelope = envelope_bytes plain name (1 ∷ 2 ∷ []) (123 ∷ 125 ∷ [])

envelope-Bytes : Bytes envelope
unfolding framed uvarint uvarint_from
envelope-Bytes = omega arith

parse_link-build_link_example :
    ((length envelope ≤ 65535)
      × (url : List ℕ) × (build_link spelled plain 65535 name record_text (123 ∷ 125 ∷ []) ≡ ok url)
      × (length url ≤ url_char_max)
      × ((parse_link spelled url ≡ ok (record { name = name; envelope = some envelope }))
          ⊎ ((parse_link spelled url ≡ ok (record { name = name; envelope = none }))
              × (url_char_max < length (web_base ++ (name ++ (35 ∷ url_text spelled envelope)))))))
    ⊎ ((65535 < length envelope)
        × (build_link spelled plain 65535 name record_text (123 ∷ 125 ∷ [])
            ≡ err too_many_arguments))
parse_link-build_link_example =
    parse_link-build_link spelled spelled_laws plain 65535 name record_text (1 ∷ 2 ∷ [])
      (123 ∷ 125 ∷ []) name_valid record_read envelope-Bytes
