-- ===== src/Playlists/Url.antt =====
-- The deep links of packages/playlists-web/src/link.ts: validName, buildLink and parseLink. A string is
-- the list of its UTF-16 units.
use trackerstream.Common.{
  ℕ, ◌-◌, ◌%◌, Bool, true, false, ◌&&◌, ◌||◌, Option, none, some, List, [], ◌∷◌, ◌++◌, ltb, leb,
  ◌==◌, if◌then◌else◌, length, drop, replicate,
}
use trackerstream.Common.Result.{Result, ok, err, ◌>>=◌, ◌>>◌, guard, or_throw}
use trackerstream.Parse.Bytes.{codes}
use trackerstream.Playlists.Wire.{TextCodec, name_max}
use trackerstream.Playlists.Link.{
  LinkFault, not_a_link, bad_name, bad_base64, spread, encode_envelope,
}

-- URL_CHAR_MAX
abbrev pub url_char_max : ℕ
url_char_max = 8000

-- WEB_BASE
abbrev pub web_base : List ℕ
web_base = codes "https://trackerstream.xyz/p/"

-- SCHEME_BASE
abbrev pub scheme_base : List ℕ
scheme_base = codes "trackerstream://playlist/"

-- The browser's btoa and atob, on the bytes of a binary string.
pub record Base64 : Type 0 where
  pub btoa : List ℕ → List ℕ
  pub atob : List ℕ → Option (List ℕ)

abbrev pub within : ℕ → ℕ → ℕ → Bool
within low high c = leb low c && leb c high

-- `[A-Za-z0-9]`
abbrev pub is_alnum : ℕ → Bool
is_alnum c = within 65 90 c || within 97 122 c || within 48 57 c

-- The white space and line ends that `trim` takes off.
abbrev pub is_space : ℕ → Bool
is_space c =
    within 9 13 c
    || c == 32
    || c == 160
    || c == 0x1680
    || within 0x2000 0x200a c
    || c == 0x2028
    || c == 0x2029
    || c == 0x202f
    || c == 0x205f
    || c == 0x3000
    || c == 0xfeff

-- The list without its longest end of such units.
unfoldable pub strip_end : (ℕ → Bool) → List ℕ → List ℕ
strip_end p [] = []
strip_end p (c ∷ cs) = elim (strip_end p cs) [
  | [] ↦ if p c then [] else c ∷ []
  | d ∷ ds ↦ c ∷ d ∷ ds
]

unfoldable pub strip_start : (ℕ → Bool) → List ℕ → List ℕ
strip_start p [] = []
strip_start p (c ∷ cs) = let rest = strip_start p cs in if p c then rest else c ∷ cs

unfoldable pub trim : List ℕ → List ℕ
trim s = strip_end is_space (strip_start is_space s)

unfoldable pub starts_with : List ℕ → List ℕ → Bool
starts_with [] s = true
starts_with (p ∷ ps) [] = false
starts_with (p ∷ ps) (c ∷ cs) = p == c && starts_with ps cs

-- The parts before and behind the first `#`.
unfoldable pub split_hash : List ℕ → Option (List ℕ × List ℕ)
split_hash [] = none
split_hash (c ∷ cs) =
    let rest = split_hash cs in
    if c == 35
    then some ([], cs)
    else elim rest [ none ↦ none | some (before, behind) ↦ some (c ∷ before, behind) ]

unfoldable pub all_alnum : List ℕ → Bool
all_alnum [] = true
all_alnum (c ∷ cs) = is_alnum c && all_alnum cs

unfoldable pub valid_name : List ℕ → Bool
valid_name n = ltb 0 (length n) && leb (length n) name_max && all_alnum n

-- `+` to `-` and `/` to `_`, and back.
abbrev pub to_url : ℕ → ℕ
to_url c = if c == 43 then 45 else if c == 47 then 95 else c

abbrev pub from_url : ℕ → ℕ
from_url c = if c == 45 then 43 else if c == 95 then 47 else c

unfoldable pub each : (ℕ → ℕ) → List ℕ → List ℕ
each f [] = []
each f (c ∷ cs) = f c ∷ each f cs

pub record PlaylistLink : Type 0 where
  pub name : List ℕ
  pub envelope : Option (List ℕ)

-- `rest`: the URL behind one of the two bases.
unfoldable pub behind_base : List ℕ → Result LinkFault (List ℕ)
behind_base u =
    if starts_with scheme_base u
    then ok (drop (length scheme_base) u)
    else if starts_with web_base u
    then ok (drop (length web_base) u)
    else err not_a_link

unfoldable pub name_and_fragment : List ℕ → List ℕ × List ℕ
name_and_fragment rest = elim (split_hash rest) [
  | none ↦ (strip_end (λ c. c == 47) rest, [])
  | some (before, behind) ↦ (strip_end (λ c. c == 47) before, behind)
]

module _ (B : Base64) where
  -- The text of `b64url`, once the bytes have passed as arguments.
  unfoldable pub url_text : List ℕ → List ℕ
  url_text b = strip_end (λ c. c == 61) (each to_url (B.btoa b))

  unfoldable pub b64url : ℕ → List ℕ → Result LinkFault (List ℕ)
  b64url limit b = do units ← spread limit b; ok (url_text units)

  unfoldable pub unb64url : List ℕ → Option (List ℕ)
  unb64url s = let pad = each from_url s in B.atob (pad ++ replicate ((4 - length pad % 4) % 4) 61)

  module _ (T : TextCodec) where
    -- `limit` is the number of arguments that a call takes.
    unfoldable pub build_link : ℕ → List ℕ → List ℕ → List ℕ → Result LinkFault (List ℕ)
    build_link limit name record_b64 doc_json = do
      rec ← or_throw (B.atob (trim record_b64)) bad_base64
      envelope ← encode_envelope T limit name rec (T.encode doc_json)
      frag ← b64url limit envelope
      let url = web_base ++ (name ++ (35 ∷ frag))
      ok (if ltb url_char_max (length url) then web_base ++ name else url)

  unfoldable pub parse_link : List ℕ → Result LinkFault PlaylistLink
  parse_link url = do
    rest ← behind_base (trim url)
    let (name, frag) = name_and_fragment rest
    guard (valid_name name) bad_name
    elim frag [
      | [] ↦ ok (record { name = name; envelope = none })
      | c ∷ cs ↦ do
        envelope ← or_throw (unb64url (c ∷ cs)) bad_base64
        ok (record { name = name; envelope = some envelope })
    ]
