-- ===== src/Parse/Bytes.antt =====
-- The readers and the data types of packages/repack/src/parse.ts.
-- A `Uint8Array` is the list of its bytes. A read past the end gives `undefined`, which counts as 0
-- under `|` and `<<`, so it reads 0 here. The bytes that `|` joins lie in disjoint bits, so their
-- join is written as a sum.
use Prim.Native.Char.{code}
use Prim.Native.String.{String}
use trackerstream.Common.{
  ℕ, ◌+◌, ◌-◌, ◌*◌, Bool, true, false, ◌&&◌, ◌||◌, Option, none, some, List, [], ◌∷◌, leb, ◌==◌,
  if◌then◌else◌, get_or,
}

-- The formats of the source's union, "mod" being a reserved word here.
pub data Format : Type 0 where
  amiga_mod it s3m xm mptm mo3 : Format

-- Offset and length in bytes. A length that the source computes as `b.length - off` below 0 reads 0
-- here; both are dropped by the test `r.length > 0` before a region is used.
pub record SampleRegion : Type 0 where
  pub offset : ℕ
  pub length : ℕ

-- Where a slot is compressed: the header's offset, and the compressed span if it is known.
pub record Compressed : Type 0 where
  pub header_offset : ℕ
  pub compressed_bytes : Option ℕ

pub record SampleSlot : Type 0 where
  pub index : ℕ
  pub offset : ℕ
  pub length : ℕ
  pub bit_depth : ℕ
  pub channels : ℕ
  pub compressed : Option Compressed

abbrev pub byte_at : List ℕ → ℕ → ℕ
byte_at b o = get_or b o 0

abbrev pub u16le : List ℕ → ℕ → ℕ
u16le b o = byte_at b o + byte_at b (o + 1) * 256

abbrev pub u16be : List ℕ → ℕ → ℕ
u16be b o = byte_at b o * 256 + byte_at b (o + 1)

abbrev pub u32le : List ℕ → ℕ → ℕ
u32le b o =
    byte_at b o + byte_at b (o + 1) * 256 + byte_at b (o + 2) * 65536 + byte_at b (o + 3) * 16777216

abbrev pub tag4 : List ℕ → ℕ → List ℕ
tag4 b o = byte_at b o ∷ byte_at b (o + 1) ∷ byte_at b (o + 2) ∷ byte_at b (o + 3) ∷ []

-- A string of JavaScript: its code units.
abbrev pub Text : Type 0
Text = List ℕ

abbrev pub codes : String → List ℕ
codes String.[] = []
codes (String.◌∷◌ c s) = code c ∷ codes s

-- `===` on strings.
unfoldable pub same_text : List ℕ → List ℕ → Bool
same_text [] [] = true
same_text [] (y ∷ ys) = false
same_text (x ∷ xs) [] = false
same_text (x ∷ xs) (y ∷ ys) = x == y && same_text xs ys

is_digit : ℕ → Bool
is_digit c = leb b'0' c && leb c b'9'

-- /^(\d)CHN$/
digit_chn : List ℕ → Option ℕ
digit_chn [] = none
digit_chn (d ∷ r) = if is_digit d && same_text r (codes "CHN") then some (d - b'0') else none

-- /^(\d\d)CH$/ and /^(\d\d)CN$/
two_digits : List ℕ → List ℕ → Option ℕ
two_digits word [] = none
two_digits word (d ∷ []) = none
two_digits word (d ∷ e ∷ r) =
    if is_digit d && is_digit e && same_text r word
    then some ((d - b'0') * 10 + (e - b'0'))
    else none

-- /^TDZ(\d)$/
tdz_digit : List ℕ → Option ℕ
tdz_digit (a ∷ b ∷ c ∷ d ∷ []) =
    if same_text (a ∷ b ∷ c ∷ []) (codes "TDZ") && is_digit d then some (d - b'0') else none
tdz_digit _ = none

or_else : Option ℕ → ℕ → ℕ
or_else (some n) rest = n
or_else none rest = rest

unfoldable pub mod_channels : List ℕ → ℕ
unfolding same_text is_digit digit_chn two_digits tdz_digit or_else
mod_channels t =
    if same_text t (codes "M.K.")
      || same_text t (codes "M!K!")
      || same_text t (codes "FLT4")
      || same_text t (codes "4CHN")
    then 4
    else if same_text t (codes "6CHN")
    then 6
    else if same_text t (codes "FLT8")
        || same_text t (codes "8CHN")
        || same_text t (codes "OCTA")
        || same_text t (codes "CD81")
    then 8
    else or_else (digit_chn t) (
        or_else (two_digits (codes "CH") t)
          (or_else (two_digits (codes "CN") t) (or_else (tdz_digit t) 0)))
