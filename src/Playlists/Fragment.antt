-- ===== src/Playlists/Fragment.antt =====
-- The fragment of a deep link in packages/playlists-web/src/link.ts, and how parseLink takes a link apart.
use trackerstream.Common.{
  ℕ, ◌+◌, ◌-◌, ◌%◌, ◌≤◌, ◌<◌, ◌≡◌, refl, ap, ◌∙◌, sym, true, false, none, some, List, [], ◌∷◌, ◌++◌,
  ◌==◌, length, drop, replicate, All, arith, drop-append, Bool-cases, inl, inr,
}
use trackerstream.Common.Result.{ok}
use trackerstream.Playlists.Wire.{TextCodec, name_max}
use trackerstream.Playlists.Url.{
  Base64, web_base, scheme_base, is_space, strip_end, trim, starts_with, all_alnum, valid_name,
  to_url, from_url, each, url_text, unb64url, behind_base, name_and_fragment, parse_link,
}
use trackerstream.Playlists.Strip.{
  Free, none_of-Free, Free-append, Free-weaken, strip_end-Free, strip_end-append, trim-Free,
  starts_with-append, split_hash-append, split_hash-Free, apart, all_alnum-Free, Alphabet,
  from_url-to_url, fragment_apart, to_url-Free, each-append, each-replicate,
}

-- What btoa writes: letters of the alphabet and at most two signs of padding, up to a multiple of four.
pub record Padded (text : List ℕ) : Type 0 where
  pub body : List ℕ
  pub padding : ℕ
  pub shape : text ≡ body ++ replicate padding 61
  pub few : padding ≤ 2
  pub whole : (length body + padding) % 4 ≡ 0
  pub letters : Alphabet body

abbrev pub Bytes : List ℕ → Type 0
Bytes bs = All (λ x. x < 256) bs

-- What the development asks of btoa and atob, on bytes.
pub record Base64Laws (B : Base64) : Type 0 where
  pub btoa_empty : B.btoa [] ≡ []
  pub atob_back : (bs : List ℕ) → Bytes bs → B.atob (B.btoa bs) ≡ some bs
  pub btoa_padded : (bs : List ℕ) → Bytes bs → Padded (B.btoa bs)

module _ (B : Base64) (laws : Base64Laws B) (T : TextCodec) where
  -- The fragment of an envelope: no unit in it disturbs the parser, and it decodes to the envelope.
  pub record Fragment (bs : List ℕ) : Type 0 where
    pub free : Free fragment_apart (url_text B bs)
    pub back : unb64url B (url_text B bs) ≡ some bs

  pub url_text-Fragment : (bs : List ℕ) → Bytes bs → Fragment bs
  unfolding url_text unb64url
  url_text-Fragment bs h =
      let p = laws.btoa_padded bs h in
      let url : List ℕ = each to_url p.body in
      let free = to_url-Free p.body p.letters in
      let no_padding : Free (λ c. c == 61) url =
        Free-weaken fragment_apart (λ c. c == 61) url (λ c e. ground arith) free in
      let stripped : strip_end (λ c. c == 61) (each to_url (B.btoa bs)) ≡ url =
        ap (λ t. strip_end (λ c. c == 61) (each to_url t)) p.shape
        ∙ ap (strip_end (λ c. c == 61)) (
            each-append to_url p.body (replicate p.padding 61)
            ∙ ap (λ t. url ++ t) (each-replicate to_url p.padding 61 refl))
        ∙ strip_end-append (λ c. c == 61) url p.padding 61 no_padding refl in
      let std : each from_url url ≡ p.body = from_url-to_url p.body p.letters in
      let pad : (4 - length p.body % 4) % 4 ≡ p.padding = omega (arith, p.few, p.whole) in
      record {
        free = rw stripped free;
        back =
            ap (unb64url B) stripped
            ∙ ap (λ t. B.atob (t ++ replicate ((4 - length t % 4) % 4) 61)) std
            ∙ ap (λ k. B.atob (p.body ++ replicate k 61)) pad
            ∙ ap B.atob (sym p.shape)
            ∙ laws.atob_back bs h;
      }

pub valid_name-parts :
    (name : List ℕ) → valid_name name ≡ true → (length name ≤ name_max) × Free apart name
unfolding valid_name
valid_name-parts name h = elim (Bool-cases (all_alnum name)) [
  | inr other ↦ absurd (let no : ⊥ = ground arith in no)
  | inl letters ↦ (ground arith, all_alnum-Free name letters)
]

web_base-Free : Free is_space web_base
web_base-Free = none_of-Free is_space web_base refl

scheme_base-web_base : (rest : List ℕ) → starts_with scheme_base (web_base ++ rest) ≡ false
unfolding starts_with
scheme_base-web_base rest = refl

behind_base-web_base :
    (rest : List ℕ) → Free is_space rest → behind_base (trim (web_base ++ rest)) ≡ ok rest
unfolding behind_base
behind_base-web_base rest h =
    let trimmed : trim (web_base ++ rest) ≡ web_base ++ rest =
      trim-Free 104 (drop 1 web_base ++ rest)
        (Free-append is_space web_base rest web_base-Free h) in
    let other : starts_with scheme_base (web_base ++ rest) ≡ false = scheme_base-web_base rest in
    let own : starts_with web_base (web_base ++ rest) ≡ true = starts_with-append web_base rest in
    rw (trimmed, other, own) (ap ok (drop-append web_base rest))

module _ (name : List ℕ) (valid : valid_name name ≡ true) where
  name-Free : Free is_space name
  name-Free = Free-weaken apart is_space name (λ c e. ground arith) (valid_name-parts name valid).1

  name_no_hash : Free (λ c. c == 35) name
  name_no_hash =
      Free-weaken apart (λ c. c == 35) name (λ c e. ground arith) (valid_name-parts name valid).1

  name_slash : strip_end (λ c. c == 47) name ≡ name
  name_slash =
      strip_end-Free (λ c. c == 47) name
        (Free-weaken apart (λ c. c == 47) name (λ c e. ground arith)
          (valid_name-parts name valid).1)

  parts_bare : name_and_fragment name ≡ (name, [])
  unfolding name_and_fragment
  parts_bare =
      rw (split_hash-Free name name_no_hash, name_and_fragment) (ap (λ n. (n, [])) name_slash)

  parts_full : (frag : List ℕ) → name_and_fragment (name ++ (35 ∷ frag)) ≡ (name, frag)
  unfolding name_and_fragment
  parts_full frag =
      rw (split_hash-append name frag name_no_hash, name_and_fragment)
        (ap (λ n. (n, frag)) name_slash)

module _ (B : Base64) (name : List ℕ) (valid : valid_name name ≡ true) where
  pub parse_link_bare :
      parse_link B (web_base ++ name) ≡ ok (record { name = name; envelope = none })
  unfolding parse_link
  parse_link_bare =
      simp (behind_base-web_base name (name-Free name valid), parts_bare name valid, valid)

  pub parse_link_full :
      (c : ℕ) (cs envelope : List ℕ)
      → Free fragment_apart (c ∷ cs)
      → unb64url B (c ∷ cs) ≡ some envelope
      → parse_link B (web_base ++ (name ++ (35 ∷ c ∷ cs)))
        ≡ ok (record { name = name; envelope = some envelope })
  unfolding parse_link
  parse_link_full c cs envelope free back =
      let spaceless : Free is_space (c ∷ cs) =
        Free-weaken fragment_apart is_space (c ∷ cs) (λ d e. ground arith) free in
      let rest = Free-append is_space name (35 ∷ c ∷ cs) (name-Free name valid) (refl, spaceless) in
      simp (
        behind_base-web_base (name ++ (35 ∷ c ∷ cs)) rest,
        parts_full name valid (c ∷ cs),
        valid,
        back,
      )
