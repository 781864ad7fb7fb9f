-- ===== src/Playlists/Distinct.antt =====
-- A table whose keys are among some names has no more entries than there are names.
use trackerstream.Common.{
  suc, ◌≤◌, ◌<◌, ◌≡◌, refl, sym, ap, ◌∙◌, Bool, true, false, ◌||◌, List, [], ◌∷◌, if◌then◌else◌,
  length, arith, All, Bool-cases, inl, inr,
}
use trackerstream.Parse.Bytes.{Text, same_text}
use trackerstream.Dag.Holds.{same_text-eq}
use trackerstream.Playlists.Recent.{Table, delete, Lacks, Unique, delete-Lacks, Unique-delete}

abbrev pub member : Text → List Text → Bool
member x [] = false
member x (y ∷ ys) = same_text x y || member x ys

-- Without the first occurrence.
remove : Text → List Text → List Text
remove x [] = []
remove x (y ∷ ys) = let rest = remove x ys in if same_text x y then ys else y ∷ rest

length-remove :
    (x : Text) (ys : List Text) → member x ys ≡ true → suc (length (remove x ys)) ≡ length ys
unfolding remove
length-remove x [] h = cc
length-remove x (y ∷ ys) h = elim (Bool-cases (same_text x y)) [
  | inl same ↦ rw same refl
  | inr apart ↦ rw apart (ap suc (length-remove x ys (rw apart at h)))
]

member-remove :
    (x z : Text) (ys : List Text)
    → same_text z x ≡ false
    → member z ys ≡ true
    → member z (remove x ys) ≡ true
unfolding remove
member-remove x z [] n h = cc
member-remove x z (y ∷ ys) n h = elim (Bool-cases (same_text x y)) [
  | inl same ↦
      let miss : same_text z y ≡ false = ap (same_text z) (sym (same_text-eq x y same)) ∙ n in
      rw same (rw miss at h)
  | inr apart ↦ elim (Bool-cases (same_text z y)) [
    | inl hit ↦ rw (apart, hit) refl
    | inr miss ↦ rw (apart, miss) (member-remove x z ys n (rw miss at h))
  ]
]

-- The keys of the table are among the names.
abbrev pub Among : List Text → Table → Type 0
Among names t = All (λ e. member e.0 names ≡ true) t

Among-remove :
    (x : Text) (names : List Text) (t : Table)
    → Lacks x t
    → Among names t
    → Among (remove x names) t
Among-remove x names [] l a = tt
Among-remove x names (e ∷ es) (l, ls) (a, more) =
    (member-remove x e.0 names l a, Among-remove x names es ls more)

pub length-Among :
    (names : List Text) (t : Table) → Unique t → Among names t → length t ≤ length names
length-Among names [] u a = omega arith
length-Among names (e ∷ es) (l, u) (a, more) = omega (
  arith,
  length-remove e.0 names a,
  length-Among (remove e.0 names) es u (Among-remove e.0 names es l more),
)

pub Among-delete :
    (key : Text) (names : List Text) (t : Table) → Among names t → Among names (delete key t)
unfolding delete
Among-delete key names [] a = tt
Among-delete key names (e ∷ es) (a, more) = elim (Bool-cases (same_text e.0 key)) [
  | inl same ↦ rw same (Among-delete key names es more)
  | inr apart ↦ rw apart (a, Among-delete key names es more)
]

-- Without a name's entry there is room for it.
pub delete-Among :
    (key : Text) (names : List Text) (t : Table)
    → member key names ≡ true
    → Unique t
    → Among names t
    → length (delete key t) < length names
delete-Among key names t h u a =
    let gone =
      Among-remove key names (delete key t) (delete-Lacks key t) (Among-delete key names t a) in
    omega (
      arith,
      length-remove key names h,
      length-Among (remove key names) (delete key t) (Unique-delete key t u) gone,
    )
