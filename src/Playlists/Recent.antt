-- ===== src/Playlists/Recent.antt =====
-- The bounded tables of packages/playlists-web/src/beacon.ts and playlistlist.ts: a Map from a string to
-- the second of its last entry, with at most `cap` keys. A Map is its entries in insertion order.
use trackerstream.Common.{
  ℕ, ◌-◌, ◌≤◌, ◌<◌, ◌≡◌, refl, sym, ap, ◌∙◌, false, Option, none, some, List, [], ◌∷◌, ◌++◌, leb,
  if◌then◌else◌, length, drop, arith, All, Bool-cases, inl, inr, length-append,
}
use trackerstream.Parse.Bytes.{Text, same_text}
use trackerstream.Dag.Holds.{same_text_self, same_text-eq}

abbrev pub Table : Type 0
Table = List (Text × ℕ)

-- `m.get(key)`
unfoldable pub find : Text → Table → Option ℕ
find key [] = none
find key (e ∷ es) = let rest = find key es in if same_text e.0 key then some e.1 else rest

-- `m.delete(key)`
unfoldable pub delete : Text → Table → Table
delete key [] = []
delete key (e ∷ es) = let rest = delete key es in if same_text e.0 key then rest else e ∷ rest

-- The key is put in anew, behind the others; a full table loses its first key.
unfoldable pub touch : ℕ → Text → ℕ → Table → Table
touch cap key now t =
    let others = delete key t in
    (if leb cap (length others) then drop 1 others else others) ++ ((key, now) ∷ [])

-- No entry has the key.
abbrev pub Lacks : Text → Table → Type 0
Lacks key t = All (λ e. same_text e.0 key ≡ false) t

-- No two entries have one key.
abbrev pub Unique : Table → Type 0
Unique [] = Unit {0}
Unique (e ∷ es) = Lacks e.0 es × Unique es

pub Lacks-delete : (key other : Text) (t : Table) → Lacks other t → Lacks other (delete key t)
unfolding delete
Lacks-delete key other [] h = tt
Lacks-delete key other (e ∷ es) (h, hs) = elim (Bool-cases (same_text e.0 key)) [
  | inl same ↦ rw same (Lacks-delete key other es hs)
  | inr apart ↦ rw apart (h, Lacks-delete key other es hs)
]

pub delete-Lacks : (key : Text) (t : Table) → Lacks key (delete key t)
unfolding delete
delete-Lacks key [] = tt
delete-Lacks key (e ∷ es) = elim (Bool-cases (same_text e.0 key)) [
  | inl same ↦ rw same (delete-Lacks key es)
  | inr apart ↦ rw apart (apart, delete-Lacks key es)
]

pub Unique-delete : (key : Text) (t : Table) → Unique t → Unique (delete key t)
unfolding delete
Unique-delete key [] u = tt
Unique-delete key (e ∷ es) (l, u) = elim (Bool-cases (same_text e.0 key)) [
  | inl same ↦ rw same (Unique-delete key es u)
  | inr apart ↦ rw apart (Lacks-delete key e.0 es l, Unique-delete key es u)
]

same_text_flip : (a b : Text) → same_text a b ≡ false → same_text b a ≡ false
same_text_flip a b h = elim (Bool-cases (same_text b a)) [
  | inl same ↦ cc (ap (λ t. same_text t b) (sym (same_text-eq b a same)) ∙ same_text_self b, h)
  | inr apart ↦ apart
]

Lacks-append :
    (other key : Text) (now : ℕ) (t : Table)
    → Lacks other t
    → same_text key other ≡ false
    → Lacks other (t ++ ((key, now) ∷ []))
Lacks-append other key now [] h k = (k, tt)
Lacks-append other key now (e ∷ es) (h, hs) k = (h, Lacks-append other key now es hs k)

Unique-append :
    (key : Text) (now : ℕ) (t : Table) → Unique t → Lacks key t → Unique (t ++ ((key, now) ∷ []))
Unique-append key now [] u l = (tt, tt)
Unique-append key now (e ∷ es) (a, u) (l, ls) =
    (Lacks-append e.0 key now es a (same_text_flip e.0 key l), Unique-append key now es u ls)

-- The bound and the keys of a table.
abbrev pub Bounded : ℕ → Table → Type 0
Bounded cap t = (length t ≤ cap) × Unique t

length-delete : (key : Text) (t : Table) → length (delete key t) ≤ length t
unfolding delete
length-delete key [] = omega arith
length-delete key (e ∷ es) = elim (Bool-cases (same_text e.0 key)) [
  | inl same ↦ rw same (omega (arith, length-delete key es))
  | inr apart ↦ rw apart (omega (arith, length-delete key es))
]

drop_one-Unique :
    (key : Text) (t : Table) → Unique t → Lacks key t → Unique (drop 1 t) × Lacks key (drop 1 t)
drop_one-Unique key [] u l = (tt, tt)
drop_one-Unique key (e ∷ es) (a, u) (l, ls) = (u, ls)

length-drop_one : (t : Table) → length (drop 1 t) ≡ length t - 1
length-drop_one [] = omega arith
length-drop_one (e ∷ es) = omega arith

pub touch-Bounded :
    (cap : ℕ) (key : Text) (now : ℕ) (t : Table)
    → 1 ≤ cap
    → Bounded cap t
    → Bounded cap (touch cap key now t)
unfolding touch
touch-Bounded cap key now t one (size, u) =
    let others : Table = delete key t in
    let u' = Unique-delete key t u in
    let l' = delete-Lacks key t in
    elim (Bool-cases (leb cap (length others))) [
      | inl full ↦
          let (u'', l'') = drop_one-Unique key others u' l' in
          rw full (
            omega (
              arith,
              length-append (drop 1 others) ((key, now) ∷ []),
              length-drop_one others,
              length-delete key t,
            ),
            Unique-append key now (drop 1 others) u'' l'',
          )
      | inr room ↦
          let few : length others < cap = ground arith in
          rw room (
            omega (arith, length-append others ((key, now) ∷ [])),
            Unique-append key now others u' l',
          )
    ]

find-Lacks : (key : Text) (t : Table) → Lacks key t → find key t ≡ none
unfolding find
find-Lacks key [] l = refl
find-Lacks key (e ∷ es) (l, ls) = rw l (find-Lacks key es ls)

pub find-snoc :
    (key other : Text) (now : ℕ) (t : Table)
    → Lacks key t
    → find other (t ++ ((key, now) ∷ [])) ≡ (if same_text key other then some now else find other t)
unfolding find
find-snoc key other now [] l = refl
find-snoc key other now (e ∷ es) (l, ls) = elim (Bool-cases (same_text key other)) [
  | inl same ↦
      let same' = same_text-eq key other same in
      let miss : same_text e.0 other ≡ false = ap (same_text e.0) (sym same') ∙ l in
      rw (same, miss) (find-snoc key other now es ls ∙ rw same refl)
  | inr apart ↦ rw apart (
      ap (λ r. if same_text e.0 other then some e.1 else r)
        (find-snoc key other now es ls ∙ rw apart refl))
]

pub find-delete :
    (key other : Text) (t : Table)
    → same_text key other ≡ false
    → find other (delete key t) ≡ find other t
unfolding find delete
find-delete key other [] h = refl
find-delete key other (e ∷ es) h = elim (Bool-cases (same_text e.0 key)) [
  | inl same ↦
      let miss : same_text e.0 other ≡ false =
        ap (λ k. same_text k other) (same_text-eq e.0 key same) ∙ h in
      rw (same, miss) (find-delete key other es h)
  | inr apart ↦
      rw apart (ap (λ r. if same_text e.0 other then some e.1 else r) (find-delete key other es h))
]

-- A table that has room forgets nothing.
pub find-touch :
    (cap : ℕ) (key other : Text) (now : ℕ) (t : Table)
    → length (delete key t) < cap
    → find other (touch cap key now t) ≡ (if same_text key other then some now else find other t)
unfolding touch
find-touch cap key other now t room =
    let test : leb cap (length (delete key t)) ≡ false = ground arith in
    rw test (find-snoc key other now (delete key t) (delete-Lacks key t) ∙ tail key other now t)
  where
    tail :
        (key other : Text) (now : ℕ) (t : Table)
        → ◌≡◌ {A = Option ℕ}
            (if same_text key other then some now else find other (delete key t))
            (if same_text key other then some now else find other t)
    tail key other now t = elim (Bool-cases (same_text key other)) [
      | inl same ↦ rw same refl
      | inr apart ↦ rw apart (find-delete key other t apart)
    ]

-- The key that was put in is there, at its time, whether the table was full or not.
pub find-touch_self :
    (cap : ℕ) (key : Text) (now : ℕ) (t : Table)
    → Unique t
    → find key (touch cap key now t) ≡ some now
unfolding touch
find-touch_self cap key now t u =
    let others : Table = delete key t in
    let l = delete-Lacks key t in
    let (_, l') = drop_one-Unique key others (Unique-delete key t u) l in
    elim (Bool-cases (leb cap (length others))) [
      | inl full ↦ rw full (find-snoc key key now (drop 1 others) l' ∙ rw (same_text_self key) refl)
      | inr room ↦ rw room (find-snoc key key now others l ∙ rw (same_text_self key) refl)
    ]
