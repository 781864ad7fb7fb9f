-- ===== src/Playlists/Cooldown.antt =====
-- The class ReannounceCooldown of packages/playlists-web/src/playlistlist.ts; its state is the table `at`.
use trackerstream.Common.{
  ℕ, ◌+◌, ◌≤◌, ◌<◌, ◌≡◌, refl, sym, ap, ◌∙◌, Bool, true, false, Option, none, some, List, [], ◌∷◌,
  ltb, if◌then◌else◌, length, arith, All, Bool-cases, inl, inr, ◌++◌, leb,
}
use trackerstream.Parse.Bytes.{Text, same_text}
use trackerstream.Playlists.Recent.{
  Table, find, delete, touch, Unique, Bounded, touch-Bounded, find-touch,
}
use trackerstream.Playlists.Distinct.{member, Among, delete-Among, Among-delete, length-Among}

-- WANT_COOLDOWN_SECS
abbrev pub want_cooldown_secs : ℕ
want_cooldown_secs = 30

-- COOLDOWN_TABLE_MAX
abbrev pub cooldown_table_max : ℕ
cooldown_table_max = 1024

-- `last !== undefined && nowSecs - last < WANT_COOLDOWN_SECS`
abbrev pub too_soon : Option ℕ → ℕ → Bool
too_soon none now = false
too_soon (some last) now = ltb now (last + want_cooldown_secs)

-- `allow`: the answer and the next state.
unfoldable pub allow : Text → ℕ → Table → Bool × Table
allow name now at =
    if too_soon (find name at) now
    then (false, at)
    else (true, touch cooldown_table_max name now at)

-- A run of calls: the answers, and the state behind them.
unfoldable pub allow_all : List (Text × ℕ) → Table → List Bool × Table
allow_all [] at = ([], at)
allow_all (c ∷ calls) at =
    let one = allow c.0 c.1 at in let rest = allow_all calls one.1 in (one.0 ∷ rest.0, rest.1)

-- The same guard with a memory of every name.
abbrev pub Memory : Type 0
Memory = Text → Option ℕ

abbrev pub remember : Text → ℕ → Memory → Memory
remember name now seen other = if same_text name other then some now else seen other

unfoldable pub ideal : List (Text × ℕ) → Memory → List Bool
ideal [] seen = []
ideal (c ∷ calls) seen =
    let refused = ideal calls seen in
    let granted = ideal calls (remember c.0 c.1 seen) in
    if too_soon (seen c.0) c.1 then false ∷ refused else true ∷ granted

allow-Bounded :
    (name : Text) (now : ℕ) (at : Table)
    → Bounded cooldown_table_max at
    → Bounded cooldown_table_max (allow name now at).1
unfolding allow
allow-Bounded name now at b = elim (Bool-cases (too_soon (find name at) now)) [
  | inl soon ↦ rw soon b
  | inr late ↦ rw late (touch-Bounded cooldown_table_max name now at (omega arith) b)
]

allow_all-Bounded_from :
    (calls : List (Text × ℕ)) (at : Table)
    → Bounded cooldown_table_max at
    → Bounded cooldown_table_max (allow_all calls at).1
unfolding allow_all
allow_all-Bounded_from [] at b = b
allow_all-Bounded_from (c ∷ calls) at b =
    allow_all-Bounded_from calls (allow c.0 c.1 at).1 (allow-Bounded c.0 c.1 at b)

-- After any calls of a new cooldown guard, its table holds at most 1024 names, and none twice.
pub allow_all-Bounded :
    (calls : List (Text × ℕ)) → Bounded cooldown_table_max (allow_all calls []).1
allow_all-Bounded calls = allow_all-Bounded_from calls [] (omega arith, tt)

-- The table agrees with the memory, and its keys are among the names.
record Agrees (names : List Text) (at : Table) (seen : Memory) : Type 0 where
  pub unique : Unique at
  pub among : Among names at
  pub same : (name : Text) → find name at ≡ seen name

Among-append :
    (names : List Text) (key : Text) (now : ℕ) (t : Table)
    → Among names t
    → member key names ≡ true
    → Among names (t ++ ((key, now) ∷ []))
Among-append names key now [] a h = (h, tt)
Among-append names key now (e ∷ es) (a, more) h = (a, Among-append names key now es more h)

Among-touch :
    (names : List Text) (key : Text) (now : ℕ) (t : Table)
    → length (delete key t) < cooldown_table_max
    → Among names t
    → member key names ≡ true
    → Among names (touch cooldown_table_max key now t)
unfolding touch
Among-touch names key now t room a h =
    let test : leb cooldown_table_max (length (delete key t)) ≡ false = ground arith in
    rw test (Among-append names key now (delete key t) (Among-delete key names t a) h)

Agrees-touch :
    (names : List Text) (key : Text) (now : ℕ) (at : Table) (seen : Memory)
    → length names ≤ cooldown_table_max
    → member key names ≡ true
    → Agrees names at seen
    → Agrees names (touch cooldown_table_max key now at) (remember key now seen)
Agrees-touch names key now at seen few h a =
    let less = delete-Among key names at h a.unique a.among in
    let room : length (delete key at) < cooldown_table_max = omega arith in
    let size : length at ≤ cooldown_table_max =
      omega (arith, length-Among names at a.unique a.among) in
    record {
      unique = (touch-Bounded cooldown_table_max key now at (omega arith) (size, a.unique)).1;
      among = Among-touch names key now at room a.among h;
      same = λ name.
          find-touch cooldown_table_max key name now at room
          ∙ ap (λ r. if same_text key name then some now else r) (a.same name);
    }

allow_all-ideal_from :
    (names : List Text) (calls : List (Text × ℕ)) (at : Table) (seen : Memory)
    → length names ≤ cooldown_table_max
    → All (λ c. member c.0 names ≡ true) calls
    → Agrees names at seen
    → (allow_all calls at).0 ≡ ideal calls seen
unfolding allow_all allow ideal
allow_all-ideal_from names [] at seen few m a = refl
allow_all-ideal_from names (c ∷ calls) at seen few (h, m) a =
    elim (Bool-cases (too_soon (find c.0 at) c.1)) [
      | inl soon ↦
          let soon' : too_soon (seen c.0) c.1 ≡ true =
            ap (λ o. too_soon o c.1) (sym (a.same c.0)) ∙ soon in
          rw (soon, soon') (ap (◌∷◌ false) (allow_all-ideal_from names calls at seen few m a))
      | inr late ↦
          let late' : too_soon (seen c.0) c.1 ≡ false =
            ap (λ o. too_soon o c.1) (sym (a.same c.0)) ∙ late in
          rw (late, late')
            (ap (◌∷◌ true) (
              allow_all-ideal_from names calls (touch cooldown_table_max c.0 c.1 at)
                (remember c.0 c.1 seen) few m (Agrees-touch names c.0 c.1 at seen few h a)))
    ]

-- For every run of calls whose names are among at most 1024, in any order and as often as they like:
-- the bounded table of a new cooldown guard answers every call just as a guard that remembers for
-- every name when it was last allowed.
pub allow_all-ideal :
    (names : List Text) (calls : List (Text × ℕ))
    → length names ≤ cooldown_table_max
    → All (λ c. member c.0 names ≡ true) calls
    → (allow_all calls []).0 ≡ ideal calls (λ name. none)
unfolding find
allow_all-ideal names calls few m =
    allow_all-ideal_from names calls [] (λ name. none) few m
      (record { unique = tt; among = tt; same = λ name. refl })
