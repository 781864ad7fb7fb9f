-- ===== src/Cdc/Resync.antt =====
-- Chunk boundaries of cdc.ts depend on the content from the boundary on, and on nothing before it.
use mathlib.Core.Option
use trackerstream.Common.{
  ℕ, zero, suc, min, ◌+◌, ◌-◌, ◌≤◌, ◌<◌, ◌≡◌, refl, sym, ap, ◌∙◌, inl, inr, Option, none, some,
  List, arith, ltb, Bool-cases, Option-cases, length, get_or, drop, get_or-drop, drop-drop,
  length-drop,
}
use trackerstream.Cdc.Tiling.{cdc_chunks-tile}
use trackerstream.Cdc.{CdcConfig, roll, find_cut, next_stop, chunks_from, cdc_chunks}

-- The inner loop on a suffix answers as on the whole buffer, with its cut moved by `m`.
find_cut-drop :
    (cfg : CdcConfig) (buf : List ℕ) (m normal rounds i fp : ℕ)
    → Option.map (λ c. m + c) (find_cut cfg (drop m buf) normal rounds i fp)
      ≡ find_cut cfg buf (m + normal) rounds (m + i) fp
unfolding find_cut
find_cut-drop cfg buf m normal zero i fp = refl
find_cut-drop cfg buf m normal (suc rounds) i fp = rw (get_or-drop m i buf 0) (
    ground (
      arith,
      find_cut-drop cfg buf m normal rounds (i + 1) (roll fp (get_or buf (m + i) 0)),
      ap (λ (k : ℕ). find_cut cfg buf (m + normal) rounds k (roll fp (get_or buf (m + i) 0)))
          (let e : m + (i + 1) ≡ m + i + 1 = omega arith in e),
    ))

get_or-map :
    (m : ℕ) (o : Option ℕ) (d : ℕ)
    → m + Option.get_or o d ≡ Option.get_or (Option.map (λ c. m + c) o) (m + d)
get_or-map m none d = refl
get_or-map m (some c) d = refl

next_stop-drop :
    (cfg : CdcConfig) (buf : List ℕ) (m off : ℕ)
    → m ≤ length buf
    → m + next_stop cfg (drop m buf) off ≡ next_stop cfg buf (m + off)
unfolding next_stop
next_stop-drop cfg buf m off h = cc (
  get_or-map m (find_cut cfg (drop m buf) normal (end - start) start 0) end,
  find_cut-drop cfg buf m normal (end - start) start 0,
  normals,
  ends,
  starts,
  rounds,
)
  where
    len : length (drop m buf) ≡ length buf - m
    len = length-drop m buf

    end : ℕ
    end = min (off + cfg.max_size) (length (drop m buf))

    normal : ℕ
    normal = min (off + cfg.avg_size) (length (drop m buf))

    start : ℕ
    start = off + cfg.min_size

    normals : m + normal ≡ min (m + off + cfg.avg_size) (length buf)
    normals = omega (arith, len)

    ends : m + end ≡ min (m + off + cfg.max_size) (length buf)
    ends = omega (arith, len)

    starts : m + start ≡ m + off + cfg.min_size
    starts = omega arith

    rounds : end - start ≡ min (m + off + cfg.max_size) (length buf) - (m + off + cfg.min_size)
    rounds = omega (arith, len)

-- The chunks of a suffix are the chunks that the loop cuts from there on, whatever stands before.
chunks_from-drop :
    (fuel : ℕ) (cfg : CdcConfig) (buf : List ℕ) (m off : ℕ)
    → m ≤ length buf
    → chunks_from fuel cfg (drop m buf) off ≡ chunks_from fuel cfg buf (m + off)
unfolding chunks_from
chunks_from-drop zero cfg buf m off h = ground (arith, length-drop {0} m buf)
chunks_from-drop (suc fuel) cfg buf m off h =
    let stop = next_stop cfg (drop m buf) off in
    let width : m + stop - (m + off) ≡ stop - off = omega arith in
    rw
      (
        drop-drop m off buf,
        ← next_stop-drop cfg buf m off h,
        ← chunks_from-drop fuel cfg buf m stop h,
        width,
      )
      (ground (arith, length-drop {0} m buf))

chunks_from_fuel :
    (f g : ℕ) (cfg : CdcConfig) (buf : List ℕ) (off : ℕ) (cs : List (List ℕ))
    → chunks_from f cfg buf off ≡ some cs
    → f ≤ g
    → chunks_from g cfg buf off ≡ some cs
unfolding chunks_from
chunks_from_fuel zero zero cfg buf off cs e h = e
chunks_from_fuel zero (suc g) cfg buf off cs e h = ground arith
chunks_from_fuel (suc f) zero cfg buf off cs e h = absurd (omega arith)
chunks_from_fuel (suc f) (suc g) cfg buf off cs e h = elim (Bool-cases (ltb off (length buf))) [
  | inr out ↦ rw out (rw out at e)
  | inl inside ↦ elim (Option-cases (chunks_from f cfg buf (next_stop cfg buf off))) [
    | inl stuck ↦ ground arith
    | inr (rest, run) ↦
        rw (chunks_from_fuel f g cfg buf (next_stop cfg buf off) rest run (omega arith))
          (rw run at e)
  ]
]

chunks_from-suffix :
    (cfg : CdcConfig) (buf : List ℕ) (m : ℕ) (cs : List (List ℕ))
    → m ≤ length buf
    → cdc_chunks cfg (drop m buf) ≡ some cs
    → chunks_from (length buf) cfg buf m ≡ some cs
unfolding cdc_chunks
chunks_from-suffix cfg buf m cs h e =
    let whole =
      chunks_from_fuel (length (drop m buf)) (length buf) cfg (drop m buf) 0 cs e
        (omega (arith, length-drop {0} m buf)) in
    let back : m + 0 ≡ m = omega arith in
    ap (λ (k : ℕ). chunks_from (length buf) cfg buf k) (sym back)
    ∙ sym (chunks_from-drop (length buf) cfg buf m 0 h)
    ∙ whole

-- Two buffers with a common suffix are cut into the same chunks from that suffix on, if the loop
-- stands at its beginning in both (for bounds with `min_size < max_size`).
pub chunks_from-shared_suffix :
    (cfg : CdcConfig) (a b : List ℕ) (m n : ℕ)
    → cfg.min_size < cfg.max_size
    → m ≤ length a
    → n ≤ length b
    → drop m a ≡ drop n b
    → (cs : List (List ℕ)) × (chunks_from (length a) cfg a m ≡ some cs)
      × (chunks_from (length b) cfg b n ≡ some cs)
chunks_from-shared_suffix cfg a b m n wide ha hb same =
    let (cs, run, _, _) = cdc_chunks-tile cfg (drop m a) wide in
    (
      cs,
      chunks_from-suffix cfg a m cs ha run,
      chunks_from-suffix cfg b n cs hb (ap (cdc_chunks cfg) (sym same) ∙ run),
    )
