-- ===== src/Tests/Recipes.antt =====
-- The layout recipe of packages/repack/src/dag.ts for a skeleton with two zero runs.
use trackerstream.Common.{ℕ, ◌≡◌, refl, true, List, [], ◌∷◌, arith}
use trackerstream.Common.Result.{ok}
use trackerstream.Cdc.{default_cdc}
use trackerstream.Dag.Store.{Cid, lookup_block}
use trackerstream.Dag.Build.{Draft}
use trackerstream.Dag.Reassemble.{fetch_parts}
use trackerstream.Tree.Spans.{Span}
use trackerstream.Tree.Recipe.{add_recipe, assemble_skeleton, add_recipe-assemble_skeleton}
use trackerstream.Tests.Codec.{plain_ipld, plain_laws}

abbrev skeleton : List ℕ
skeleton = 5 ∷ 6 ∷ 0 ∷ 0 ∷ 0 ∷ 7 ∷ 0 ∷ 8 ∷ 9 ∷ []

abbrev runs : List Span
runs = record { start = 2; stop = 5 } ∷ record { start = 6; stop = 7 } ∷ []

abbrev start : Draft
start = record { blocks = []; num_chunks = 0 }

add_recipe-assemble_skeleton_example :
    (cids : List Cid) × (layout : List ℕ) × (d' : Draft) × (parts : List (List ℕ)) × (add_recipe
        plain_ipld default_cdc skeleton runs 0 start
      ≡ ok ((cids, layout), d'))
    × (fetch_parts plain_ipld (lookup_block d'.blocks) true cids ≡ ok parts)
    × (assemble_skeleton parts layout ≡ ok skeleton)
add_recipe-assemble_skeleton_example =
    add_recipe-assemble_skeleton plain_ipld plain_laws default_cdc (omega arith) skeleton runs start
      true (omega arith, omega arith, (omega arith, omega arith, tt))
      (omega arith, refl, (omega arith, refl, tt)) tt
