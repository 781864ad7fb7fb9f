-- ===== src/Tests.antt =====
-- The theorems at concrete inputs.
mod Codec
mod Chunks
mod Files
mod Dags
mod Recipes
mod TreeCodec
mod Trees
mod Playlists
mod Links
mod Normals
mod Pools
