-- ===== src/Cache.antt =====
-- Parts of src/cache.cpp that keep a state of their own: the side table, the tombstones of
-- evicted prefixes, the pool of shapes, the live bytes of regions, and the journal record of a
-- published leaf.
pub mod Tombs
pub mod Shapes
pub mod Live
pub mod Publish
pub mod Side
mod Examples
