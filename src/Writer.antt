-- ===== src/Writer.antt =====
-- src/writer.hpp and src/writer.cpp: the shard writers. `Ring` is the queue of requests and the
-- threads that use it, `Rotate` the change of region, `Batch` how requests gather in a batch and
-- where their pages go, `Ctx` how a put is acknowledged.
pub mod Ring
pub mod Rotate
pub mod Ctx
pub mod Batch
pub mod Reopen
mod Examples
