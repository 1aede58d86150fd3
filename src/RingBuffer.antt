-- ===== src/RingBuffer.antt =====
-- The ring buffer of src/common/ringbuffer: one module per part of it.
pub mod State
pub mod Offsets
pub mod Geometry
pub mod Ids
pub mod Backend
pub mod Commit
pub mod Reserve
pub mod Switch
pub mod Reader
pub mod Order
pub mod Create
mod Tests
