-- ===== src/Ring.antt =====
-- base/base_ring_buffer.h and base_ring_buffer.cpp: the ring buffers.
pub mod Circu
pub mod Simple
pub mod Single
pub mod Window
mod Tests
