-- ===== src/Codec.antt =====
-- The wire format (codec/frame.go) and the buffer pool (codec/pool.go).
pub mod Conn
pub mod Pool
pub mod Frame
