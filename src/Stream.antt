-- ===== src/Stream.antt =====
-- The streams of Kernel/src/Streams.cpp and Kernel/include/Stream.h.
pub mod DataStream
