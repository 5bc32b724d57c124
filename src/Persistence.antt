-- ===== src/Persistence.antt =====
-- src/persistence.py: the binary format, the segments of the log, the index and the layer on top.
pub mod Struct
pub mod Codec
pub mod Segments
pub mod Log
