-- ===== src/Msa.antt =====
-- The Magic Shadow Archiver library: lib/msa/msa.c.
-- A byte buffer is a list of bytes. `Rle` is the track codec, `Image` the in-memory image and the
-- geometry guess, `File` the archive reader and writer.
pub mod Rle
pub mod RoundTrip
pub mod Capacity
pub mod Image
pub mod Geometry
pub mod File
pub mod FileRoundTrip
pub mod Limits
mod Tests
