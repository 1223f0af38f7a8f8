-- ===== src/Sources.antt =====
-- sync/sources: the adapters, each from one JSON value to the records of a line.
pub mod Json
pub mod Fields
pub mod FileName
pub mod Base
pub mod Record
pub mod Returns
pub mod Zlib3
pub mod Uploads
pub mod Ia2
pub mod Gbooks
pub mod Libby
pub mod Goodreads
pub mod Collections
pub mod Registry
