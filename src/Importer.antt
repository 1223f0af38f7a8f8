-- ===== src/Importer.antt =====
-- sync/importer.py: the parameters of a row, the batches, and the import of a release.
pub mod Frames
pub mod Params
pub mod Batch
pub mod Loop
