-- ===== src/Rwfs.antt =====
-- librwfs: the free-space bitmap, the directory and the mount of the read-write filesystem.
pub mod Bitmap
pub mod Directory
pub mod Mount
