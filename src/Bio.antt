-- ===== src/Bio.antt =====
-- bio/bio.go and bio/dsk.go: blocks on a disk of keys with locks.
pub mod Disk
pub mod Local
pub mod Mock
