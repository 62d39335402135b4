-- ===== src/Mkfs.antt =====
-- The formatter under user/.
pub mod Config
pub mod Bits
pub mod Format
pub mod Cache
pub mod Args
pub mod Maps
pub mod Agreement
pub mod RootZone
pub mod Root
pub mod Raw
pub mod Main
