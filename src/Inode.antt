-- ===== src/Inode.antt =====
-- kern/inode.c. `Block` is `aufs_get_block`, with what it does to the zones; `Attr` is also about
-- kern/file.c and kern/itree_common.c.
pub mod Block
pub mod Table
pub mod Attr
pub mod Pages
