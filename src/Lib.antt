-- ===== src/Lib.antt =====
-- aufs: a small file system for the Linux kernel (kern/) and the program that formats a device for
-- it (user/).
--
-- The device holds the super block, the blocks of the zone map, those of the inode map, the inode
-- table, and from an aligned block on the zones. A file has up to nine zones. The parts work as
-- follows: mounting (kern/super.c) reads the super block and both maps and fetches the root inode.
-- `aufs_get_block` (kern/inode.c) is what the kernel's page cache calls for every block of a file;
-- it takes a new zone from the zone map (kern/bitmap.c) where the inode has none. Inodes are read
-- from and written to the table (kern/inode.c). A directory (kern/dir.c) is a file of 64-byte
-- entries. The formatter writes what a mount reads.
--
-- Files, with the code that each is about:
--   Base          shared helpers: lists under native indices, machine words, tests, options
--   Kernel, Vfs   what the code uses of the kernel: error numbers, buffers, inodes. Bit operations,
--                 byte order, small ids and the size of pages are parameters with their documented
--                 laws (BitOps, ByteOrder, LowIds, Paging)
--   Super         kern/aufs.h: struct aufs_super_block, aufs_inode_block, aufs_inode_offset
--   Super.Mount   kern/super.c: aufs_super_block_fill, aufs_super_block_read, aufs_fill_sb
--   Super.Calls   kern/super.c: what aufs_super_block_read and aufs_put_super take and give back; what
--                 the memory of asb holds after kfree (Freed) is a parameter
--   Super.Module  kern/super.c: the slab of inodes with its RCU callbacks, aufs_init, aufs_fini, and
--                 all histories of them that the kernel allows; what the kernel returns, and the order
--                 in which rcu_barrier runs the callbacks (Rcu), are parameters
--   Bitmap        kern/bitmap.c: aufs_new_zone, aufs_new_inode
--   Inode.Block   kern/inode.c: aufs_get_block, with MULTI_BLOCK_PTR_SCHEME, as kern/aufs.h sets it
--   Inode.Table   kern/inode.c: aufs_inode_fill, V2_minix_update_inode, minix_write_inode,
--                 aufs_inode_get, minix_set_inode; kern/bitmap.c: minix_V2_raw_inode
--   Inode.Attr    kern/file.c: minix_setattr; kern/itree_common.c: nblocks, V2_minix_blocks;
--                 kern/inode.c: minix_getattr. What the kernel does with attributes is a parameter
--                 (Attributes)
--   Inode.Pages   kern/inode.c: aufs_readpage, aufs_writepage, minix_write_begin, minix_write_failed,
--                 minix_prepare_chunk; the kernel's functions that map the buffers of a page are a
--                 parameter (PageIo): they change the file system by calls of aufs_get_block only
--   Dir           kern/dir.c: minix_find_entry, minix_inode_by_name, minix_add_link; Dir.Empty:
--                 minix_make_empty; Dir.Listing: minix_readdir, with dir_emit as a parameter
--   Names         kern/namei.c: minix_lookup, minix_mknod, minix_create, minix_tmpfile, minix_mkdir,
--                 with the kernel's counting of links (LinkCounts), new_inode and inode_init_owner
--                 (Surroundings) as parameters with their documented laws
--   Mkfs.Config   user/block.hpp: Configuration; user/mkfs.cpp: its checks
--   Mkfs.Args     user/mkfs.cpp: ParseArgs, VerifyConfiguration; std::stoi and DeviceSize are
--                 parameters
--   Mkfs.Bits     user/bit_iterator.hpp: BitReference, BitIteratorBase, BitIterator
--   Mkfs.Maps     user/format.cpp: FillZoneMap, FillInodeMap, AllocateInode, AllocateZones
--   Mkfs.Cache    user/block.cpp, user/block.hpp: Block, BlocksCache, with its clients
--   Mkfs.Format   user/format.cpp: the super block and the places of the inodes and the root directory
--   Mkfs.Root     user/format.cpp: MkRootDir, the setters of Inode, the first entries
--   Mkfs.Raw      user/aufs.hpp: struct aufs_inode and its accessors, on bytes; how a machine loads
--                 and stores words is a parameter (Words)
--   Mkfs.Main     user/mkfs.cpp: main; Mkfs.Main.Disk, Mkfs.Main.Mounted: the mount of what it writes
--   Mkfs.Agreement, Mkfs.RootZone  what the kernel reads of what the formatter writes
--   Examples      the theorems at concrete states
--
-- State and operations: a struct is a record with the source's field names, a function keeps its
-- name (V2 in a name is written v2), takes the structures that it changes and returns them with its
-- result. Errors are values: Outcome for an error pointer, Option Errno for 0 or a negated number,
-- and a constructor of its own for a crash. An `unsigned long` is a number that wraps at 2^64, an
-- `int` or a `uint32_t` one at 2^32, an `int` by its bit pattern. A block of the inode table is the
-- list of its raw inodes, a page of a directory the list of its entries; the memory and the device of
-- the formatter are the byte at each position. The memory behind the array
-- of zone pointers, which the code reads, is a parameter.
--
-- Bounds and fuel: the loops recurse on the number of rounds that the code's own bound gives (blocks
-- of a map, pages of a directory, nine pointers) or on the list that they walk, so they end.
-- `is_power_of_two` has fuel: 33 rounds, one more than a 32-bit number can be halved. The loop of
-- AllocateZones has fuel that is a parameter of the theorems: one round is enough where the first run
-- of free bits is long enough, and no number of rounds where it is too short. A map or an iterator
-- lies in memory below the top of the address space (2^59 or 2^60 bytes).
--
-- Not modelled: the spin lock and the page locks (each operation is one step), the page cache and the
-- release of pages, the tables of operations of files, log output, the bit operations of kern/minix.h,
-- which are the kernel's, and the output of the formatter.
pub mod Base
pub mod Kernel
pub mod Vfs
pub mod Super
pub mod Bitmap
pub mod Inode
pub mod Dir
pub mod Names
pub mod Mkfs
pub mod Examples
