-- ===== src/Examples/Formatted.antt =====
-- `mkfs --nzones 40 --zonesize 4096 disk` by user 7 of group 8, over zeros, and a mount of the disk.
use aufs_enabled.Base.{replicate, refl}
use aufs_enabled.Mkfs.Root.{RootDir}
use aufs_enabled.Mkfs.Main.{Machine}
use aufs_enabled.Mkfs.Main.Disk.{Loads}
use aufs_enabled.Examples.Platform.{bit_ops}
use aufs_enabled.Examples.Rooting.{raw_zeros, zero_entry, same}

abbrev loads : Loads bit_ops
loads = record { load = λ bits. bits; test_bit-load = λ bits n. refl }

abbrev machine : Machine
machine = record {
  swab32 = same;
  swab64 = same;
  inode_base = 64;
  zone_base = 64;
  uid = 7;
  gid = 8;
  time = 9;
}

abbrev old : RootDir
old = record {
  inode_map = λ a. 0;
  zone_map = λ a. 0;
  raw = raw_zeros;
  content = replicate 8 zero_entry;
}
