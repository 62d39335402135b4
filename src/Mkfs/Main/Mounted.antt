-- ===== src/Mkfs/Main/Mounted.antt =====
-- A device that the formatter has written can be mounted.
use Prim.Native.String.{String}
use aufs_enabled.Base.{ℕ, ◌^◌, ◌<◌, length, ◌≡◌}
use aufs_enabled.Kernel.{ByteOrder}
use aufs_enabled.Vfs.{zone_ptr_in_inode_num}
use aufs_enabled.Mkfs.Bits.Memory.{AreBytes}
use aufs_enabled.Mkfs.Root.{RootDir}
use aufs_enabled.Mkfs.Main.{Machine}

-- The maps lie in memory of bytes below the top of the address space, the ids and the time fit their
-- fields, a raw inode has nine pointers, and the kernel's conversions undo the formatter's.
pub record IsReady (order : ByteOrder) (machine : Machine) (old : RootDir) : Type 0 where
  pub imap_bytes : AreBytes old.inode_map
  pub zmap_bytes : AreBytes old.zone_map
  pub imap_low : machine.inode_base < 2 ^ 58
  pub zmap_low : machine.zone_base < 2 ^ 58
  pub uid : machine.uid < 2 ^ 32
  pub gid : machine.gid < 2 ^ 32
  pub time : machine.time < 2 ^ 64
  pub nine : length old.raw.di_zone_ptr ≡ zone_ptr_in_inode_num
  pub back32 : (x : ℕ) → x < 2 ^ 32 → order.be32_to_cpu (machine.swab32 x) ≡ x
  pub back64 : (x : ℕ) → x < 2 ^ 64 → order.be64_to_cpu (machine.swab64 x) ≡ x
