-- ===== src/Mkfs/Main.antt =====
-- user/mkfs.cpp: `main`, with the constructors of `Formatter` and `SuperBlock` of user/format.hpp and
-- user/format.cpp.
pub mod Disk
pub mod Loaded
pub mod Mounted
use Prim.Native.String.{String}
use aufs_enabled.Base.{ℕ, Option, none, some, List}
use aufs_enabled.Kernel.{ByteOrder}
use aufs_enabled.Super.Mount.{DiskSuperBlock}
use aufs_enabled.Mkfs.Config.{Configuration}
use aufs_enabled.Mkfs.Format.{fill_super, set_root_inode}
use aufs_enabled.Mkfs.Maps.{fill_zone_map, fill_inode_map}
use aufs_enabled.Mkfs.Root.{RootDir, mk_root_dir}
use aufs_enabled.Mkfs.Args.{Parsed, accepted, rejected, crashed, parse_args}

-- Where the machine keeps the maps, who formats and when, and the conversions that the formatter uses.
pub record Machine : Type 0 where
  pub swab32 : ℕ → ℕ
  pub swab64 : ℕ → ℕ
  pub inode_base : ℕ
  pub zone_base : ℕ
  pub uid : ℕ
  pub gid : ℕ
  pub time : ℕ

-- What the blocks that the formatter writes hold in the end.
pub record Image : Type 0 where
  pub super_block : DiskSuperBlock
  pub root : RootDir

-- `Formatter format(config)` and `format.SetRootInode(format.MkRootDir())`, over what the blocks held.
unfoldable pub format :
    ByteOrder → Machine → (fuel : ℕ) → Configuration → (old : RootDir) → Option Image
unfolding mk_root_dir fill_super set_root_inode
format order machine fuel config old =
    let filled = record old {
      inode_map = fill_inode_map config machine.inode_base old.inode_map;
      zone_map = fill_zone_map config machine.zone_base old.zone_map;
    } in
    elim (mk_root_dir machine.swab32 machine.swab64 order.htonl fuel config machine.inode_base
      machine.zone_base machine.uid machine.gid machine.time filled) [
        | none ↦ none
        | some root ↦
            some (record {
              super_block = set_root_inode order (fill_super order config) 1;
              root = root;
            })
      ]

-- How the program ends: with 0 and the blocks written, with 1, or by a signal or in a loop.
pub data Exit : Type 0 where
  done : Image → Exit
  refused : Exit
  aborted : Exit

unfoldable pub main :
    ByteOrder
    → Machine
    → (fuel : ℕ) (stoi : String → Option ℕ) (device_size : String → ℕ) (argv : List String)
    → (old : RootDir) → Exit
unfolding format parse_args
main order machine fuel stoi device_size argv old = elim (parse_args stoi device_size argv) [
  | rejected ↦ refused
  | crashed ↦ aborted
  | accepted config ↦ elim (format order machine fuel config old) [
    | none ↦ aborted
    | some image ↦ done image
  ]
]
