-- ===== src/Mkfs/Cache.antt =====
-- `Block` and `BlocksCache` of user/block.hpp and user/block.cpp. The device is the byte at each
-- position; reading and writing of it succeed. Of the owners of a block, the cache aside, only
-- whether there is one counts.
pub mod View
pub mod Changed
pub mod Gets
pub mod Refined
use aufs_enabled.Base.{
  ℕ, zero, suc, ◌+◌, ◌-◌, ◌*◌, Bool, true, false, ◌&&◌, Option, none, some, List, [], ◌∷◌, ltb, leb,
  ◌==◌, if◌then◌else◌, u64, length, get_or, set, ◌++◌,
}

-- `Block`: its number and data, and whether its `shared_ptr` is not unique.
pub record Block : Type 0 where
  pub m_number : ℕ
  pub m_data : List ℕ
  pub held : Bool

-- `BlocksCache` with its device; `m_cache` is the map in the order of its keys.
pub record BlocksCache : Type 0 where
  pub m_cache : List Block
  pub device : ℕ → ℕ

-- `m_cache.find`.
abbrev pub cached : List Block → ℕ → Option Block
cached [] num = none
cached (b ∷ bs) num = if b.m_number == num then some b else cached bs num

-- `m_cache.insert`, of a key that is not there.
unfoldable pub insert : List Block → Block → List Block
insert [] new = new ∷ []
insert (b ∷ bs) new = if ltb new.m_number b.m_number then new ∷ b ∷ bs else b ∷ insert bs new

-- `n` bytes of the device from `pos` on, and the device with bytes written there.
unfoldable pub read_bytes : (ℕ → ℕ) → (pos n : ℕ) → List ℕ
read_bytes device pos zero = []
read_bytes device pos (suc n) = device pos ∷ read_bytes device (suc pos) n

unfoldable pub write_bytes : (ℕ → ℕ) → (pos : ℕ) → List ℕ → ℕ → ℕ
write_bytes device pos bytes p =
    if leb pos p && ltb p (pos + length bytes) then get_or bytes (p - pos) 0 else device p

-- `BlocksCache::ReadBlock`, for the owner that asked for it.
unfoldable pub read_block : (block_size : ℕ) → (ℕ → ℕ) → (num : ℕ) → Block
read_block block_size device num = record {
  m_number = num;
  m_data = read_bytes device (u64 (num * block_size)) block_size;
  held = true;
}

-- `BlocksCache::WriteBlock`.
unfoldable pub write_block : (block_size : ℕ) → (ℕ → ℕ) → Block → ℕ → ℕ
write_block block_size device b = write_bytes device (u64 (b.m_number * block_size)) b.m_data

-- The loop of `Sync`: every block is written, and stays in the cache if it has another owner.
unfoldable pub sync_loop : (block_size : ℕ) → List Block → (ℕ → ℕ) → List Block × (ℕ → ℕ)
sync_loop block_size [] device = ([], device)
sync_loop block_size (b ∷ bs) device =
    let (kept, device') = sync_loop block_size bs (write_block block_size device b) in
    (if b.held then b ∷ kept else kept, device')

-- `BlocksCache::Sync`, which the destructor calls too.
unfoldable pub sync : (block_size : ℕ) → BlocksCache → BlocksCache
sync block_size cache =
    let (kept, device) = sync_loop block_size cache.m_cache cache.device in
    record { m_cache = kept; device = device }

-- The block `num` of the cache changed by `f`.
unfoldable pub change : List Block → (num : ℕ) → (Block → Block) → List Block
change [] num f = []
change (b ∷ bs) num f = if b.m_number == num then f b ∷ bs else b ∷ change bs num f

-- `ThresholdSize`.
abbrev pub threshold_size : ℕ
threshold_size = 1048576

-- What owners of a block do with it: a byte of `Data` written, or the owner gone.
unfoldable pub put_byte : (i v : ℕ) → Block → Block
put_byte i v b = record b { m_data = set b.m_data i v }

unfoldable pub hold : Bool → Block → Block
hold owned b = record b { held = owned }

-- `BlocksCache::GetBlock`: the cache after it, in which block `num` has an owner.
unfoldable pub get_block : (block_size : ℕ) → BlocksCache → (num : ℕ) → BlocksCache
get_block block_size cache num =
    let flushed = sync block_size cache in
    let ready =
      if ltb threshold_size (u64 (block_size * length cache.m_cache)) then flushed else cache in
    elim (cached cache.m_cache num) [
      | some b ↦ record cache { m_cache = change cache.m_cache num (hold true) }
      | none ↦ record ready {
        m_cache = insert ready.m_cache (read_block block_size ready.device num);
      }
    ]

-- A client's use of the cache: a byte of a block read or written through `Data`, the blocks
-- asked for staying owned; an owner gone; all written out.
pub data Use : Type 0 where
  load : (num i : ℕ) → Use
  store : (num i v : ℕ) → Use
  release : (num : ℕ) → Use
  flush : Use

unfoldable pub byte_of : List Block → (num i : ℕ) → ℕ
byte_of bs num i = elim (cached bs num) [ none ↦ 0 | some b ↦ get_or b.m_data i 0 ]

-- The cache after one use, and after some, with the bytes that were read.
unfoldable pub use_one : (block_size : ℕ) → Use → BlocksCache → BlocksCache × List ℕ
use_one block_size (load num i) cache =
    let owned = get_block block_size cache num in (owned, byte_of owned.m_cache num i ∷ [])
use_one block_size (store num i v) cache =
    let owned = get_block block_size cache num in
    (record owned { m_cache = change owned.m_cache num (put_byte i v) }, [])
use_one block_size (release num) cache =
    (record cache { m_cache = change cache.m_cache num (hold false) }, [])
use_one block_size flush cache = (sync block_size cache, [])

unfoldable pub use_all : (block_size : ℕ) → List Use → BlocksCache → BlocksCache × List ℕ
use_all block_size [] cache = (cache, [])
use_all block_size (u ∷ us) cache =
    let (one, out) = use_one block_size u cache in
    let (all, outs) = use_all block_size us one in (all, out ++ outs)
