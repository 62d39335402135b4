-- ===== src/Mkfs/Args/Accepted.antt =====
-- What a configuration that is accepted satisfies.
use Prim.Native.String.{String}
use text.Mathlib.Text.{◌==◌ as str_eq}
use aufs_enabled.Base.{
  ℕ, zero, suc, ◌*◌, ◌/◌, ◌%◌, ◌^◌, ◌<◌, ◌≤◌, Bool, true, false, not, ◌&&◌, Option, List, ltb, ◌==◌,
  if◌then◌else◌, u32, ◌≡◌, ◌∙◌, ◌⊎◌, ◌↔◌, inl, inr, refl, sym, subst, arith, Bool-cases,
  Option-cases, ltb-cases, ==-cases,
}
use aufs_enabled.Kernel.{ByteOrder}
use aufs_enabled.Super.{sizeof_disk_inode, aufs_inode_block, aufs_inode_offset}
use aufs_enabled.Mkfs.Config.{
  Configuration, configuration, count_inode_entry_blocks, block_size, block_size_of,
  is_power_of_two, verify_zone_size, verify_zones, verify_device,
}
use aufs_enabled.Mkfs.Format.{inode_block, inode_offset}
use aufs_enabled.Mkfs.Agreement.{Fits, seen, inode_place_agrees}
use aufs_enabled.Mkfs.Args.{
  Options, defaults, parse_loop, accepted, verify_configuration, make_configuration, parse_args,
}

-- Half of an even number that is a power of two, and the double.
double_power :
    (n : ℕ) → 1 < n → n % 2 ≡ 0 → (n / 2 ≡ 0) ⊎ ((k : ℕ) × (n / 2 ≡ 2 ^ k)) → (k : ℕ) × (n ≡ 2 ^ k)
double_power n more even (inl z) = absurd (omega arith)
double_power n more even (inr (k, e)) = (suc k, omega arith)

half_power : (n k : ℕ) → 1 < n → n ≡ 2 ^ k → (n % 2 ≡ 0) × ((j : ℕ) × (n / 2 ≡ 2 ^ j))
half_power n zero more e = absurd (omega arith)
half_power n (suc k) more e = (omega arith, (k, omega arith))

-- For a number of `fuel` bits and a round more: the loop tells the powers of two, and takes 0 for
-- one.
pub is_power_of_two_iff :
    (fuel n : ℕ)
    → n < 2 ^ fuel
    → (is_power_of_two (suc fuel) n ≡ true) ↔ ((n ≡ 0) ⊎ ((k : ℕ) × (n ≡ 2 ^ k)))
unfolding is_power_of_two
is_power_of_two_iff zero n small = (λ e. inl (omega arith), λ e. ground arith)
is_power_of_two_iff (suc fuel) n small = elim (ltb-cases 1 n) [
  | inr (t, le) ↦ (λ e. few n le, λ e. rw t)
  | inl (t, more) ↦ elim (==-cases (n % 2) 1) [
    | inl (odd, at) ↦ (λ e. absurd (cc (rw (t, odd) at e)), λ e. absurd (odd_power at more e))
    | inr (even, ne) ↦
        let half = is_power_of_two_iff fuel (n / 2) (omega arith) in
        (
          λ e. inr (double_power n more (omega arith) (half.0 (rw (t, even) at e))),
          λ e. rw (t, even) (half.1 (halved more e)),
        )
  ]
]
  where
    few : (m : ℕ) → m ≤ 1 → (m ≡ 0) ⊎ ((k : ℕ) × (m ≡ 2 ^ k))
    few zero le = inl refl
    few (suc m) le = inr (0, omega arith)

    odd_power : n % 2 ≡ 1 → 1 < n → (n ≡ 0) ⊎ ((k : ℕ) × (n ≡ 2 ^ k)) → ⊥
    odd_power at more (inl z) = omega arith
    odd_power at more (inr (k, e)) = omega (arith, (half_power n k more e).0)

    halved : 1 < n → (n ≡ 0) ⊎ ((k : ℕ) × (n ≡ 2 ^ k)) → (n / 2 ≡ 0) ⊎ ((k : ℕ) × (n / 2 ≡ 2 ^ k))
    halved more (inl z) = absurd (omega arith)
    halved more (inr (k, e)) = inr (half_power n k more e).1

-- The checks that were passed.
pub record IsVerified (size : ℕ) (config : Configuration) : Type 0 where
  pub zone_size_ok : verify_zone_size config ≡ true
  pub zones_ok : verify_zones config ≡ true
  pub device_ok : verify_device size config ≡ true

verify_configuration-accepted :
    (size : ℕ) (config config' : Configuration)
    → verify_configuration size config ≡ accepted config'
    → (config ≡ config') × IsVerified size config
unfolding verify_configuration
verify_configuration-accepted size config config' e = elim (Bool-cases (verify_zone_size config)) [
  | inr z ↦ absurd (cc (rw z at e))
  | inl z ↦ elim (Bool-cases (verify_zones config)) [
    | inr n ↦ absurd (cc (rw (z, n) at e))
    | inl n ↦ elim (Bool-cases (verify_device size config)) [
      | inr d ↦ absurd (cc (rw (z, n, d) at e))
      | inl d ↦ (cc (rw (z, n, d) at e), record { zone_size_ok = z; zones_ok = n; device_ok = d })
    ]
  ]
]

-- What the configuration of `ParseArgs` has, whatever the arguments are.
pub record IsDefault (config : Configuration) : Type 0 where
  pub one_inode_map : config.inode_map_blocks ≡ 1
  pub one_zone_map : config.zone_map_blocks ≡ 1
  pub alignment : config.num_block_alignment ≡ 1024
  pub zone_size : config.zone_size < 2 ^ 32
  pub zones : config.device_zones ≤ 8 * block_size config
  pub inode_blocks : config.inode_blocks < 2 ^ 32
  pub counted : config.inode_blocks ≡ count_inode_entry_blocks config

div-le : (x d : ℕ) → x / d ≤ x
div-le x zero = grind arith
div-le x (suc d) = grind arith

configuration-IsDefault : (n z : ℕ) → z < 2 ^ 32 → IsDefault (configuration n z 1 1 1024)
unfolding configuration count_inode_entry_blocks block_size_of
configuration-IsDefault n z small = record {
  one_inode_map = refl;
  one_zone_map = refl;
  alignment = refl;
  zone_size = small;
  zones = ground arith;
  inode_blocks = omega (arith, div-le);
  counted = refl;
}

make_configuration-accepted :
    (device_size : String → ℕ) (o : Options) (config : Configuration)
    → make_configuration device_size o ≡ accepted config
    → IsDefault config × IsVerified (device_size o.device) config
unfolding make_configuration
make_configuration-accepted device_size o config e =
    let size = device_size o.device in
    let zones = if o.num_zones == 0 then size / o.zone_size else o.num_zones in
    let made = configuration (u32 zones) (u32 o.zone_size) 1 1 1024 in
    elim (Bool-cases (str_eq o.device "")) [
      | inl t ↦ absurd (cc (rw t at e))
      | inr t ↦ elim (Bool-cases (o.num_zones == 0 && o.zone_size == 0)) [
        | inl t' ↦ absurd (cc (rw (t, t') at e))
        | inr t' ↦ elim (Bool-cases (block_size_of (u32 o.zone_size) / sizeof_disk_inode == 0)) [
          | inl t'' ↦ absurd (cc (rw (t, t', t'') at e))
          | inr t'' ↦
              let (same, verified) =
                verify_configuration-accepted size made config (rw (t, t', t'') at e) in
              (
                subst IsDefault same
                    (configuration-IsDefault (u32 zones) (u32 o.zone_size) (omega arith)),
                subst (IsVerified size) same verified,
              )
        ]
      ]
    ]

verify_zone_size-true :
    (config : Configuration)
    → verify_zone_size config ≡ true
    → (512 ≤ config.zone_size) × (is_power_of_two 33 config.zone_size ≡ true)
unfolding verify_zone_size
verify_zone_size-true config e = go (is_power_of_two 33 config.zone_size) e
  where
    go :
        (b : Bool)
        → (if ltb config.zone_size 512 then false else not (not b)) ≡ true
        → (512 ≤ config.zone_size) × (b ≡ true)
    go true h = (ground arith, refl)
    go false h = absurd (ground arith)

verify_zones-true : (config : Configuration) → verify_zones config ≡ true → 3 < config.device_zones
unfolding verify_zones
verify_zones-true config e = ground arith

verify_device-true :
    (size : ℕ) (config : Configuration)
    → verify_device size config ≡ true
    → u32 (config.device_zones * config.zone_size) ≤ size
unfolding verify_device
verify_device-true size config e = ground arith

module _ (stoi : String → Option ℕ) (device_size : String → ℕ) (argv : List String)
    (config : Configuration) (success : parse_args stoi device_size argv ≡ accepted config) where
  verified : (device : String) × IsDefault config × IsVerified (device_size device) config
  unfolding parse_args
  verified = elim (Option-cases (parse_loop stoi argv defaults)) [
    | inl e ↦ absurd (cc (rw (parse_args, e) at success))
    | inr (o, e) ↦
        let (normal, checks) =
          make_configuration-accepted device_size o config (rw (parse_args, e) at success) in
        (o.device, normal, checks)
  ]

  -- A configuration that `ParseArgs` accepts, whatever the arguments are and however numbers are
  -- read: its zone size is a power of two of at least 512 and fits 32 bits; it has more than 3 zones
  -- and no more than the bits of one block; each map has one block, and the alignment is 1024 blocks;
  -- and for some device the product of zones and zone size, cut to 32 bits, is at most its size.
  pub parse_args-accepted :
      (512 ≤ config.zone_size)
      × ((k : ℕ) × (config.zone_size ≡ 2 ^ k))
      × (3 < config.device_zones)
      × IsDefault config
      × ((device : String) × (u32 (config.device_zones * config.zone_size) ≤ device_size device))
  parse_args-accepted =
      let (device, normal, checks) = verified in
      let (large, power) = verify_zone_size-true config checks.zone_size_ok in
      (
        large,
        not_zero large ((is_power_of_two_iff 32 config.zone_size normal.zone_size).0 power),
        verify_zones-true config checks.zones_ok,
        normal,
        (device, verify_device-true (device_size device) config checks.device_ok),
      )
    where
      not_zero :
          512 ≤ config.zone_size
          → (config.zone_size ≡ 0) ⊎ ((k : ℕ) × (config.zone_size ≡ 2 ^ k))
          → (k : ℕ) × (config.zone_size ≡ 2 ^ k)
      not_zero large (inl z) = absurd (omega arith)
      not_zero large (inr p) = p

  pub accepted-Fits : Fits config
  accepted-Fits =
      let (_, normal, _) = verified in
      record {
        zone_size = normal.zone_size;
        inode_blocks = normal.inode_blocks;
        inode_map_blocks = omega (arith, normal.one_inode_map);
        alignment = omega (arith, normal.alignment);
      }

  -- For a configuration that `ParseArgs` accepts, with a zone size of at least 4096: the kernel that
  -- reads the formatter's super block looks for the inode of every 32-bit number where the formatter
  -- puts it.
  pub parse_args-place_agrees :
      (order : ByteOrder) (B : Type 0)
      → 4096 ≤ config.zone_size
      → (ino : ℕ) → ino < 2 ^ 32
      → let asb = seen order config accepted-Fits B in
        (aufs_inode_block asb ino ≡ inode_block config ino)
        × (aufs_inode_offset asb ino ≡ inode_offset config ino)
  parse_args-place_agrees order B large ino small =
      let (_, normal, _) = verified in
      inode_place_agrees order config accepted-Fits B large
        (normal.one_zone_map ∙ sym normal.one_inode_map) ino small
