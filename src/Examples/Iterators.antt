-- ===== src/Examples/Iterators.antt =====
-- Iterators from bit 3 of byte 100 and from bit 2 of byte 101, and memory of zeros.
use aufs_enabled.Base.{arith}
use aufs_enabled.Mkfs.Bits.{Bytes, BitIterator}
use aufs_enabled.Mkfs.Bits.Position.{IsBit}

abbrev early : BitIterator
early = record { m_data = 100; m_offset = 3 }

early-IsBit : IsBit early
early-IsBit = record { offset = omega arith; address = omega arith }

abbrev late : BitIterator
late = record { m_data = 101; m_offset = 2 }

late-IsBit : IsBit late
late-IsBit = record { offset = omega arith; address = omega arith }

abbrev zeros : Bytes
zeros a = 0
