-- ===== src/Delivery/Spool/Format.antt =====
-- The bytes of a spool record: little-endian words, the checksum and the frame
-- (src/delivery/spool.cpp).
pub mod Laws
use panopticon_agent.Prelude.{
  ℕ, zero, suc, ◌+◌, ◌*◌, ◌/◌, ◌%◌, Option, none, some, List, [], ◌∷◌, ◌++◌, ◌==◌, if◌then◌else◌,
  bit_and, bit_xor, length,
}

abbrev pub Bytes : Type 0
Bytes = List ℕ

abbrev pub u16_mod : ℕ
u16_mod = 65536

abbrev pub u32_mod : ℕ
u32_mod = 4294967296

abbrev pub u64_mod : ℕ
u64_mod = 18446744073709551616

-- `out.write(&v, 4)` on a little-endian machine.
unfoldable pub write_u32 : ℕ → Bytes
write_u32 v = v % 256 ∷ v / 256 % 256 ∷ v / 65536 % 256 ∷ v / 16777216 % 256 ∷ []

-- `none` where the stream holds fewer than four more bytes.
unfoldable pub read_u32 : Bytes → Option (ℕ × Bytes)
read_u32 (a ∷ b ∷ c ∷ d ∷ rest) = some (a + b * 256 + c * 65536 + d * 16777216, rest)
read_u32 _ = none

-- `memcpy` of a `std::uint16_t`.
unfoldable pub write_u16 : ℕ → Bytes
write_u16 v = v % 256 ∷ v / 256 % 256 ∷ []

unfoldable pub read_u16 : Bytes → Option (ℕ × Bytes)
read_u16 (a ∷ b ∷ rest) = some (a + b * 256, rest)
read_u16 _ = none

-- One round of the table's inner loop.
unfoldable pub crc_round : ℕ → ℕ
crc_round c = if bit_and c 1 == 1 then bit_xor 0xEDB88320 (c / 2) else c / 2

unfoldable pub crc_rounds : ℕ → ℕ → ℕ
crc_rounds zero c = c
crc_rounds (suc k) c = crc_rounds k (crc_round c)

-- `table[i]`, computed at each use.
unfoldable pub crc_table : ℕ → ℕ
crc_table i = crc_rounds 8 i

unfoldable pub crc_loop : Bytes → ℕ → ℕ
crc_loop [] crc = crc
crc_loop (b ∷ bs) crc = crc_loop bs (bit_xor (crc_table (bit_and (bit_xor crc b) 0xFF)) (crc / 256))

-- The result is a `std::uint32_t`.
unfoldable pub crc32 : Bytes → ℕ
crc32 bs = bit_xor (crc_loop bs 0xFFFFFFFF) 0xFFFFFFFF % u32_mod

pub record SpoolRecord : Type 0 where
  pub batch_id : Bytes
  pub body : Bytes

-- The payload that `append` assembles.
unfoldable pub payload_of : SpoolRecord → Bytes
payload_of r = write_u16 (length r.batch_id) ++ (r.batch_id ++ r.body)

-- What `append` writes to the segment for one record of `total_len` payload bytes.
unfoldable pub frame : SpoolRecord → Bytes
frame r = write_u32 (length (payload_of r)) ++ (write_u32 (crc32 (payload_of r)) ++ payload_of r)
