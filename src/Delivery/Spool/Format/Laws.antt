-- ===== src/Delivery/Spool/Format/Laws.antt =====
-- What the words and frames of Delivery/Spool/Format satisfy.
use panopticon_agent.Prelude.{ℕ, ◌+◌, ◌<◌, ◌≡◌, ap, some, ◌++◌, arith, length, length-append}
use panopticon_agent.Delivery.Spool.Format.{
  Bytes, SpoolRecord, u16_mod, u32_mod, write_u32, read_u32, write_u16, read_u16, crc32, payload_of,
  frame,
}

pub read_u32-write_u32 :
    (v : ℕ) (rest : Bytes) → v < u32_mod → read_u32 (write_u32 v ++ rest) ≡ some (v, rest)
unfolding read_u32 write_u32
read_u32-write_u32 v rest h = ap (λ n. some (n, rest)) (omega arith)

pub read_u16-write_u16 :
    (v : ℕ) (rest : Bytes) → v < u16_mod → read_u16 (write_u16 v ++ rest) ≡ some (v, rest)
unfolding read_u16 write_u16
read_u16-write_u16 v rest h = ap (λ n. some (n, rest)) (omega arith)

pub crc32-lt : (bs : Bytes) → crc32 bs < u32_mod
unfolding crc32
crc32-lt bs = omega arith

pub length-payload_of :
    (r : SpoolRecord) → length (payload_of r) ≡ 2 + length r.batch_id + length r.body
unfolding payload_of write_u16
length-payload_of r = omega (arith, length-append {0} r.batch_id r.body)

pub length-frame : (r : SpoolRecord) → length (frame r) ≡ 8 + length (payload_of r)
unfolding frame write_u32
length-frame r = omega arith
