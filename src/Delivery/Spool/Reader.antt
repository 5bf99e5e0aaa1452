-- ===== src/Delivery/Spool/Reader.antt =====
-- `read_next_record_locked` (src/delivery/spool.cpp): the loop that finds the next intact record.
pub mod Termination
pub mod Pending
pub mod Fifo
pub mod Frames
use panopticon_agent.Prelude.{
  ℕ, zero, suc, ◌+◌, ◌-◌, ◌*◌, ◌%◌, ◌&&◌, Option, none, some, ltb, leb, ◌==◌, if◌then◌else◌, length,
  take, drop,
}
use panopticon_agent.Delivery.Spool.Format.{Bytes, SpoolRecord, read_u16, read_u32, crc32, u32_mod}
use panopticon_agent.Delivery.Spool.Disk.{read_file, total_bytes}
use panopticon_agent.Delivery.Spool.State.{SegmentSpool}

-- What one round of `for (;;)` does: `continue`, `return std::nullopt`, `return record`.
pub data Next : Type 0 where
  again : Next
  stop : Next
  found : SpoolRecord → Next

-- `++head_.read_segment_index; head_.read_offset = 0;`
unfoldable pub next_segment : SegmentSpool → SegmentSpool
next_segment s = record s {
  head = record head { read_segment_index = head.read_segment_index + 1; read_offset = 0 };
}
  where
    open s use {head}

-- `head_.read_offset += record_on_disk_bytes;`
unfoldable pub skip_bytes : ℕ → SegmentSpool → SegmentSpool
skip_bytes n s = record s { head = record head { read_offset = head.read_offset + n } }
  where
    open s use {head}

-- Nothing more can be trusted in this segment.
unfoldable pub leave_segment : SegmentSpool → SegmentSpool × Next
unfolding next_segment
leave_segment s =
    if ltb s.head.read_segment_index s.write_segment_index
    then (next_segment s, again)
    else (s, stop)

unfoldable pub count_corrupt : SegmentSpool → SegmentSpool
count_corrupt s = record s {
  stats = record stats { corrupt_records_skipped = stats.corrupt_records_skipped + 1 };
}
  where
    open s use {stats}

-- `const std::uint64_t record_on_disk_bytes = 4 + 4 + total_len;`, computed in 32 bits.
unfoldable pub on_disk_bytes : ℕ → ℕ
on_disk_bytes total_len = (8 + total_len) % u32_mod

-- A payload whose checksum holds.
unfoldable pub parse_payload : SegmentSpool → Bytes → SegmentSpool × Next
unfolding skip_bytes count_corrupt on_disk_bytes
parse_payload s payload = elim (read_u16 payload) [
  | none ↦ (skip_bytes (on_disk_bytes (length payload)) (count_corrupt s), again)
  | some (id_len, rest) ↦
      if ltb (length payload) (id_len + 2)
      then (skip_bytes (on_disk_bytes (length payload)) (count_corrupt s), again)
      else (
        skip_bytes (on_disk_bytes (length payload)) s,
        found (record { batch_id = take id_len rest; body = drop id_len rest }),
      )
]

unfoldable pub check_payload : SegmentSpool → ℕ → Bytes → SegmentSpool × Next
unfolding skip_bytes count_corrupt on_disk_bytes parse_payload
check_payload s crc payload =
    if crc32 payload == crc
    then parse_payload s payload
    else (skip_bytes (on_disk_bytes (length payload)) (count_corrupt s), again)

unfoldable pub read_payload : SegmentSpool → ℕ → ℕ → Bytes → SegmentSpool × Next
unfolding leave_segment check_payload
read_payload s total_len crc rest =
    if leb total_len (length rest)
    then check_payload s crc (take total_len rest)
    else leave_segment s

unfoldable pub read_crc : SegmentSpool → ℕ → Bytes → SegmentSpool × Next
unfolding leave_segment read_payload
read_crc s total_len rest = elim (read_u32 rest) [
  | none ↦ leave_segment s
  | some (crc, rest') ↦ read_payload s total_len crc rest'
]

unfoldable pub read_header : SegmentSpool → Bytes → SegmentSpool × Next
unfolding leave_segment read_crc
read_header s here = elim (read_u32 here) [
  | none ↦ leave_segment s
  | some (total_len, rest) ↦
      if leb 2 total_len && leb total_len s.config.max_segment_bytes
      then read_crc s total_len rest
      else leave_segment s
]

-- One round of the loop.
unfoldable pub read_round : SegmentSpool → SegmentSpool × Next
unfolding leave_segment read_header
read_round s = elim (read_file s.head.read_segment_index s.disk.segments) [
  | none ↦ leave_segment s
  | some bytes ↦ read_header s (drop s.head.read_offset bytes)
]

-- `none` means that the fuel ran out.
unfoldable pub read_loop : ℕ → SegmentSpool → Option (SegmentSpool × Option SpoolRecord)
read_loop zero s = none
read_loop (suc fuel) s =
    let (s', next) = read_round s in
    elim next [ again ↦ read_loop fuel s' | stop ↦ some (s', none) | found r ↦ some (s', some r) ]

-- Rounds that suffice: see Reader/Termination.
unfoldable pub read_fuel : SegmentSpool → ℕ
unfolding total_bytes
read_fuel s =
    (s.write_segment_index - s.head.read_segment_index) * (total_bytes s.disk.segments + 1)
    + total_bytes s.disk.segments
    + 1

unfoldable pub read_next_record_locked : SegmentSpool → Option (SegmentSpool × Option SpoolRecord)
unfolding read_loop read_fuel
read_next_record_locked s = read_loop (read_fuel s) s
