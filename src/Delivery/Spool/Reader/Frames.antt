-- ===== src/Delivery/Spool/Reader/Frames.antt =====
-- Reading one round at the start of an intact frame.
use panopticon_agent.Prelude.{
  ℕ, ◌+◌, ◌≤◌, ◌<◌, ◌≡◌, refl, ◌∙◌, some, ◌++◌, arith, length, length-append, append_assoc, take,
  drop, take-append, drop-append, le→leb, le→ltb_false, ==_iff,
}
use panopticon_agent.Delivery.Spool.Format.{
  Bytes, SpoolRecord, u32_mod, write_u32, read_u32, read_u16, crc32, payload_of, frame,
}
use panopticon_agent.Delivery.Spool.Format.Laws.{
  read_u32-write_u32, read_u16-write_u16, crc32-lt, length-payload_of, length-frame,
}
use panopticon_agent.Delivery.Spool.Disk.{read_file}
use panopticon_agent.Delivery.Spool.State.{SegmentSpool, SpoolConfig}
use panopticon_agent.Delivery.Spool.Reader.{
  found, skip_bytes, on_disk_bytes, parse_payload, check_payload, read_payload, read_crc,
  read_header, read_round,
}

-- A record that `append` accepts under a configuration whose segments fit 32-bit lengths.
pub record Fits (c : SpoolConfig) (r : SpoolRecord) : Type 0 where
  pub id_short : length r.batch_id ≤ 65535
  pub in_segment : length (frame r) ≤ c.max_segment_bytes
  pub in_word : length (frame r) < u32_mod

parse_payload-read :
    (s : SegmentSpool) (payload rest : Bytes) (n : ℕ)
    → read_u16 payload ≡ some (n, rest)
    → n + 2 ≤ length payload
    → parse_payload s payload ≡ (
      skip_bytes (on_disk_bytes (length payload)) s,
      found (record { batch_id = take n rest; body = drop n rest }),
    )
unfolding parse_payload
parse_payload-read s payload rest n e h = rw (e, parse_payload) (rw (le→ltb_false _ _ h))

on_disk_bytes-frame :
    (r : SpoolRecord)
    → length (frame r) < u32_mod
    → on_disk_bytes (length (payload_of r)) ≡ length (frame r)
unfolding on_disk_bytes
on_disk_bytes-frame r h = omega (arith, length-frame r)

parse_payload-of :
    (s : SegmentSpool) (r : SpoolRecord)
    → length r.batch_id ≤ 65535
    → length (frame r) < u32_mod
    → parse_payload s (payload_of r) ≡ (skip_bytes (length (frame r)) s, found r)
parse_payload-of s r h k =
    parse_payload-read s (payload_of r) (r.batch_id ++ r.body) (length r.batch_id)
      (unfold payload_of in
        read_u16-write_u16 (length r.batch_id) (r.batch_id ++ r.body) (omega arith))
      (omega (arith, length-payload_of r))
    ∙ rw (
      on_disk_bytes-frame r k,
      take-append r.batch_id r.body _ refl,
      drop-append r.batch_id r.body _ refl,
    )

check_payload-of :
    (s : SegmentSpool) (r : SpoolRecord)
    → Fits s.config r
    → check_payload s (crc32 (payload_of r)) (payload_of r)
      ≡ (skip_bytes (length (frame r)) s, found r)
unfolding check_payload
check_payload-of s r f =
    rw ((==_iff (crc32 (payload_of r)) (crc32 (payload_of r))).1 refl)
      (parse_payload-of s r f.id_short f.in_word)

read_header-read :
    (s : SegmentSpool) (here rest rest' : Bytes) (n crc : ℕ)
    → read_u32 here ≡ some (n, rest)
    → 2 ≤ n
    → n ≤ s.config.max_segment_bytes
    → read_u32 rest ≡ some (crc, rest')
    → n ≤ length rest'
    → read_header s here ≡ check_payload s crc (take n rest')
unfolding read_header read_crc read_payload
read_header-read s here rest rest' n crc e a b e' c =
    rw (e, read_header) (rw (le→leb _ _ a, le→leb _ _ b) (rw (e', read_crc) (rw (le→leb _ _ c))))

-- A frame of any payload and any checksum.
abbrev pub raw_frame : Bytes → ℕ → Bytes
raw_frame payload crc = write_u32 (length payload) ++ (write_u32 crc ++ payload)

-- Intact framing gives the payload to the checksum test.
pub read_header-raw_frame :
    (s : SegmentSpool) (p post : Bytes) (crc : ℕ)
    → 2 ≤ length p
    → length p ≤ s.config.max_segment_bytes
    → length p < u32_mod
    → crc < u32_mod
    → read_header s (raw_frame p crc ++ post) ≡ check_payload s crc p
read_header-raw_frame s p post crc a b w v =
    read_header-read s (raw_frame p crc ++ post) (write_u32 crc ++ (p ++ post)) (p ++ post)
      (length p) crc
      (rw (append_assoc, append_assoc)
        (read_u32-write_u32 (length p) (write_u32 crc ++ (p ++ post)) w))
      a b (read_u32-write_u32 crc (p ++ post) v) (omega (arith, length-append {0} p post))
    ∙ rw (take-append p post _ refl)

frame-raw_frame : (r : SpoolRecord) → frame r ≡ raw_frame (payload_of r) (crc32 (payload_of r))
unfolding frame
frame-raw_frame r = refl

read_header-frame :
    (s : SegmentSpool) (r : SpoolRecord) (post : Bytes)
    → Fits s.config r
    → read_header s (frame r ++ post) ≡ (skip_bytes (length (frame r)) s, found r)
read_header-frame s r post f = rw (frame-raw_frame r) (
    read_header-raw_frame s (payload_of r) post (crc32 (payload_of r))
      (omega (arith, length-payload_of r)) (omega (arith, length-frame r, f.in_segment))
      (omega (arith, length-frame r, f.in_word)) (crc32-lt (payload_of r))
    ∙ rw (← frame-raw_frame r) (check_payload-of s r f))

-- At the start of an intact frame one round returns its record, and moves past the frame.
pub read_round-frame :
    (s : SegmentSpool) (r : SpoolRecord) (pre post : Bytes)
    → Fits s.config r
    → read_file s.head.read_segment_index s.disk.segments ≡ some (pre ++ (frame r ++ post))
    → s.head.read_offset ≡ length pre
    → read_round s ≡ (skip_bytes (length (frame r)) s, found r)
unfolding read_round
read_round-frame s r pre post f e o =
    rw (e, read_round)
      (rw (drop-append pre (frame r ++ post) s.head.read_offset o) (read_header-frame s r post f))
