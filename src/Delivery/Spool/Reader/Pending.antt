-- ===== src/Delivery/Spool/Reader/Pending.antt =====
-- The records that lie ahead of a position, and that the read loop serves them in order.
use panopticon_agent.Prelude.{
  ℕ, zero, suc, ◌+◌, ◌≤◌, ◌<◌, ◌≡◌, ◌≢◌, ◌⊎◌, inl, inr, refl, sym, ap, ◌∙◌, ◌&&◌, Option, none,
  some, List, [], ◌∷◌, ◌++◌, arith, length, drop-append, Option-cases, leb, lt→ltb, le→ltb_false,
  ◌==◌, if-both, head?, tail, append-nil, gt→leb_false, ==_iff,
}
use panopticon_agent.Delivery.Spool.Format.{Bytes, SpoolRecord, u32_mod, read_u32, crc32, frame}
use panopticon_agent.Delivery.Spool.Disk.{Files, read_file}
use panopticon_agent.Delivery.Spool.State.{SegmentSpool, SpoolConfig}
use panopticon_agent.Delivery.Spool.Reader.{
  Next, again, stop, found, next_segment, skip_bytes, leave_segment, count_corrupt, on_disk_bytes,
  check_payload, read_payload, read_crc, read_header, read_round, read_loop, read_fuel,
  read_next_record_locked,
}
use panopticon_agent.Delivery.Spool.Reader.Frames.{
  Fits, raw_frame, read_round-frame, read_header-raw_frame,
}
use panopticon_agent.Delivery.Spool.Reader.Termination.{
  read_next_record_locked-ends, read_u32-length,
}

-- What a crash during an append leaves after the last whole frame: a cut header or a cut payload.
pub data Torn : Bytes → Type 0 where
  no_length : {bs : Bytes} → read_u32 bs ≡ none → Torn bs
  no_payload :
      {bs rest : Bytes} (n : ℕ) → read_u32 bs ≡ some (n, rest) → length rest < 4 + n → Torn bs

-- No more records in this file from this offset on.
pub data Spent (fs : Files) (seg off : ℕ) : Type 0 where
  missing : read_file seg fs ≡ none → Spent fs seg off
  torn :
      (pre bs : Bytes)
      → read_file seg fs ≡ some (pre ++ bs)
      → off ≡ length pre
      → Torn bs
      → Spent fs seg off

-- A whole frame whose checksum does not hold.
pub record Corrupt (c : SpoolConfig) (payload : Bytes) (crc : ℕ) : Type 0 where
  pub crc_word : crc < u32_mod
  pub wrong : crc32 payload ≢ crc
  pub long_enough : 2 ≤ length payload
  pub in_segment : length payload ≤ c.max_segment_bytes
  pub in_word : 8 + length payload < u32_mod

-- The end of what was written, exactly.
pub data Ended (fs : Files) (seg off : ℕ) : Type 0 where
  unwritten : read_file seg fs ≡ none → off ≡ 0 → Ended fs seg off
  at_end : (bs : Bytes) → read_file seg fs ≡ some bs → off ≡ length bs → Ended fs seg off

-- From this position on, up to the active segment `w`, the files hold these records.
-- The active segment may end in a torn record where `T` has a proof.
pub data Pending (T : Type 0) (c : SpoolConfig) (fs : Files) (w : ℕ)
    : ℕ → ℕ → List SpoolRecord → Type 0 where
  caught_up : {seg off : ℕ} → seg ≡ w → Ended fs seg off → Pending T c fs w seg off []
  torn_end : {seg off : ℕ} → T → seg ≡ w → Spent fs seg off → Pending T c fs w seg off []
  move_on :
      {seg off : ℕ} {rs : List SpoolRecord}
      → seg < w
      → Spent fs seg off
      → Pending T c fs w (seg + 1) 0 rs
      → Pending T c fs w seg off rs
  next_record :
      {seg off : ℕ} {rs : List SpoolRecord} (r : SpoolRecord) (pre post : Bytes)
      → Fits c r
      → read_file seg fs ≡ some (pre ++ (frame r ++ post))
      → off ≡ length pre
      → Pending T c fs w seg (off + length (frame r)) rs
      → Pending T c fs w seg off (r ∷ rs)
  quarantined :
      {seg off : ℕ} {rs : List SpoolRecord} (payload : Bytes) (crc : ℕ) (pre post : Bytes)
      → Corrupt c payload crc
      → read_file seg fs ≡ some (pre ++ (raw_frame payload crc ++ post))
      → off ≡ length pre
      → Pending T c fs w seg (off + (8 + length payload)) rs
      → Pending T c fs w seg off rs

-- The spool with its read cursor and its count of corrupt records put in.
abbrev pub at : SegmentSpool → ℕ → ℕ → ℕ → SegmentSpool
at s seg off k = record s {
  head = record head { read_segment_index = seg; read_offset = off };
  stats = record stats { corrupt_records_skipped = k };
}
  where
    open s use {head, stats}

abbrev pub PendingAt : Type 0 → SegmentSpool → ℕ → ℕ → List SpoolRecord → Type 0
PendingAt T s = Pending T s.config s.disk.segments s.write_segment_index

read_payload_cut :
    (s : SegmentSpool) (n crc : ℕ) (rest : Bytes)
    → length rest < n
    → read_payload s n crc rest ≡ leave_segment s
unfolding read_payload
read_payload_cut s n crc rest h = rw (gt→leb_false _ _ h)

read_crc_cut :
    (s : SegmentSpool) (n : ℕ) (rest : Bytes)
    → length rest < 4 + n
    → read_crc s n rest ≡ leave_segment s
unfolding read_crc
read_crc_cut s n rest h = elim (Option-cases (read_u32 rest)) [
  | inl e ↦ rw (e, read_crc)
  | inr ((crc, rest'), e) ↦
      rw (e, read_crc)
        (read_payload_cut s n crc rest' (omega (arith, h, read_u32-length rest rest' crc e)))
]

read_header-Torn : (s : SegmentSpool) (bs : Bytes) → Torn bs → read_header s bs ≡ leave_segment s
unfolding read_header
read_header-Torn s bs (no_length e) = rw (e, read_header)
read_header-Torn s bs (no_payload {rest = rest} n e h) =
    rw (e, read_header)
      (if-both (λ r. r ≡ leave_segment s) (leb 2 n && leb n s.config.max_segment_bytes) _ _
        (λ _. read_crc_cut s n rest h) (λ _. refl))

read_round-Spent :
    (s : SegmentSpool)
    → Spent s.disk.segments s.head.read_segment_index s.head.read_offset
    → read_round s ≡ leave_segment s
unfolding read_round
read_round-Spent s (missing e) = rw (e, read_round)
read_round-Spent s (torn pre bs e o t) =
    rw (e, read_round) (rw (drop-append pre bs s.head.read_offset o) (read_header-Torn s bs t))

pub Ended-Spent : {fs : Files} {seg off : ℕ} → Ended fs seg off → Spent fs seg off
unfolding read_u32
Ended-Spent (unwritten e o) = missing e
Ended-Spent (at_end bs e o) = torn bs [] (e ∙ ap some (sym (append-nil bs))) o (no_length refl)

read_round-Corrupt :
    (s : SegmentSpool) (payload : Bytes) (crc : ℕ) (pre post : Bytes)
    → Corrupt s.config payload crc
    → read_file s.head.read_segment_index s.disk.segments
      ≡ some (pre ++ (raw_frame payload crc ++ post))
    → s.head.read_offset ≡ length pre
    → read_round s ≡ (skip_bytes (8 + length payload) (count_corrupt s), again)
unfolding read_round check_payload on_disk_bytes
read_round-Corrupt s payload crc pre post c e o =
    rw (e, read_round)
      (rw (drop-append pre (raw_frame payload crc ++ post) s.head.read_offset o) (
        read_header-raw_frame s payload post crc c.long_enough c.in_segment
          (omega (arith, c.in_word)) c.crc_word
        ∙ if-both (λ r. r ≡ (skip_bytes (8 + length payload) (count_corrupt s), again))
            (crc32 payload == crc) _ _ (λ t. absurd (c.wrong ((==_iff _ _).0 t)))
            (λ _. ap (λ n. (skip_bytes n (count_corrupt s), again)) (omega (arith, c.in_word)))))

-- One call of the reader: the first pending record, and the rest still ahead.
abbrev pub Serves :
    Type 0 → SegmentSpool → List SpoolRecord → Option (SegmentSpool × Option SpoolRecord) → Type 0
Serves T s rs result =
    (seg : ℕ) × (off : ℕ) × (k : ℕ) × (result ≡ some (at s seg off k, head? rs))
    × PendingAt T s seg off (tail rs)

leave_active :
    (s : SegmentSpool)
    → s.head.read_segment_index ≡ s.write_segment_index
    → leave_segment s ≡ (s, stop)
unfolding leave_segment
leave_active s e = rw (le→ltb_false s.head.read_segment_index s.write_segment_index (omega arith))

leave_sealed :
    (s : SegmentSpool)
    → s.head.read_segment_index < s.write_segment_index
    → leave_segment s ≡ (next_segment s, again)
unfolding leave_segment
leave_sealed s h = rw (lt→ltb _ _ h)

-- One round of the loop, by what it does.
module _ (fuel : ℕ) (s : SegmentSpool) where
  after_round : SegmentSpool × Next → Option (SegmentSpool × Option SpoolRecord)
  after_round r = elim r.1 [
    | again ↦ read_loop fuel r.0
    | stop ↦ some (r.0, none)
    | found x ↦ some (r.0, some x)
  ]

  read_loop-round :
      (r : SegmentSpool × Next) → read_round s ≡ r → read_loop (suc fuel) s ≡ after_round r
  unfolding read_loop after_round
  read_loop-round r e = ap after_round e

read_loop-Serves :
    {T : Type 0} (s : SegmentSpool) {seg off : ℕ} {rs : List SpoolRecord}
    (p : PendingAt T s seg off rs) (fuel k : ℕ)
    → (read_loop fuel (at s seg off k) ≡ none) ⊎ Serves T s rs (read_loop fuel (at s seg off k))
unfolding read_loop next_segment skip_bytes count_corrupt after_round
read_loop-Serves s p zero k = inl refl
read_loop-Serves s {seg} {off} (caught_up e t) (suc fuel) k = inr (
  seg,
  off,
  k,
  read_loop-round fuel (at s seg off k) _
      (read_round-Spent (at s seg off k) (Ended-Spent t) ∙ leave_active (at s seg off k) e),
  caught_up e t,
)
read_loop-Serves s {seg} {off} (torn_end x e t) (suc fuel) k = inr (
  seg,
  off,
  k,
  read_loop-round fuel (at s seg off k) _
      (read_round-Spent (at s seg off k) t ∙ leave_active (at s seg off k) e),
  torn_end x e t,
)
read_loop-Serves s {seg} {off} (move_on h t p) (suc fuel) k =
    rw
      (read_loop-round fuel (at s seg off k) _
        (read_round-Spent (at s seg off k) t ∙ leave_sealed (at s seg off k) h))
      (read_loop-Serves s {seg = seg + 1} {off = 0} p fuel k)
read_loop-Serves s {seg} {off} (next_record r pre post f e o p) (suc fuel) k = inr (
  seg,
  off + length (frame r),
  k,
  read_loop-round fuel (at s seg off k) _ (read_round-frame (at s seg off k) r pre post f e o),
  p,
)
read_loop-Serves s {seg} {off} (quarantined payload crc pre post c e o p) (suc fuel) k =
    rw
      (read_loop-round fuel (at s seg off k) _
        (read_round-Corrupt (at s seg off k) payload crc pre post c e o))
      (read_loop-Serves s {seg = seg} {off = off + (8 + length payload)} p fuel (k + 1))

-- Where a segment's limit leaves room for 8 more bytes in a 32-bit length, the reader returns the
-- first of the records pending at its position, or nothing if none is, and the others are pending
-- at the position it leaves; damaged and torn records on the way are passed over.
pub read_next-Pending :
    {T : Type 0} (s : SegmentSpool) (rs : List SpoolRecord)
    → s.config.max_segment_bytes + 8 < u32_mod
    → PendingAt T s s.head.read_segment_index s.head.read_offset rs
    → Serves T s rs (read_next_record_locked s)
unfolding read_next_record_locked
read_next-Pending s rs m p =
    elim (read_loop-Serves s {seg = s.head.read_segment_index} {off = s.head.read_offset} p
      (read_fuel s) s.stats.corrupt_records_skipped) [
        | inl e ↦ absurd (read_next_record_locked-ends s m e)
        | inr v ↦ v
      ]
