-- ===== src/Delivery/Spool/Reader/Termination.antt =====
-- The read loop ends: each round that goes on moves the cursor forward inside the directory.
use panopticon_agent.Prelude.{
  ℕ, zero, suc, ◌+◌, ◌-◌, ◌*◌, ◌≤◌, ◌<◌, ◌≡◌, ◌≢◌, inl, inr, refl, Bool, true, false, ◌&&◌, none,
  some, [], ◌∷◌, arith, length, length-take, length-drop, take, Bool-cases, Option-cases, leb, ltb,
  leb→le, ◌==◌, if-both,
}
use panopticon_agent.Delivery.Spool.Format.{Bytes, u32_mod, read_u32, read_u16, crc32}
use panopticon_agent.Delivery.Spool.Disk.{Files, read_file, total_bytes}
use panopticon_agent.Delivery.Spool.State.{SegmentSpool}
use panopticon_agent.Delivery.Spool.Reader.{
  Next, again, stop, found, skip_bytes, leave_segment, count_corrupt, on_disk_bytes, parse_payload,
  check_payload, read_payload, read_crc, read_header, read_round, read_loop, read_fuel,
  read_next_record_locked,
}

abbrev measure_at : ℕ → ℕ → ℕ → ℕ → ℕ
measure_at total w seg off = (w - seg) * (total + 1) + (total - off)

abbrev measure : SegmentSpool → ℕ
measure s =
    measure_at (total_bytes s.disk.segments) s.write_segment_index s.head.read_segment_index
      s.head.read_offset

measure-next : (t w seg off : ℕ) → seg < w → measure_at t w (seg + 1) 0 < measure_at t w seg off
measure-next t w seg off h = grind arith

measure-skip :
    (t w seg off n : ℕ)
    → 0 < n
    → off + n ≤ t
    → measure_at t w seg (off + n) < measure_at t w seg off
measure-skip t w seg off n h k = omega arith

-- A round that goes on: the directory is as it was, and the measure fell.
abbrev Advances : SegmentSpool → SegmentSpool × Next → Type 0
Advances s (s', again) = (measure s' < measure s) × (s'.config ≡ s.config)
Advances s (s', stop) = Unit {0}
Advances s (s', found r) = Unit {0}

leave_segment-Advances : (s : SegmentSpool) → Advances s (leave_segment s)
unfolding leave_segment
leave_segment-Advances s = elim (Bool-cases (ltb s.head.read_segment_index s.write_segment_index)) [
  | inl e ↦ rw e (measure-next _ _ _ _ (ground arith), refl)
  | inr e ↦ rw e tt
]

skip-Advances :
    (s : SegmentSpool) (n : ℕ)
    → 0 < n
    → s.head.read_offset + n ≤ total_bytes s.disk.segments
    → Advances s (skip_bytes n s, again)
unfolding skip_bytes
skip-Advances s n h k =
    (measure-skip _ s.write_segment_index s.head.read_segment_index _ n h k, refl)

skip-count-Advances :
    (s : SegmentSpool) (n : ℕ)
    → 0 < n
    → s.head.read_offset + n ≤ total_bytes s.disk.segments
    → Advances s (skip_bytes n (count_corrupt s), again)
unfolding skip_bytes count_corrupt
skip-count-Advances s n h k =
    (measure-skip _ s.write_segment_index s.head.read_segment_index _ n h k, refl)

on_disk_bytes-eq : (n : ℕ) → 8 + n < u32_mod → on_disk_bytes n ≡ 8 + n
unfolding on_disk_bytes
on_disk_bytes-eq n h = omega arith

module _ (s : SegmentSpool) (payload : Bytes) (short : 8 + length payload < u32_mod)
    (inside : s.head.read_offset + (8 + length payload) ≤ total_bytes s.disk.segments) where
  skip_payload : Advances s (skip_bytes (on_disk_bytes (length payload)) (count_corrupt s), again)
  skip_payload = rw (on_disk_bytes-eq _ short) (skip-count-Advances s _ (omega arith) inside)

  parse_payload-Advances : Advances s (parse_payload s payload)
  unfolding parse_payload
  parse_payload-Advances = elim (Option-cases (read_u16 payload)) [
    | inl e ↦ rw (e, parse_payload) skip_payload
    | inr ((n, rest), e) ↦
        rw (e, parse_payload)
          (if-both (Advances s) (ltb (length payload) (n + 2)) _ _ (λ _. skip_payload) (λ _. tt))
  ]

  check_payload-Advances : (crc : ℕ) → Advances s (check_payload s crc payload)
  unfolding check_payload
  check_payload-Advances crc =
      if-both (Advances s) (crc32 payload == crc) _ _ (λ _. parse_payload-Advances)
        (λ _. skip_payload)

pub read_u32-length :
    (here rest : Bytes) (n : ℕ) → read_u32 here ≡ some (n, rest) → length here ≡ 4 + length rest
unfolding read_u32
read_u32-length [] rest n h = cc
read_u32-length (a ∷ []) rest n h = cc
read_u32-length (a ∷ b ∷ []) rest n h = cc
read_u32-length (a ∷ b ∷ c ∷ []) rest n h = cc
read_u32-length (a ∷ b ∷ c ∷ d ∷ rest') rest n h = ground arith

and_split : (a b : Bool) → (a && b) ≡ true → (a ≡ true) × (b ≡ true)
and_split true b h = (refl, h)
and_split false b h = cc

module _ (s : SegmentSpool) (short : s.config.max_segment_bytes + 8 < u32_mod) where
  read_payload-Advances :
      (n crc : ℕ) (rest : Bytes)
      → n ≤ s.config.max_segment_bytes
      → s.head.read_offset + (8 + length rest) ≤ total_bytes s.disk.segments
      → Advances s (read_payload s n crc rest)
  unfolding read_payload
  read_payload-Advances n crc rest m h =
      if-both (Advances s) (leb n (length rest)) _ _
        (λ e.
          check_payload-Advances s (take n rest) (omega (arith, length-take n rest))
            (omega (arith, length-take n rest)) crc)
        (λ _. leave_segment-Advances s)

  read_crc-Advances :
      (n : ℕ) (rest : Bytes)
      → n ≤ s.config.max_segment_bytes
      → s.head.read_offset + (4 + length rest) ≤ total_bytes s.disk.segments
      → Advances s (read_crc s n rest)
  unfolding read_crc
  read_crc-Advances n rest m h = elim (Option-cases (read_u32 rest)) [
    | inl e ↦ rw (e, read_crc) (leave_segment-Advances s)
    | inr ((crc, rest'), e) ↦
        rw (e, read_crc)
          (read_payload-Advances n crc rest' m (omega (arith, read_u32-length rest rest' crc e)))
  ]

  read_header-Advances :
      (here : Bytes)
      → (0 < length here → s.head.read_offset + length here ≤ total_bytes s.disk.segments)
      → Advances s (read_header s here)
  unfolding read_header
  read_header-Advances here h = elim (Option-cases (read_u32 here)) [
    | inl e ↦ rw (e, read_header) (leave_segment-Advances s)
    | inr ((n, rest), e) ↦
        rw (e, read_header)
          (if-both (Advances s) (leb 2 n && leb n s.config.max_segment_bytes) _ _
            (λ t.
              read_crc-Advances n rest (leb→le _ _ (and_split _ _ t).1)
                (omega (arith, read_u32-length here rest n e)))
            (λ _. leave_segment-Advances s))
  ]

read_file-total :
    (i : ℕ) (fs : Files) (bs : Bytes) → read_file i fs ≡ some bs → length bs ≤ total_bytes fs
unfolding read_file total_bytes
read_file-total i [] bs h = cc
read_file-total i ((j, cs) ∷ fs) bs h = ground (arith, read_file-total i fs bs)

read_round-Advances :
    (s : SegmentSpool) → s.config.max_segment_bytes + 8 < u32_mod → Advances s (read_round s)
unfolding read_round
read_round-Advances s m =
    elim (Option-cases (read_file s.head.read_segment_index s.disk.segments)) [
      | inl e ↦ rw (e, read_round) (leave_segment-Advances s)
      | inr (bs, e) ↦
          rw (e, read_round)
            (read_header-Advances s m _
              (λ p. omega (arith, read_file-total _ _ _ e, length-drop s.head.read_offset bs)))
    ]

read_loop-ends :
    (fuel : ℕ) (s : SegmentSpool)
    → s.config.max_segment_bytes + 8 < u32_mod
    → measure s < fuel
    → read_loop fuel s ≢ none
unfolding read_loop
read_loop-ends zero s m h = absurd (omega arith)
read_loop-ends (suc fuel) s m h = go (read_loop-ends fuel) (read_round s) (read_round-Advances s m)
  where
    go :
        ((t : SegmentSpool)
          → t.config.max_segment_bytes + 8 < u32_mod
          → measure t < fuel
          → read_loop fuel t ≢ none)
        → (r : SegmentSpool × Next) → Advances s r
        → elim r.1 [
          | again ↦ read_loop fuel r.0
          | stop ↦ some (r.0, none)
          | found x ↦ some (r.0, some x)
        ]
          ≢ none
    go ih (s', again) a = ih s' (rw a.1 m) (omega arith)
    go ih (s', stop) a = λ e. cc
    go ih (s', found x) a = λ e. cc

-- Where a segment's limit leaves room for 8 more bytes in a 32-bit length, the read loop returns
-- whatever bytes the segments hold: its fuel suffices.
pub read_next_record_locked-ends :
    (s : SegmentSpool) → s.config.max_segment_bytes + 8 < u32_mod → read_next_record_locked s ≢ none
unfolding read_next_record_locked
read_next_record_locked-ends s m =
    read_loop-ends (read_fuel s) s m (unfold read_fuel in omega arith)
