-- ===== src/Delivery/Spool/Operations.antt =====
-- The public operations of SegmentSpool (src/delivery/spool.cpp). The mutex makes each one step.
pub mod Eviction
pub mod Append
pub mod Recovery
pub mod TornTail
pub mod Backoff
pub mod Delivery
use panopticon_agent.Prelude.{
  ℕ, zero, suc, ◌+◌, ◌-◌, ◌*◌, ◌%◌, max, Bool, true, false, ◌&&◌, ◌||◌, Option, none, some, ltb,
  leb, ◌==◌, if◌then◌else◌, length, take, Result, ok, err,
}
use panopticon_agent.Delivery.Spool.Format.{SpoolRecord, frame, u32_mod, u64_mod}
use panopticon_agent.Delivery.Spool.Disk.{
  Files, Env, read_file, append_file, remove_file, reclaim, total_bytes, oldest_evictable,
  min_index, max_index, count_existing,
}
use panopticon_agent.Delivery.Spool.State.{
  SegmentSpool, HeadState, write_cursor_locked, load_cursor_locked,
}
use panopticon_agent.Delivery.Spool.Reader.{read_next_record_locked}

unfoldable pub has_ready : Env → SegmentSpool → Bool
has_ready env s =
    if s.head.have_pending_read then true else leb s.head.next_attempt_at_ms env.now_ms

abbrev pub snapshot_position : SegmentSpool → SegmentSpool
snapshot_position s = record s {
  head = record head {
    pre_peek_segment_index = head.read_segment_index;
    pre_peek_offset = head.read_offset;
  };
}
  where
    open s use {head}

abbrev pub hold_pending : SegmentSpool → SpoolRecord → SegmentSpool
hold_pending s r = record s { head = record head { pending = r; have_pending_read = true } }
  where
    open s use {head}

abbrev pub finish_peek :
    Option (SegmentSpool × Option SpoolRecord) → Option (SegmentSpool × Option SpoolRecord)
finish_peek none = none
finish_peek (some (s, none)) = some (s, none)
finish_peek (some (s, some r)) = some (hold_pending s r, some r)

-- `peek_ready`. The outer `none` would be a read loop that does not end.
unfoldable pub peek_ready : Env → SegmentSpool → Option (SegmentSpool × Option SpoolRecord)
peek_ready env s =
    if s.head.have_pending_read
    then some (s, some s.head.pending)
    else if ltb env.now_ms s.head.next_attempt_at_ms
    then some (s, none)
    else finish_peek (read_next_record_locked (snapshot_position s))

-- `for (i = 0; i < exponent && delay < max; ++i) delay *= 2;`
unfoldable pub backoff_loop : ℕ → ℕ → ℕ → ℕ
backoff_loop zero limit delay = delay
backoff_loop (suc rounds) limit delay =
    let rest = backoff_loop rounds limit (delay * 2 % u64_mod) in
    if ltb delay limit then rest else delay

unfoldable pub backoff_delay : SegmentSpool → ℕ → ℕ
unfolding backoff_loop
backoff_delay s attempts =
    let delay : ℕ = backoff_loop (attempts - 1) s.config.max_backoff_ms s.config.base_backoff_ms in
    if ltb s.config.max_backoff_ms delay then s.config.max_backoff_ms else delay

-- The `commit` branch of `report_outcome`.
unfoldable pub commit_record : Env → SegmentSpool → SegmentSpool
unfolding write_cursor_locked reclaim total_bytes
commit_record env s =
    let written = write_cursor_locked env (record s {
      head = record head { attempts = 0; next_attempt_at_ms = 0; have_pending_read = false };
    }) in
    let files = reclaim env written.head.read_segment_index written.disk.segments in
    record written {
      disk = record (written.disk) { segments = files };
      stats = record (written.stats) { total_bytes = total_bytes files };
    }
  where
    open s use {head}

-- The other branch: wait, and roll the cursor back.
unfoldable pub retry_later : Env → SegmentSpool → SegmentSpool
unfolding backoff_delay
retry_later env s = record s {
  head = record head {
    next_attempt_at_ms = (env.now_ms + backoff_delay s head.attempts) % u64_mod;
    have_pending_read = false;
    read_segment_index = head.pre_peek_segment_index;
    read_offset = head.pre_peek_offset;
  };
}
  where
    open s use {head}

unfoldable pub count_attempt : SegmentSpool → SegmentSpool
count_attempt s = record s { head = record head { attempts = (head.attempts + 1) % u32_mod } }
  where
    open s use {head}

unfoldable pub count_dead : SegmentSpool → SegmentSpool
count_dead s = record s { stats = record stats { dead_records = stats.dead_records + 1 } }
  where
    open s use {stats}

unfoldable pub report_failure : Env → SegmentSpool → SegmentSpool
unfolding commit_record retry_later count_dead
report_failure env s =
    if leb s.config.max_delivery_attempts s.head.attempts
    then commit_record env (count_dead s)
    else retry_later env s

unfoldable pub report_outcome : Env → Bool → SegmentSpool → SegmentSpool
unfolding commit_record report_failure count_attempt
report_outcome env delivered s =
    if s.head.have_pending_read
    then (if delivered then commit_record env s else report_failure env (count_attempt s))
    else s

-- What the loop of `evict_for_quota_locked` does with the oldest segment it found.
unfoldable pub evict_segment : Env → ℕ → SegmentSpool → SegmentSpool
unfolding remove_file write_cursor_locked
evict_segment env oldest s =
    let s' = record s {
      disk = record disk { segments = remove_file env oldest disk.segments };
      stats = record stats { dropped_for_quota = stats.dropped_for_quota + 1 };
    } in
    if oldest == head.read_segment_index
    then write_cursor_locked env (record s' {
      head = record head {
        read_segment_index = oldest + 1;
        read_offset = 0;
        have_pending_read = false;
        attempts = 0;
        next_attempt_at_ms = 0;
      };
    })
    else s'
  where
    open s use {disk, head, stats}

-- `none` means that the fuel ran out.
unfoldable pub evict_loop : ℕ → Env → ℕ → SegmentSpool → Option SegmentSpool
unfolding total_bytes oldest_evictable
evict_loop zero env incoming s = none
evict_loop (suc fuel) env incoming s =
    if ltb s.config.max_total_bytes (total_bytes s.disk.segments + incoming)
    then elim (oldest_evictable s.write_segment_index s.disk.segments) [
      | none ↦ some s
      | some oldest ↦ evict_loop fuel env incoming (evict_segment env oldest s)
    ]
    else some s

unfoldable pub evict_for_quota_locked : Env → ℕ → SegmentSpool → Option SegmentSpool
unfolding evict_loop
evict_for_quota_locked env incoming s = evict_loop (length s.disk.segments + 1) env incoming s

-- `payload_overrun`: the 32-bit length wrapped, and the copies would leave the buffer.
pub data AppendError : Type 0 where
  batch_id_too_long record_too_large payload_overrun eviction_stuck : AppendError

unfoldable pub rotate : ℕ → SegmentSpool → SegmentSpool
rotate record_bytes s =
    if ltb 0 s.write_segment_bytes
      && ltb s.config.max_segment_bytes (s.write_segment_bytes + record_bytes)
    then record s { write_segment_index = s.write_segment_index + 1; write_segment_bytes = 0 }
    else s

unfoldable pub store_record : Env → SpoolRecord → ℕ → SegmentSpool → SegmentSpool
unfolding append_file total_bytes
store_record env r record_bytes s =
    let files = append_file s.write_segment_index (take env.stored (frame r)) s.disk.segments in
    record s {
      disk = record disk { segments = files };
      write_segment_bytes = s.write_segment_bytes + record_bytes;
      stats = record stats {
        total_bytes = total_bytes files;
        segment_count = max 1 (s.write_segment_index + 1 - s.head.read_segment_index);
      };
    }
  where
    open s use {disk, stats}

-- The rest of `append`, after the eviction.
abbrev pub append_evicted :
    Env → SpoolRecord → ℕ → ℕ → Option SegmentSpool → Result AppendError SegmentSpool
append_evicted env r total_len record_bytes none = err eviction_stuck
append_evicted env r total_len record_bytes (some s) =
    if ltb total_len (2 + length r.batch_id + length r.body)
    then err payload_overrun
    else ok (store_record env r record_bytes (rotate record_bytes s))

abbrev pub append_sized : Env → SpoolRecord → ℕ → ℕ → SegmentSpool → Result AppendError SegmentSpool
append_sized env r total_len record_bytes s =
    if ltb 65535 (length r.batch_id)
    then err batch_id_too_long
    else if ltb s.config.max_segment_bytes record_bytes
    then err record_too_large
    else append_evicted env r total_len record_bytes (evict_for_quota_locked env record_bytes s)

-- `append`: `total_len` and `record_bytes` are computed in 32 bits.
unfoldable pub append : Env → SpoolRecord → SegmentSpool → Result AppendError SegmentSpool
unfolding evict_for_quota_locked rotate store_record
append env r s =
    let total_len : ℕ = (2 + length r.batch_id + length r.body) % u32_mod in
    append_sized env r total_len ((8 + total_len) % u32_mod) s

abbrev pub reset_head : HeadState → HeadState
reset_head head = record head { attempts = 0; next_attempt_at_ms = 0; have_pending_read = false }

-- The branch of `recover` that finds no segment.
unfoldable pub start_empty : SegmentSpool → SegmentSpool
unfolding total_bytes
start_empty s = record s {
  write_segment_index = 1;
  write_segment_bytes = 0;
  head = reset_head (record head { read_segment_index = 1; read_offset = 0 });
  stats = record stats { total_bytes = total_bytes s.disk.segments; segment_count = 0 };
}
  where
    open s use {head, stats}

abbrev pub file_size : ℕ → Files → ℕ
file_size i fs = elim (read_file i fs) [ none ↦ 0 | some bs ↦ length bs ]

-- A cursor outside the surviving segments falls back to the oldest one.
unfoldable pub clamp_cursor : ℕ → ℕ → HeadState → HeadState
clamp_cursor lo hi head =
    if ltb head.read_segment_index lo || ltb hi head.read_segment_index
    then record head { read_segment_index = lo; read_offset = 0 }
    else head

unfoldable pub resume : ℕ → ℕ → SegmentSpool → SegmentSpool
unfolding load_cursor_locked clamp_cursor total_bytes count_existing read_file
resume lo hi s =
    let loaded =
      load_cursor_locked
        (record s { head = record head { read_segment_index = lo; read_offset = 0 } }) in
    record s {
      write_segment_index = hi;
      write_segment_bytes = file_size hi s.disk.segments;
      head = reset_head (clamp_cursor lo hi loaded.head);
      stats = record stats {
        total_bytes = total_bytes s.disk.segments;
        segment_count = count_existing (hi + 1 - lo) lo s.disk.segments;
      };
    }
  where
    open s use {head, stats}

unfoldable pub recover : SegmentSpool → SegmentSpool
unfolding min_index max_index start_empty resume
recover s = elim (max_index s.disk.segments) [
  | none ↦ start_empty s
  | some hi ↦ elim (min_index s.disk.segments) [ none ↦ start_empty s | some lo ↦ resume lo hi s ]
]
