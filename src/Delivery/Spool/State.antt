-- ===== src/Delivery/Spool/State.antt =====
-- The fields of SegmentSpool and its constructor (include/panopticon/officer/delivery/spool.hpp,
-- src/delivery/spool.cpp).
use panopticon_agent.Prelude.{
  ℕ, Bool, false, ◌||◌, Option, none, some, [], ltb, ◌==◌, if◌then◌else◌, Result, ok, err,
}
use panopticon_agent.Delivery.Spool.Format.{SpoolRecord}
use panopticon_agent.Delivery.Spool.Disk.{Disk, Env, CursorWrite, not_renamed, renamed, renamed_cut}

pub record SpoolConfig : Type 0 where
  pub max_segment_bytes : ℕ
  pub max_total_bytes : ℕ
  pub max_delivery_attempts : ℕ
  pub base_backoff_ms : ℕ
  pub max_backoff_ms : ℕ

pub record SpoolStats : Type 0 where
  pub total_bytes : ℕ
  pub segment_count : ℕ
  pub dropped_for_quota : ℕ
  pub dead_records : ℕ
  pub corrupt_records_skipped : ℕ

pub record HeadState : Type 0 where
  pub read_segment_index : ℕ
  pub read_offset : ℕ
  pub attempts : ℕ
  pub next_attempt_at_ms : ℕ
  pub have_pending_read : Bool
  pub pending : SpoolRecord
  pub pre_peek_segment_index : ℕ
  pub pre_peek_offset : ℕ

pub record SegmentSpool : Type 0 where
  pub config : SpoolConfig
  pub disk : Disk
  pub write_segment_index : ℕ
  pub write_segment_bytes : ℕ
  pub head : HeadState
  pub stats : SpoolStats

pub data ConfigError : Type 0 where
  zero_byte_limit total_below_segment zero_attempts invalid_backoff : ConfigError

abbrev pub empty_record : SpoolRecord
empty_record = record { batch_id = []; body = [] }

abbrev pub initial_head : HeadState
initial_head = record {
  read_segment_index = 0;
  read_offset = 0;
  attempts = 0;
  next_attempt_at_ms = 0;
  have_pending_read = false;
  pending = empty_record;
  pre_peek_segment_index = 0;
  pre_peek_offset = 0;
}

abbrev pub initial_stats : SpoolStats
initial_stats = record {
  total_bytes = 0;
  segment_count = 0;
  dropped_for_quota = 0;
  dead_records = 0;
  corrupt_records_skipped = 0;
}

-- The constructor.
unfoldable pub construct : SpoolConfig → Disk → Result ConfigError SegmentSpool
construct c disk =
    if c.max_segment_bytes == 0 || c.max_total_bytes == 0
    then err zero_byte_limit
    else if ltb c.max_total_bytes c.max_segment_bytes
    then err total_below_segment
    else if c.max_delivery_attempts == 0
    then err zero_attempts
    else if c.base_backoff_ms == 0 || ltb c.max_backoff_ms c.base_backoff_ms
    then err invalid_backoff
    else ok (record {
      config = c;
      disk = disk;
      write_segment_index = 0;
      write_segment_bytes = 0;
      head = initial_head;
      stats = initial_stats;
    })

-- What the sidecar says after a write of `position`.
unfoldable pub written_cursor : CursorWrite → ℕ × ℕ → Option (ℕ × ℕ) → Option (ℕ × ℕ)
written_cursor not_renamed position old = old
written_cursor renamed position old = some position
written_cursor (renamed_cut cut) position old = cut

-- `write_cursor_locked`: the rename is atomic, and a failed one leaves the old sidecar; the code does
-- not look whether the temporary file was written whole.
unfoldable pub write_cursor_locked : Env → SegmentSpool → SegmentSpool
write_cursor_locked env s = record s {
  disk = record disk {
    cursor =
        written_cursor env.cursor_write (head.read_segment_index, head.read_offset) disk.cursor;
  };
}
  where
    open s use {disk, head}

-- `load_cursor_locked`.
unfoldable pub load_cursor_locked : SegmentSpool → SegmentSpool
load_cursor_locked s = elim s.disk.cursor [
  | none ↦ s
  | some (seg, off) ↦ record s {
    head = record head { read_segment_index = seg; read_offset = off };
  }
]
  where
    open s use {head}
