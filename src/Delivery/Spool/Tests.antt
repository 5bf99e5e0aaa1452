-- ===== src/Delivery/Spool/Tests.antt =====
-- Two records in one segment, and the theorems about the spool applied to them.
use panopticon_agent.Prelude.{
  ◌+◌, ◌≡◌, ◌≢◌, refl, true, false, none, some, List, [], ◌∷◌, ◌++◌, arith, not, ◌==◌, length,
  length-append, ok, min, ◌*◌, ◌^◌, ◌%◌,
}
use panopticon_agent.Delivery.Spool.Format.{
  SpoolRecord, Bytes, frame, write_u32, write_u16, payload_of, u64_mod, read_u32,
}
use panopticon_agent.Delivery.Spool.Format.Laws.{length-frame, length-payload_of}
use panopticon_agent.Delivery.Spool.Disk.{
  Env, renamed, read_file, append_file, oldest_evictable, total_bytes,
}
use panopticon_agent.Delivery.Spool.State.{SpoolConfig, SegmentSpool, initial_head, initial_stats}
use panopticon_agent.Delivery.Spool.Reader.{read_next_record_locked}
use panopticon_agent.Delivery.Spool.Reader.Frames.{Fits}
use panopticon_agent.Delivery.Spool.Reader.Termination.{read_next_record_locked-ends}
use panopticon_agent.Delivery.Spool.Reader.Pending.{
  Pending, Serves, read_next-Pending, caught_up, at_end, next_record,
}
use panopticon_agent.Delivery.Spool.Operations.{
  has_ready, peek_ready, report_outcome, evict_for_quota_locked, evict_loop, append, recover,
  store_record,
}
use panopticon_agent.Delivery.Spool.Operations.Delivery.{
  Holds, idle, out, peek_ready-Holds, report_outcome-Holds,
}
use panopticon_agent.Delivery.Spool.Operations.Eviction.{
  Idle, Loses, QuotaMet, SameWriter, evict_for_quota_locked-Loses, evict_loop_stuck,
}
use panopticon_agent.Delivery.Spool.Operations.Append.{append-Idle}
use panopticon_agent.Delivery.Spool.Operations.Backoff.{report_outcome_failed}
use panopticon_agent.Delivery.Spool.Operations.Recovery.{recover-Idle, report_outcome-recover}
use panopticon_agent.Delivery.Spool.Operations.TornTail.{append_behind_torn}

abbrev small : SpoolConfig
small = record {
  max_segment_bytes = 100;
  max_total_bytes = 200;
  max_delivery_attempts = 3;
  base_backoff_ms = 100;
  max_backoff_ms = 1000;
}

abbrev env : Env
env = record { now_ms = 5; cursor_write = renamed; removable = λ i. true; stored = 100 }

abbrev one : SpoolRecord
one = record { batch_id = 97 ∷ []; body = 98 ∷ [] }

abbrev two : SpoolRecord
two = record { batch_id = 99 ∷ []; body = [] }

abbrev queue : List SpoolRecord
queue = one ∷ two ∷ []

abbrev segment : Bytes
segment = frame one ++ (frame two ++ [])

abbrev spool : SegmentSpool
spool = record {
  config = small;
  disk = record { segments = (0, segment) ∷ []; cursor = some (0, 0) };
  write_segment_index = 0;
  write_segment_bytes = 23;
  head = initial_head;
  stats = initial_stats;
}

-- The same spool with its first record handed out.
abbrev taken : SegmentSpool
taken = record spool {
  head = record initial_head {
    read_offset = length (frame one);
    have_pending_read = true;
    pending = one;
  };
}

Fits-one : Fits small one
Fits-one = record {
  id_short = omega arith;
  in_segment = omega (arith, length-frame one, length-payload_of one);
  in_word = omega (arith, length-frame one, length-payload_of one);
}

Fits-two : Fits small two
Fits-two = record {
  id_short = omega arith;
  in_segment = omega (arith, length-frame two, length-payload_of two);
  in_word = omega (arith, length-frame two, length-payload_of two);
}

ahead_two : Pending ⊥ small ((0, segment) ∷ []) 0 0 (length (frame one)) (two ∷ [])
unfolding read_file
ahead_two = next_record two (frame one) [] Fits-two refl refl (
    caught_up refl (
      at_end segment refl (
        omega (
          arith,
          length-append {0} (frame one) (frame two ++ []),
          length-append {0} (frame two) [],
        ))))

ahead_one : Pending ⊥ small ((0, segment) ∷ []) 0 0 0 queue
unfolding read_file frame write_u32 payload_of write_u16
ahead_one = next_record one [] (frame two ++ []) Fits-one refl refl ahead_two

Idle-spool : Idle ⊥ spool queue
Idle-spool = record { not_out = refl; ahead = ahead_one; up_to = (omega arith, tt) }

Holds-taken : Holds ⊥ taken queue
Holds-taken = out refl (two ∷ []) refl ahead_one ahead_two

read_next-Pending_example : Serves ⊥ spool queue (read_next_record_locked spool)
read_next-Pending_example = read_next-Pending {T = ⊥} spool queue (omega arith) ahead_one

read_next_record_locked-ends_example : read_next_record_locked spool ≢ none
read_next_record_locked-ends_example = read_next_record_locked-ends spool (omega arith)

append-Idle_example :
    (s' : SegmentSpool) × (lost : List SpoolRecord) × (rest : List SpoolRecord) × (append env one
        spool
      ≡ ok s')
    × (queue ≡ lost ++ rest)
    × Idle ⊥ s' (rest ++ one ∷ [])
append-Idle_example =
    append-Idle env one spool queue (λ j. refl)
      (omega (arith, length-frame one, length-payload_of one)) Fits-one Idle-spool

peek_ready-Holds_example :
    (s' : SegmentSpool) × (peek_ready env spool ≡ some (s', some one)) × Holds ⊥ s' queue
unfolding has_ready
peek_ready-Holds_example =
    peek_ready-Holds {T = ⊥} env spool queue (omega arith) refl (idle refl ahead_one)

report_outcome-Holds_example : Holds ⊥ (report_outcome env false taken) queue
report_outcome-Holds_example = report_outcome-Holds {T = ⊥} env false taken queue refl Holds-taken

recover-Idle_example : Idle ⊥ (recover spool) queue
unfolding read_file
recover-Idle_example =
    recover-Idle {T = ⊥} spool 0 0 0 segment segment queue refl (omega arith, tt) refl refl
      (omega arith) ahead_one

report_outcome-recover_example : Idle ⊥ (recover (report_outcome env true taken)) (two ∷ [])
unfolding read_file
report_outcome-recover_example =
    report_outcome-recover {T = ⊥} env taken segment segment queue refl refl (omega arith, tt) refl
      refl (omega arith) Holds-taken

evict_for_quota_locked-Loses_example :
    (s' : SegmentSpool) × (evict_for_quota_locked env 190 spool ≡ some s')
    × Loses ⊥ queue s'
    × QuotaMet 190 s'
    × SameWriter spool s'
evict_for_quota_locked-Loses_example =
    evict_for_quota_locked-Loses {T = ⊥} env 190 spool queue (λ j. refl) Idle-spool

report_outcome_failed_example :
    let s' = report_outcome env false taken in
    (s'.head.next_attempt_at_ms ≡ (5 + min 1000 (100 * 2 ^ 0)) % u64_mod)
    × (s'.head.attempts ≡ 0 + 1)
    × (s'.head.read_segment_index ≡ 0)
    × (s'.head.read_offset ≡ 0)
    × (s'.disk ≡ taken.disk)
report_outcome_failed_example =
    report_outcome_failed env taken refl (omega arith) (omega arith) (omega arith)

abbrev tight : SegmentSpool
tight = record spool { config = record small { max_segment_bytes = 9 } }

-- Segment 0 cannot be deleted.
abbrev crowded : SegmentSpool
crowded = record spool {
  disk = record { segments = (0, 7 ∷ []) ∷ (1, 8 ∷ []) ∷ []; cursor = none };
  write_segment_index = 1;
}

abbrev locked : Env
locked = record env { removable = λ i. not (i == 0) }

evict_loop_stuck_example : evict_loop 50 locked 199 crowded ≡ none
unfolding oldest_evictable total_bytes
evict_loop_stuck_example = evict_loop_stuck 50 locked 199 0 crowded (omega arith) refl refl

-- A header that announces 20 bytes, and nothing behind it.
abbrev cut : Bytes
cut = 20 ∷ 0 ∷ 0 ∷ 0 ∷ []

abbrev torn_spool : SegmentSpool
torn_spool = record spool {
  disk = record { segments = (0, cut) ∷ []; cursor = none };
  write_segment_bytes = 4;
}

append_behind_torn_example :
    (append env one torn_spool ≡ ok (store_record env one (length (frame one)) torn_spool))
    × ((s' : SegmentSpool) × (peek_ready env (store_record env one (length (frame one)) torn_spool)
          ≡ some (s', none)))
unfolding read_file read_u32 total_bytes has_ready store_record append_file
append_behind_torn_example =
    append_behind_torn env one torn_spool [] cut [] 20
      (omega (arith, length-frame one, length-payload_of one)) Fits-one (omega arith)
      (omega (arith, length-frame one, length-payload_of one))
      (omega (arith, length-frame one, length-payload_of one)) refl refl refl refl refl
      (omega (arith, length-frame one, length-payload_of one)) env refl
