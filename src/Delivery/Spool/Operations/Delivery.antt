-- ===== src/Delivery/Spool/Operations/Delivery.antt =====
-- What `peek_ready` and `report_outcome` do to the queue of undelivered records.
use panopticon_agent.Prelude.{
  subst, ◌+◌, ◌%◌, ◌<◌, ◌≡◌, inl, inr, refl, sym, ap, ◌∙◌, Bool, true, false, ◌||◌, Option, none,
  some, List, [], ◌∷◌, arith, leb, if◌then◌else◌, head?, tail, Bool-cases,
}
use panopticon_agent.Delivery.Spool.Format.{SpoolRecord, u32_mod}
use panopticon_agent.Delivery.Spool.Disk.{Env}
use panopticon_agent.Delivery.Spool.Disk.Laws.{read_file-reclaim}
use panopticon_agent.Delivery.Spool.State.{SegmentSpool, SpoolConfig, write_cursor_locked}
use panopticon_agent.Delivery.Spool.Reader.{read_next_record_locked}
use panopticon_agent.Delivery.Spool.Reader.Pending.{at, PendingAt, Serves, read_next-Pending}
use panopticon_agent.Delivery.Spool.Reader.Fifo.{Pending-same}
use panopticon_agent.Delivery.Spool.Operations.{
  has_ready, snapshot_position, hold_pending, finish_peek, peek_ready, commit_record, retry_later,
  count_attempt, count_dead, report_failure, report_outcome,
}

-- The records not yet delivered, oldest first. While one is out for delivery, the position before
-- it is kept, and leads to the same queue.
pub data Holds (T : Type 0) (s : SegmentSpool) (q : List SpoolRecord) : Type 0 where
  idle :
      s.head.have_pending_read ≡ false
      → PendingAt T s s.head.read_segment_index s.head.read_offset q
      → Holds T s q
  out :
      s.head.have_pending_read ≡ true
      → (rest : List SpoolRecord) → q ≡ s.head.pending ∷ rest
      → PendingAt T s s.head.pre_peek_segment_index s.head.pre_peek_offset q
      → PendingAt T s s.head.read_segment_index s.head.read_offset rest
      → Holds T s q

abbrev pub Segments32 : SpoolConfig → Type 0
Segments32 c = c.max_segment_bytes + 8 < u32_mod

peek_ready_held :
    (env : Env) (s : SegmentSpool)
    → s.head.have_pending_read ≡ true
    → peek_ready env s ≡ some (s, some s.head.pending)
unfolding peek_ready
peek_ready_held env s e = ground arith

peek_ready_reads :
    (env : Env) (s : SegmentSpool)
    → s.head.have_pending_read ≡ false
    → has_ready env s ≡ true
    → peek_ready env s ≡ finish_peek (read_next_record_locked (snapshot_position s))
unfolding peek_ready has_ready
peek_ready_reads env s e h = ground arith

finish_peek-Holds :
    {T : Type 0} (s : SegmentSpool) (q : List SpoolRecord)
    (result : Option (SegmentSpool × Option SpoolRecord))
    → s.head.have_pending_read ≡ false
    → PendingAt T s s.head.read_segment_index s.head.read_offset q
    → Serves T (snapshot_position s) q result
    → (s' : SegmentSpool) × (finish_peek result ≡ some (s', head? q)) × Holds T s' q
finish_peek-Holds s [] result e p (seg, off, k, h, p') =
    (at (snapshot_position s) seg off k, ap finish_peek h, idle e p')
finish_peek-Holds s (r ∷ rest) result e p (seg, off, k, h, p') =
    (hold_pending (at (snapshot_position s) seg off k) r, ap finish_peek h, out refl rest refl p p')

-- Where a segment's limit leaves room for 8 more bytes in a 32-bit length, a peek at a spool that
-- is ready always returns: the oldest record of the queue if there is one, and a spool that holds
-- the same queue.
pub peek_ready-Holds :
    {T : Type 0} (env : Env) (s : SegmentSpool) (q : List SpoolRecord)
    → Segments32 s.config
    → has_ready env s ≡ true
    → Holds T s q
    → (s' : SegmentSpool) × (peek_ready env s ≡ some (s', head? q)) × Holds T s' q
peek_ready-Holds env s q m ready (out e rest h p p') =
    (s, peek_ready_held env s e ∙ ap (λ l. some (s, head? l)) (sym h), out e rest h p p')
peek_ready-Holds env s q m ready (idle e p) =
    let (s', h, v) = finish_peek-Holds s q _ e p (read_next-Pending (snapshot_position s) q m p) in
    (s', peek_ready_reads env s e ready ∙ h, v)

-- Before the retry time a peek changes nothing and returns nothing.
pub peek_ready_waits :
    (env : Env) (s : SegmentSpool) → has_ready env s ≡ false → peek_ready env s ≡ some (s, none)
unfolding has_ready peek_ready
peek_ready_waits env s h = ground arith

commit_record-Holds :
    {T : Type 0} (env : Env) (s : SegmentSpool) (q : List SpoolRecord)
    → PendingAt T s s.head.read_segment_index s.head.read_offset q
    → Holds T (commit_record env s) q
unfolding commit_record write_cursor_locked
commit_record-Holds env s q p =
    idle refl (Pending-same p (λ j h. read_file-reclaim env s.head.read_segment_index j _ h))

-- What one report leaves of the queue: a record delivered, or tried as often as allowed, is gone.
abbrev pub after_report : SegmentSpool → Bool → List SpoolRecord → List SpoolRecord
after_report s delivered q =
    if delivered || leb s.config.max_delivery_attempts ((s.head.attempts + 1) % u32_mod)
    then tail q
    else q

pub report_outcome_held :
    (env : Env) (delivered : Bool) (s : SegmentSpool)
    → s.head.have_pending_read ≡ true
    → report_outcome env delivered s
      ≡ (if delivered then commit_record env s else report_failure env (count_attempt s))
unfolding report_outcome
report_outcome_held env delivered s e = ground arith

report_failure-Holds :
    {T : Type 0} (env : Env) (s : SegmentSpool) (q rest : List SpoolRecord)
    → PendingAt T s s.head.pre_peek_segment_index s.head.pre_peek_offset q
    → PendingAt T s s.head.read_segment_index s.head.read_offset rest
    → Holds T
        (report_failure env s)
        (if leb s.config.max_delivery_attempts s.head.attempts then rest else q)
unfolding report_failure retry_later count_dead
report_failure-Holds {T} env s q rest p p' =
    elim (Bool-cases (leb s.config.max_delivery_attempts s.head.attempts)) [
      | inl e ↦ rw e (commit_record-Holds env (count_dead s) rest p')
      | inr e ↦ rw e (idle refl p)
    ]

-- While a record is out, a report takes it off the front of the queue if it was delivered or has
-- had all its attempts, and otherwise keeps the whole queue, so that the same record comes first
-- again.
pub report_outcome-Holds :
    {T : Type 0} (env : Env) (delivered : Bool) (s : SegmentSpool) (q : List SpoolRecord)
    → s.head.have_pending_read ≡ true
    → Holds T s q
    → Holds T (report_outcome env delivered s) (after_report s delivered q)
unfolding count_attempt
report_outcome-Holds env delivered s q b (idle e p) = absurd (cc)
report_outcome-Holds {T} env true s q b (out e rest h p p') =
    subst (λ l. Holds T (report_outcome env true s) (tail l)) (sym h)
      (rw (report_outcome_held env true s b) (commit_record-Holds env s rest p'))
report_outcome-Holds {T} env false s q b (out e rest h p p') =
    rw (report_outcome_held env false s b) (
      subst
        (λ l.
          Holds T (report_failure env (count_attempt s))
            (if leb s.config.max_delivery_attempts ((s.head.attempts + 1) % u32_mod) then l else q))
        (ap tail (sym h)) (report_failure-Holds env (count_attempt s) q rest p p'))
