-- ===== src/Delivery/Spool/Operations/TornTail.antt =====
-- What an append does to an active segment that a crash left torn.
use panopticon_agent.Prelude.{
  ℕ, suc, ◌+◌, ◌≤◌, ◌<◌, ◌≡◌, inl, inr, sym, ap, ◌∙◌, subst, true, false, none, some, [], ◌∷◌, ◌++◌,
  arith, length, length-append, append_assoc, ltb, le→ltb_false, take_all, ok, Bool-cases,
}
use panopticon_agent.Delivery.Spool.Format.{Bytes, SpoolRecord, frame, read_u32}
use panopticon_agent.Delivery.Spool.Disk.{Env, read_file, append_file, total_bytes}
use panopticon_agent.Delivery.Spool.Disk.Laws.{read_file-append_file-some}
use panopticon_agent.Delivery.Spool.State.{SegmentSpool}
use panopticon_agent.Delivery.Spool.Reader.Frames.{Fits}
use panopticon_agent.Delivery.Spool.Reader.Pending.{torn_end, torn, no_payload}
use panopticon_agent.Delivery.Spool.Operations.{
  evict_for_quota_locked, evict_loop, rotate, store_record, append, peek_ready, has_ready,
}
use panopticon_agent.Delivery.Spool.Operations.Delivery.{Holds, idle, Segments32, peek_ready-Holds}
use panopticon_agent.Delivery.Spool.Operations.Append.{append_accepts}
use panopticon_agent.Delivery.Spool.Operations.Eviction.{evict_loop_fits}

read_u32-append :
    (bs rest more : Bytes) (n : ℕ)
    → read_u32 bs ≡ some (n, rest)
    → read_u32 (bs ++ more) ≡ some (n, rest ++ more)
unfolding read_u32
read_u32-append [] rest more n h = absurd (cc)
read_u32-append (a ∷ []) rest more n h = absurd (cc)
read_u32-append (a ∷ b ∷ []) rest more n h = absurd (cc)
read_u32-append (a ∷ b ∷ c ∷ []) rest more n h = absurd (cc)
read_u32-append (a ∷ b ∷ c ∷ d ∷ r) rest more n h = ground arith

module _ (env : Env) (r : SpoolRecord) (s : SegmentSpool) (pre cut rest : Bytes) (n : ℕ)
    (stored : length (frame r) ≤ env.stored) (fits : Fits s.config r) (words : Segments32 s.config)
    (roomy : total_bytes s.disk.segments + length (frame r) ≤ s.config.max_total_bytes)
    (same_segment : s.write_segment_bytes + length (frame r) ≤ s.config.max_segment_bytes)
    (quiet : s.head.have_pending_read ≡ false)
    (at_tail : s.head.read_segment_index ≡ s.write_segment_index)
    (offset : s.head.read_offset ≡ length pre)
    (active : read_file s.write_segment_index s.disk.segments ≡ some (pre ++ cut))
    (header : read_u32 cut ≡ some (n, rest)) (short : length rest + length (frame r) < 4 + n) where
  abbrev appended : SegmentSpool
  appended = store_record env r (length (frame r)) s

  no_eviction : evict_for_quota_locked env (length (frame r)) s ≡ some s
  unfolding evict_for_quota_locked
  no_eviction =
      ap (λ k. evict_loop k env (length (frame r)) s) fuel
      ∙ evict_loop_fits (length s.disk.segments) env (length (frame r)) s
          (le→ltb_false s.config.max_total_bytes _ roomy)
    where
      fuel : length s.disk.segments + 1 ≡ suc (length s.disk.segments)
      fuel = omega arith

  no_rotation : rotate (length (frame r)) s ≡ s
  unfolding rotate
  no_rotation = elim (Bool-cases (ltb 0 s.write_segment_bytes)) [
    | inl e ↦ rw (e, le→ltb_false s.config.max_segment_bytes _ same_segment)
    | inr e ↦ rw e
  ]

  still_torn : Holds (Unit {0}) appended []
  unfolding store_record
  still_torn = idle quiet (
      torn_end tt at_tail (
        torn pre (cut ++ frame r)
          (subst
            (λ bs.
              read_file s.head.read_segment_index
                (append_file s.write_segment_index bs s.disk.segments)
              ≡ some (pre ++ (cut ++ frame r)))
            (sym (take_all env.stored (frame r) stored))
            (read_file-append_file-some s.write_segment_index s.head.read_segment_index (pre ++ cut)
                (frame r) s.disk.segments (sym at_tail)
                (ap (λ k. read_file k s.disk.segments) at_tail ∙ active)
              ∙ ap some (append_assoc pre cut (frame r))))
          offset
          (no_payload n (read_u32-append cut rest (frame r) n header)
            (omega (arith, length-append {0} rest (frame r))))))

  -- Where the active segment ends in a torn record at the read position, announced longer than what
  -- follows it, a new record that fits the segment and the quota is accepted, and the next peek
  -- that is ready finds nothing.
  pub append_behind_torn :
      (later : Env)
      → has_ready later (store_record env r (length (frame r)) s) ≡ true
      → (append env r s ≡ ok (store_record env r (length (frame r)) s))
        × ((s' : SegmentSpool) × (peek_ready later (store_record env r (length (frame r)) s)
              ≡ some (s', none)))
  append_behind_torn later ready =
      let (s', e, v) =
        peek_ready-Holds later appended [] (unfold store_record in words) ready still_torn in
      (
        append_accepts env r s s fits no_eviction
            ∙ ap (λ t. ok (store_record env r (length (frame r)) t)) no_rotation,
        (s', e),
      )
