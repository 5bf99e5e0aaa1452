-- ===== src/Delivery/Spool/Operations/Append.antt =====
-- What `append` does to the queue and to the disk.
use panopticon_agent.Prelude.{
  subst, ℕ, ◌+◌, ◌%◌, ◌≤◌, ◌<◌, ◌≡◌, refl, ◌⊎◌, inl, inr, false, ltb, if◌then◌else◌, sym, ap, ◌∙◌,
  some, List, [], ◌∷◌, ◌++◌, arith, length, take_all, if-both, le→ltb_false, lt→ltb, ok, err,
}
use panopticon_agent.Delivery.Spool.Format.{SpoolRecord, u32_mod, frame, payload_of}
use panopticon_agent.Delivery.Spool.Format.Laws.{length-frame, length-payload_of}
use panopticon_agent.Delivery.Spool.Disk.{Env, append_file}
use panopticon_agent.Delivery.Spool.Disk.Laws.{UpTo-mono, UpTo-append_file, read_file_above}
use panopticon_agent.Delivery.Spool.State.{SegmentSpool}
use panopticon_agent.Delivery.Spool.Reader.Frames.{Fits}
use panopticon_agent.Delivery.Spool.Reader.Pending.{Pending}
use panopticon_agent.Delivery.Spool.Reader.Fifo.{Pending-rotate, Pending-append}
use panopticon_agent.Delivery.Spool.Operations.{
  evict_for_quota_locked, batch_id_too_long, record_too_large, rotate, store_record, append_sized,
  append,
}
use panopticon_agent.Delivery.Spool.Operations.Eviction.{
  Idle, Removable, evict_for_quota_locked-Loses,
}

rotate-Idle : (n : ℕ) (s : SegmentSpool) (q : List SpoolRecord) → Idle ⊥ s q → Idle ⊥ (rotate n s) q
unfolding rotate
rotate-Idle n s q v =
    if-both (λ t. Idle ⊥ t q) _ _ _
      (λ _. record {
        not_out = v.not_out;
        ahead = Pending-rotate v.ahead (
            read_file_above s.write_segment_index (s.write_segment_index + 1) s.disk.segments
              v.up_to (omega arith));
        up_to =
            UpTo-mono s.write_segment_index (s.write_segment_index + 1) s.disk.segments
              (omega arith) v.up_to;
      })
      (λ _. v)

rotate-config : (n : ℕ) (s : SegmentSpool) → (rotate n s).config ≡ s.config
unfolding rotate
rotate-config n s = ground arith

rotate-disk : (n : ℕ) (s : SegmentSpool) → (rotate n s).disk ≡ s.disk
unfolding rotate
rotate-disk n s = ground arith

store_record-Idle :
    (env : Env) (r : SpoolRecord) (n : ℕ) (s : SegmentSpool) (q : List SpoolRecord)
    → length (frame r) ≤ env.stored
    → Fits s.config r
    → Idle ⊥ s q
    → Idle ⊥ (store_record env r n s) (q ++ r ∷ [])
unfolding store_record
store_record-Idle env r n s q h f v = record {
  not_out = v.not_out;
  ahead =
      subst
        (λ bs.
          Pending ⊥ s.config (append_file s.write_segment_index bs s.disk.segments)
            s.write_segment_index s.head.read_segment_index s.head.read_offset (q ++ r ∷ []))
        (sym (take_all env.stored (frame r) h)) (Pending-append v.ahead r f);
  up_to =
      UpTo-append_file s.write_segment_index s.write_segment_index _ s.disk.segments (omega arith)
        v.up_to;
}

append_sizes :
    (env : Env) (r : SpoolRecord) (s : SegmentSpool)
    → length (frame r) < u32_mod
    → append env r s ≡ append_sized env r (length (payload_of r)) (length (frame r)) s
unfolding append
append_sizes env r s h =
    let a : (2 + length r.batch_id + length r.body) % u32_mod ≡ length (payload_of r) =
      omega (arith, length-payload_of r, length-frame r) in
    let b : (8 + length (payload_of r)) % u32_mod ≡ length (frame r) =
      omega (arith, length-frame r) in
    ap (λ n. append_sized env r n ((8 + n) % u32_mod) s) a
    ∙ ap (λ n. append_sized env r (length (payload_of r)) n s) b

-- A record within the limits passes every guard.
pub append_accepts :
    (env : Env) (r : SpoolRecord) (s s' : SegmentSpool)
    → Fits s.config r
    → evict_for_quota_locked env (length (frame r)) s ≡ some s'
    → append env r s ≡ ok (store_record env r (length (frame r)) (rotate (length (frame r)) s'))
append_accepts env r s s' f e =
    append_sizes env r s f.in_word
    ∙ rw (
      le→ltb_false 65535 (length r.batch_id) f.id_short,
      le→ltb_false s.config.max_segment_bytes (length (frame r)) f.in_segment,
      e,
      le→ltb_false (length (payload_of r)) (2 + length r.batch_id + length r.body)
          (omega (arith, length-payload_of r)),
    )

-- With no record out and no torn end in the active segment, where every segment can be deleted and
-- the whole frame reaches the file, the append of a record within the limits succeeds; what the
-- queue loses for the quota is at its front, and the record comes after what is left.
pub append-Idle :
    (env : Env) (r : SpoolRecord) (s : SegmentSpool) (q : List SpoolRecord)
    → Removable env
    → length (frame r) ≤ env.stored
    → Fits s.config r
    → Idle ⊥ s q
    → (s' : SegmentSpool) × (lost : List SpoolRecord) × (rest : List SpoolRecord) × (append env r s
        ≡ ok s')
      × (q ≡ lost ++ rest)
      × Idle ⊥ s' (rest ++ r ∷ [])
append-Idle env r s q rem h f v =
    let n : ℕ = length (frame r) in
    let (s1, e, (lost, rest, p, v1), m, w) = evict_for_quota_locked-Loses env n s q rem v in
    (
      store_record env r n (rotate n s1),
      lost,
      rest,
      append_accepts env r s s1 f e,
      p,
      store_record-Idle env r n (rotate n s1) rest h
          (subst (λ c. Fits c r) (sym (rotate-config n s1 ∙ w.config)) f)
          (rotate-Idle n s1 rest v1),
    )

-- A record whose frame has a 32-bit length and whose batch id or frame is over its limit is refused
-- with the error of the limit it exceeds, the batch id's first.
pub append_refuses :
    (env : Env) (r : SpoolRecord) (s : SegmentSpool)
    → length (frame r) < u32_mod
    → (65535 < length r.batch_id) ⊎ (s.config.max_segment_bytes < length (frame r))
    → append env r s
      ≡ (if ltb 65535 (length r.batch_id) then err batch_id_too_long else err record_too_large)
append_refuses env r s h over =
    append_sizes env r s h
    ∙ if-both
        (λ x.
          x
          ≡ (if ltb 65535 (length r.batch_id) then err batch_id_too_long else err record_too_large))
        (ltb 65535 (length r.batch_id)) _ _ (λ k. rw k refl)
        (λ k. rw (k, lt→ltb s.config.max_segment_bytes (length (frame r)) (large over k)) refl)
  where
    large :
        (65535 < length r.batch_id) ⊎ (s.config.max_segment_bytes < length (frame r))
        → ltb 65535 (length r.batch_id) ≡ false
        → s.config.max_segment_bytes < length (frame r)
    large (inl a) k = absurd (ground arith)
    large (inr b) k = b
