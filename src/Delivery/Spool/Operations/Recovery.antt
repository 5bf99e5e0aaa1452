-- ===== src/Delivery/Spool/Operations/Recovery.antt =====
-- What `recover` makes of the directory that a crash leaves behind.
use panopticon_agent.Prelude.{
  subst, ℕ, ◌≤◌, ◌≡◌, ◌≢◌, inl, inr, refl, sym, ap, ◌∙◌, true, false, none, some, List, [], ◌∷◌,
  arith, Option-cases, le→ltb_false, tail,
}
use panopticon_agent.Delivery.Spool.Format.{Bytes, SpoolRecord}
use panopticon_agent.Delivery.Spool.Disk.{
  renamed, Files, Disk, Env, read_file, older, newer, min_index, max_index,
}
use panopticon_agent.Delivery.Spool.Disk.Laws.{UpTo, UpTo-reclaim, read_file-reclaim}
use panopticon_agent.Delivery.Spool.State.{
  SegmentSpool, SpoolConfig, load_cursor_locked, write_cursor_locked, written_cursor,
}
use panopticon_agent.Delivery.Spool.Reader.Pending.{Pending}
use panopticon_agent.Delivery.Spool.Reader.Fifo.{Pending-same}
use panopticon_agent.Delivery.Spool.Operations.{
  clamp_cursor, resume, recover, commit_record, report_outcome, start_empty,
}
use panopticon_agent.Delivery.Spool.Operations.Delivery.{Holds, idle, out, report_outcome_held}
use panopticon_agent.Delivery.Spool.Operations.Eviction.{Idle}

max_index-le : (w m : ℕ) (fs : Files) → UpTo w fs → max_index fs ≡ some m → m ≤ w
unfolding max_index newer
max_index-le w m [] u h = absurd (cc)
max_index-le w m ((j, bs) ∷ fs) u h = elim (Option-cases (max_index fs)) [
  | inl e ↦ ground arith
  | inr (k, e) ↦ ground (arith, max_index-le w k fs)
]

max_index-UpTo :
    (w : ℕ) (bs : Bytes) (fs : Files) → UpTo w fs → read_file w fs ≡ some bs → max_index fs ≡ some w
unfolding max_index newer read_file
max_index-UpTo w bs [] u h = absurd (cc)
max_index-UpTo w bs ((j, cs) ∷ fs) u h = elim (Option-cases (max_index fs)) [
  | inl e ↦ ground (arith, max_index-UpTo w bs fs)
  | inr (k, e) ↦ ground (arith, max_index-le w k fs, max_index-UpTo w bs fs)
]

min_index-ne-none :
    (i : ℕ) (bs : Bytes) (fs : Files) → read_file i fs ≡ some bs → min_index fs ≢ none
unfolding min_index older read_file
min_index-ne-none i bs [] h = absurd (cc)
min_index-ne-none i bs ((j, cs) ∷ fs) h = elim (Option-cases (min_index fs)) [
  | inl e ↦ ground arith
  | inr (k, e) ↦ ground arith
]

min_index-le :
    (i lo : ℕ) (bs : Bytes) (fs : Files)
    → read_file i fs ≡ some bs
    → min_index fs ≡ some lo
    → lo ≤ i
unfolding min_index older read_file
min_index-le i lo bs [] h m = absurd (cc)
min_index-le i lo bs ((j, cs) ∷ fs) h m = elim (Option-cases (min_index fs)) [
  | inl e ↦ ground (arith, min_index-ne-none i bs fs)
  | inr (k, e) ↦ ground (arith, min_index-le i k bs fs)
]

-- The sidecar's position is taken where it lies among the segments that are there.
recover_position :
    (s : SegmentSpool) (lo hi seg off : ℕ)
    → max_index s.disk.segments ≡ some hi
    → min_index s.disk.segments ≡ some lo
    → s.disk.cursor ≡ some (seg, off)
    → lo ≤ seg
    → seg ≤ hi
    → ((recover s).head.read_segment_index ≡ seg)
      × ((recover s).head.read_offset ≡ off)
      × ((recover s).write_segment_index ≡ hi)
unfolding recover resume load_cursor_locked clamp_cursor
recover_position s lo hi seg off a b c d e =
    rw (a, recover)
      (rw (b, recover)
        (rw (c, load_cursor_locked)
          (rw (le→ltb_false seg lo d, le→ltb_false hi seg e) (refl, refl, refl))))

recover_same :
    (s : SegmentSpool)
    → ((recover s).disk ≡ s.disk)
      × ((recover s).config ≡ s.config)
      × ((recover s).head.have_pending_read ≡ false)
unfolding recover resume start_empty
recover_same s = elim (Option-cases (max_index s.disk.segments)) [
  | inl e ↦ rw (e, recover) (refl, refl, refl)
  | inr (hi, e) ↦ elim (Option-cases (min_index s.disk.segments)) [
    | inl f ↦ rw (e, recover) (rw (f, recover) (refl, refl, refl))
    | inr (lo, f) ↦ rw (e, recover) (rw (f, recover) (refl, refl, refl))
  ]
]

Pending-cast :
    {T : Type 0} {c c' : SpoolConfig} {fs fs' : Files} {w w' seg seg' off off' : ℕ}
    {q : List SpoolRecord}
    → c' ≡ c
    → fs' ≡ fs
    → w' ≡ w
    → seg' ≡ seg
    → off' ≡ off
    → Pending T c fs w seg off q
    → Pending T c' fs' w' seg' off' q
Pending-cast {T} {c} {c'} {fs} {fs'} {w} {w'} {seg} {seg'} {off} {off'} {q} hc hf hw hs ho p =
    subst (λ x. Pending T x fs' w' seg' off' q) (sym hc)
      (subst (λ x. Pending T c x w' seg' off' q) (sym hf)
        (subst (λ x. Pending T c fs x seg' off' q) (sym hw)
          (subst (λ x. Pending T c fs w x off' q) (sym hs)
            (subst (λ x. Pending T c fs w seg x q) (sym ho) p))))

-- Where the sidecar names a position in an existing segment up to the active one, and no segment is
-- newer than the active one, recovery resumes with no record out and the queue that lies ahead of
-- that position, torn end included.
pub recover-Idle :
    {T : Type 0} (s : SegmentSpool) (w seg off : ℕ) (active here : Bytes) (q : List SpoolRecord)
    → s.disk.cursor ≡ some (seg, off)
    → UpTo w s.disk.segments
    → read_file w s.disk.segments ≡ some active
    → read_file seg s.disk.segments ≡ some here
    → seg ≤ w
    → Pending T s.config s.disk.segments w seg off q
    → Idle T (recover s) q
recover-Idle {T} s w seg off active here q c u a h l p =
    elim (Option-cases (min_index s.disk.segments)) [
      | inl e ↦ absurd (min_index-ne-none seg here s.disk.segments h e)
      | inr (lo, e) ↦
          let (same, config, quiet) = recover_same s in
          let hi = max_index-UpTo w active s.disk.segments u a in
          let (x, y, z) =
            recover_position s lo w seg off hi e c (min_index-le seg lo here s.disk.segments h e)
              l in
          record {
            not_out = quiet;
            ahead = Pending-cast config (ap (λ (d : Disk). d.segments) same) z x y p;
            up_to =
                subst (λ fs. UpTo (recover s).write_segment_index fs)
                  (sym (ap (λ (d : Disk). d.segments) same))
                  (subst (λ k. UpTo k s.disk.segments) (sym z) u);
          }
    ]

-- A crash right after a delivery was committed: if the sidecar was replaced by one that was written
-- whole, no segment is newer than the active one, and the active segment and that of the read
-- position still exist and lie in this order, recovery leaves the queue without the delivered
-- record, and with every other one.
pub report_outcome-recover :
    {T : Type 0} (env : Env) (s : SegmentSpool) (active here : Bytes) (q : List SpoolRecord)
    → env.cursor_write ≡ renamed
    → s.head.have_pending_read ≡ true
    → UpTo s.write_segment_index s.disk.segments
    → read_file s.write_segment_index s.disk.segments ≡ some active
    → read_file s.head.read_segment_index s.disk.segments ≡ some here
    → s.head.read_segment_index ≤ s.write_segment_index
    → Holds T s q
    → Idle T (recover (report_outcome env true s)) (tail q)
unfolding commit_record write_cursor_locked written_cursor
report_outcome-recover env s active here q n b u a h l (idle e p) = absurd (cc)
report_outcome-recover {T} env s active here q n b u a h l (out e rest k p p') =
    subst (λ t. Idle T (recover t) (tail q)) (sym (report_outcome_held env true s b))
      (subst (λ r. Idle T (recover (commit_record env s)) (tail r)) (sym k)
        (recover-Idle (commit_record env s) s.write_segment_index s.head.read_segment_index
          s.head.read_offset active here rest (rw n)
          (UpTo-reclaim env s.write_segment_index s.head.read_segment_index s.disk.segments u)
          (read_file-reclaim env s.head.read_segment_index s.write_segment_index s.disk.segments l
            ∙ a)
          (read_file-reclaim env s.head.read_segment_index s.head.read_segment_index s.disk.segments
              (omega arith)
            ∙ h)
          l
          (Pending-same p'
            (λ j m. read_file-reclaim env s.head.read_segment_index j s.disk.segments m))))
