-- ===== src/Delivery/Spool/Operations/Eviction.antt =====
-- Eviction for the quota: it ends, and loses the oldest records only (`evict_for_quota_locked`).
use panopticon_agent.Prelude.{
  subst, ℕ, zero, suc, ◌+◌, ◌≤◌, ◌<◌, ◌≡◌, ◌≢◌, ◌⊎◌, inl, inr, refl, sym, ap, ◌∙◌, Bool, true,
  false, none, some, List, [], ◌∷◌, ◌++◌, arith, length, append_assoc, ltb, ◌==◌, ==_iff,
  Bool-cases, Option-cases, if-both, lt→ltb, dec_lt,
}
use panopticon_agent.Delivery.Spool.Format.{SpoolRecord}
use panopticon_agent.Delivery.Spool.Disk.{
  Files, Env, read_file, remove_file, total_bytes, older, oldest_evictable,
}
use panopticon_agent.Delivery.Spool.Disk.Laws.{UpTo, UpTo-remove_file, read_file-remove_file_ne}
use panopticon_agent.Delivery.Spool.State.{SegmentSpool, write_cursor_locked}
use panopticon_agent.Delivery.Spool.Reader.Pending.{PendingAt, Pending}
use panopticon_agent.Delivery.Spool.Reader.Fifo.{Pending-same, Pending-leave, Pending-delete}
use panopticon_agent.Delivery.Spool.Operations.{evict_segment, evict_loop, evict_for_quota_locked}

-- What the search for the oldest evictable segment finds.
pub oldest_evictable-none :
    (active j : ℕ) (fs : Files)
    → j ≢ active
    → oldest_evictable active fs ≡ none
    → read_file j fs ≡ none
unfolding oldest_evictable older read_file
oldest_evictable-none active j [] n h = refl
oldest_evictable-none active j ((i, bs) ∷ fs) n h =
    ground (arith, oldest_evictable-none active j fs n)

oldest_evictable_ne : (active i : ℕ) (fs : Files) → oldest_evictable active fs ≡ some i → i ≢ active
unfolding oldest_evictable older
oldest_evictable_ne active i [] h = absurd (cc)
oldest_evictable_ne active i ((k, bs) ∷ fs) h = ground (arith, oldest_evictable_ne active i fs)

oldest_evictable_first :
    (active i j : ℕ) (fs : Files)
    → oldest_evictable active fs ≡ some i
    → j < i
    → j ≢ active
    → read_file j fs ≡ none
unfolding oldest_evictable older read_file
oldest_evictable_first active i j [] h l n = refl
oldest_evictable_first active i j ((k, bs) ∷ fs) h l n =
    elim (Option-cases (oldest_evictable active fs)) [
      | inl e ↦ ground (arith, oldest_evictable-none active j fs n e)
      | inr (m, e) ↦ ground (arith, oldest_evictable_first active m j fs e)
    ]

oldest_evictable-UpTo :
    (active i : ℕ) (fs : Files) → UpTo active fs → oldest_evictable active fs ≡ some i → i < active
unfolding oldest_evictable older
oldest_evictable-UpTo active i [] u h = absurd (cc)
oldest_evictable-UpTo active i ((k, bs) ∷ fs) u h =
    ground (arith, oldest_evictable-UpTo active i fs u.1)

-- Everything the quota loop relies on.
abbrev pub Removable : Env → Type 0
Removable env = (j : ℕ) → env.removable j ≡ true

read_file-remove_file_self :
    (env : Env) (i : ℕ) (fs : Files)
    → env.removable i ≡ true
    → read_file i (remove_file env i fs) ≡ none
unfolding read_file remove_file
read_file-remove_file_self env i [] h = refl
read_file-remove_file_self env i ((k, bs) ∷ fs) h =
    ground (arith, read_file-remove_file_self env i fs h)

length-remove_file : (env : Env) (i : ℕ) (fs : Files) → length (remove_file env i fs) ≤ length fs
unfolding remove_file
length-remove_file env i [] = omega arith
length-remove_file env i ((k, bs) ∷ fs) = ground (arith, length-remove_file env i fs)

length-remove_oldest :
    (env : Env) (active i : ℕ) (fs : Files)
    → env.removable i ≡ true
    → oldest_evictable active fs ≡ some i
    → length (remove_file env i fs) < length fs
unfolding remove_file oldest_evictable older
length-remove_oldest env active i [] h e = absurd (cc)
length-remove_oldest env active i ((k, bs) ∷ fs) h e =
    ground (arith, length-remove_file env i fs, length-remove_oldest env active i fs h)

-- The queue of a spool with nothing out for delivery.
pub record Idle (T : Type 0) (s : SegmentSpool) (q : List SpoolRecord) : Type 0 where
  pub not_out : s.head.have_pending_read ≡ false
  pub ahead : PendingAt T s s.head.read_segment_index s.head.read_offset q
  pub up_to : UpTo s.write_segment_index s.disk.segments

-- `q` is what is left of the queue, and what it lost was at its front.
abbrev pub Loses : Type 0 → List SpoolRecord → SegmentSpool → Type 0
Loses T q s =
    (lost : List SpoolRecord) × (rest : List SpoolRecord) × (q ≡ lost ++ rest) × Idle T s rest

module _ {T : Type 0} (env : Env) (i : ℕ) (s : SegmentSpool) (q : List SpoolRecord)
    (removable : Removable env)
    (found : oldest_evictable s.write_segment_index s.disk.segments ≡ some i) (v : Idle T s q) where
  below_active : i < s.write_segment_index
  below_active = oldest_evictable-UpTo s.write_segment_index i s.disk.segments v.up_to found

  still-UpTo : UpTo s.write_segment_index (remove_file env i s.disk.segments)
  still-UpTo = UpTo-remove_file env s.write_segment_index i s.disk.segments v.up_to

  others_same :
      (j : ℕ)
      → j ≢ i
      → read_file j (remove_file env i s.disk.segments) ≡ read_file j s.disk.segments
  others_same j n = read_file-remove_file_ne env i j s.disk.segments (λ e. n (sym e))

  -- One eviction loses only the oldest records of the queue.
  evict_segment-Loses : Loses T q (evict_segment env i s)
  unfolding evict_segment write_cursor_locked
  evict_segment-Loses =
      if-both (Loses T q) (i == s.head.read_segment_index) _ _
        (λ t.
          let e : i ≡ s.head.read_segment_index = (==_iff _ _).0 t in
          let (lost, rest, p, a) = Pending-leave v.ahead (omega (arith, below_active)) in
          (
            lost,
            rest,
            p,
            record {
              not_out = refl;
              ahead =
                  subst
                    (λ k.
                      Pending T s.config (remove_file env i s.disk.segments) s.write_segment_index
                        (k + 1) 0 rest)
                    (sym e) (Pending-same a (λ j k. others_same j (omega arith)));
              up_to = still-UpTo;
            },
          ))
        (λ t. elim (dec_lt i s.head.read_segment_index) [
          | yes l ↦ (
            [],
            q,
            refl,
            record {
              not_out = v.not_out;
              ahead = Pending-same v.ahead (λ j k. others_same j (omega arith));
              up_to = still-UpTo;
            },
          )
          | no l ↦
              let (lost, rest, p, a) =
                Pending-delete v.ahead i (ground arith) below_active
                  (λ j h.
                    oldest_evictable_first s.write_segment_index i j s.disk.segments found h
                      (omega (arith, below_active)))
                  (read_file-remove_file_self env i s.disk.segments (removable i)) others_same in
              (lost, rest, p, record { not_out = v.not_out; ahead = a; up_to = still-UpTo })
        ])

Loses-trans :
    {T : Type 0} (q : List SpoolRecord) (s : SegmentSpool) (lost rest : List SpoolRecord)
    → q ≡ lost ++ rest
    → Loses T rest s
    → Loses T q s
Loses-trans q s lost rest p (lost', rest', p', v) =
    (lost ++ lost', rest', p ∙ ap (λ l. lost ++ l) p' ∙ sym (append_assoc lost lost' rest'), v)

-- Within the quota, or with nothing left that may be evicted.
abbrev pub QuotaMet : ℕ → SegmentSpool → Type 0
QuotaMet incoming s =
    (total_bytes s.disk.segments + incoming ≤ s.config.max_total_bytes)
    ⊎ (oldest_evictable s.write_segment_index s.disk.segments ≡ none)

-- What the eviction loop leaves alone.
pub record SameWriter (s s' : SegmentSpool) : Type 0 where
  pub config : s'.config ≡ s.config
  pub index : s'.write_segment_index ≡ s.write_segment_index
  pub bytes : s'.write_segment_bytes ≡ s.write_segment_bytes

SameWriter-refl : (s : SegmentSpool) → SameWriter s s
SameWriter-refl s = record { config = refl; index = refl; bytes = refl }

SameWriter-trans : {s t u : SegmentSpool} → SameWriter s t → SameWriter t u → SameWriter s u
SameWriter-trans h k = record {
  config = k.config ∙ h.config;
  index = k.index ∙ h.index;
  bytes = k.bytes ∙ h.bytes;
}

evict_segment-config : (env : Env) (i : ℕ) (s : SegmentSpool) → SameWriter s (evict_segment env i s)
unfolding evict_segment write_cursor_locked
evict_segment-config env i s = ground arith

evict_segment-files :
    (env : Env) (i : ℕ) (s : SegmentSpool)
    → (evict_segment env i s).disk.segments ≡ remove_file env i s.disk.segments
unfolding evict_segment write_cursor_locked
evict_segment-files env i s = ground arith

module _ (fuel : ℕ) (env : Env) (incoming : ℕ) (s : SegmentSpool) where
  abbrev pub over : Bool
  over = ltb s.config.max_total_bytes (total_bytes s.disk.segments + incoming)

  pub evict_loop_fits : over ≡ false → evict_loop (suc fuel) env incoming s ≡ some s
  unfolding evict_loop
  evict_loop_fits e = rw e

  evict_loop_last :
      over ≡ true
      → oldest_evictable s.write_segment_index s.disk.segments ≡ none
      → evict_loop (suc fuel) env incoming s ≡ some s
  unfolding evict_loop
  evict_loop_last e n = rw e (rw (n, evict_loop))

  evict_loop_next :
      (i : ℕ)
      → over ≡ true
      → oldest_evictable s.write_segment_index s.disk.segments ≡ some i
      → evict_loop (suc fuel) env incoming s ≡ evict_loop fuel env incoming (evict_segment env i s)
  unfolding evict_loop
  evict_loop_next i e n = rw e (rw (n, evict_loop))

pub evict_loop-Loses :
    {T : Type 0} (fuel : ℕ) (env : Env) (incoming : ℕ) (s : SegmentSpool) (q : List SpoolRecord)
    → Removable env
    → length s.disk.segments < fuel
    → Idle T s q
    → (s' : SegmentSpool) × (evict_loop fuel env incoming s ≡ some s')
      × Loses T q s'
      × QuotaMet incoming s'
      × SameWriter s s'
evict_loop-Loses zero env incoming s q r h v = absurd (omega arith)
evict_loop-Loses (suc fuel) env incoming s q r h v = elim (Bool-cases (over fuel env incoming s)) [
  | inr e ↦ (
    s,
    evict_loop_fits fuel env incoming s e,
    ([], q, refl, v),
    inl (ground arith),
    SameWriter-refl s,
  )
  | inl e ↦ elim (Option-cases (oldest_evictable s.write_segment_index s.disk.segments)) [
    | inl n ↦
        (s, evict_loop_last fuel env incoming s e n, ([], q, refl, v), inr n, SameWriter-refl s)
    | inr (i, n) ↦
        let (lost, rest, p, v') = evict_segment-Loses env i s q r n v in
        let (s', g, l, m, w) =
          evict_loop-Loses fuel env incoming (evict_segment env i s) rest r
            (omega (
              arith,
              ap length (evict_segment-files env i s),
              length-remove_oldest env s.write_segment_index i s.disk.segments (r i) n,
            ))
            v' in
        (
          s',
          evict_loop_next fuel env incoming s i e n ∙ g,
          Loses-trans q s' lost rest p l,
          m,
          SameWriter-trans (evict_segment-config env i s) w,
        )
  ]
]

-- With no record out, and where every segment can be deleted, the eviction for a quota ends; the
-- queue loses a part of its front only, the bytes are within the quota or no segment but the active
-- one is left, and the writer's position is as before.
pub evict_for_quota_locked-Loses :
    {T : Type 0} (env : Env) (incoming : ℕ) (s : SegmentSpool) (q : List SpoolRecord)
    → Removable env
    → Idle T s q
    → (s' : SegmentSpool) × (evict_for_quota_locked env incoming s ≡ some s')
      × Loses T q s'
      × QuotaMet incoming s'
      × SameWriter s s'
unfolding evict_for_quota_locked
evict_for_quota_locked-Loses env incoming s q r v =
    evict_loop-Loses (length s.disk.segments + 1) env incoming s q r (omega arith) v

remove_file_stuck :
    (env : Env) (i : ℕ) (fs : Files) → env.removable i ≡ false → remove_file env i fs ≡ fs
unfolding remove_file
remove_file_stuck env i [] r = refl
remove_file_stuck env i ((k, bs) ∷ fs) r = ground (arith, remove_file_stuck env i fs r)

-- Where the quota is exceeded and the oldest of the segments other than the active one cannot be
-- deleted, the quota loop does not end with any fuel.
pub evict_loop_stuck :
    (fuel : ℕ) (env : Env) (incoming i : ℕ) (s : SegmentSpool)
    → s.config.max_total_bytes < total_bytes s.disk.segments + incoming
    → oldest_evictable s.write_segment_index s.disk.segments ≡ some i
    → env.removable i ≡ false
    → evict_loop fuel env incoming s ≡ none
unfolding evict_loop
evict_loop_stuck zero env incoming i s h e r = refl
evict_loop_stuck (suc fuel) env incoming i s h e r =
    evict_loop_next fuel env incoming s i (lt→ltb _ _ h) e
    ∙ evict_loop_stuck fuel env incoming i (evict_segment env i s)
        (rw (same, (evict_segment-config env i s).config) h)
        (rw (same, (evict_segment-config env i s).index) e) r
  where
    same : (evict_segment env i s).disk.segments ≡ s.disk.segments
    same = evict_segment-files env i s ∙ remove_file_stuck env i s.disk.segments r
