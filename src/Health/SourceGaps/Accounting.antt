-- ===== src/Health/SourceGaps/Accounting.antt =====
-- The bounds of the history, and that no gap leaves it uncounted.
use panopticon_agent.Prelude.{
  size_mod, sub_size, ℕ, suc, ◌+◌, ◌≤◌, ◌<◌, ◌≡◌, refl, ap, Bool, true, false, not, ◌||◌, Option,
  some, List, [], ◌∷◌, ◌++◌, ltb, leb, ◌==◌, if◌then◌else◌, if-both, length, length-append, arith,
}
use panopticon_agent.Health.SourceGaps.{
  CollectorStatus, Report, gap, omissions, SourceGapBuffer, source_gap_since, next_u64,
  append_report, flush_omissions, omit, queue_gap, observe, acknowledge_front, Change,
}

-- How many gap reports a report stands for.
abbrev pub stands_for : Report → ℕ
stands_for (gap _ _ _ _) = 1
stands_for (omissions n _ _) = n

abbrev pub queued_gaps : List (Report × ℕ) → ℕ
queued_gaps [] = 0
queued_gaps (r ∷ rs) = stands_for r.0 + queued_gaps rs

abbrev pub queued_bytes : List (Report × ℕ) → ℕ
queued_bytes [] = 0
queued_bytes (r ∷ rs) = r.1 + queued_bytes rs

-- The gap reports that are queued, summed up in a queued summary, or wait for one.
abbrev pub gaps_held : SourceGapBuffer → ℕ
gaps_held b = queued_gaps b.reports + b.omitted_pending

pub record Bounded (b : SourceGapBuffer) : Type 0 where
  pub few : length b.reports ≤ b.report_limit
  pub bytes : b.bytes ≡ queued_bytes b.reports
  pub small : b.bytes ≤ b.byte_limit

queued_gaps-append :
    (xs ys : List (Report × ℕ)) → queued_gaps (xs ++ ys) ≡ queued_gaps xs + queued_gaps ys
queued_gaps-append [] ys = omega arith
queued_gaps-append (x ∷ xs) ys = omega (arith, queued_gaps-append xs ys)

queued_bytes-append :
    (xs ys : List (Report × ℕ)) → queued_bytes (xs ++ ys) ≡ queued_bytes xs + queued_bytes ys
queued_bytes-append [] ys = omega arith
queued_bytes-append (x ∷ xs) ys = omega (arith, queued_bytes-append xs ys)

abbrev Good : SourceGapBuffer → SourceGapBuffer → Type 0
Good b c = Bounded c × (gaps_held c ≡ gaps_held b) × (c.omitted_pending ≤ b.omitted_pending)

abbrev Noted : SourceGapBuffer → SourceGapBuffer × Bool → Type 0
Noted b r = Bounded r.0 × (gaps_held r.0 ≡ gaps_held b + (if r.1 then 1 else 0))

module _ (size : Report → ℕ) where
  -- Queued within the bounds, or nothing done.
  append_report_cases {ℓ} :
      (P : SourceGapBuffer × Bool → Type ℓ) (r : Report) (b : SourceGapBuffer)
      → Bounded b
      → P (b, false)
      → ((b' : SourceGapBuffer)
          → b' ≡ record b { reports = b.reports ++ (r, size r) ∷ []; bytes = b.bytes + size r }
          → Bounded b'
          → queued_gaps b'.reports ≡ queued_gaps b.reports + stands_for r
          → P (b', true))
      → P (append_report size r b)
  unfolding append_report
  append_report_cases P r b v refused queued =
      if-both P
        (leb b.report_limit (length b.reports) || ltb (sub_size b.byte_limit b.bytes) (size r)) _ _
        (λ _. refused)
        λ e.
          queued (record b { reports = b.reports ++ (r, size r) ∷ []; bytes = b.bytes + size r })
            refl
            (record {
              few = ground (arith, e, length-append {0} b.reports ((r, size r) ∷ []));
              bytes = omega (arith, v.bytes, queued_bytes-append b.reports ((r, size r) ∷ []));
              small = ground (arith, e, v.small);
            })
            (omega (arith, queued_gaps-append b.reports ((r, size r) ∷ [])))

  flush_omissions_cases :
      (b : SourceGapBuffer)
      → Bounded b
      → Bounded (flush_omissions size b)
        × (gaps_held (flush_omissions size b) ≡ gaps_held b)
        × ((flush_omissions size b).omitted_pending ≤ b.omitted_pending)
  unfolding flush_omissions
  flush_omissions_cases b v =
      if-both (Good b) (b.omitted_pending == 0) _ _ (λ _. (v, refl, omega arith))
        λ _.
          append_report_cases
            (λ t. Good b (if t.1 then record (t.0) { omitted_pending = 0 } else t.0))
            (omissions b.omitted_pending b.first_omitted_uptime b.last_omitted_uptime) b v
            (v, refl, omega arith)
            λ c e k g. (
              record { few = k.few; bytes = k.bytes; small = k.small },
              omega (arith, g),
              omega arith,
            )

  queue_gap_cases :
      (cs : List Change) (current : CollectorStatus) (before : Option ℕ) (uptime : ℕ)
      (b : SourceGapBuffer)
      → Bounded b
      → b.omitted_pending + 1 < size_mod
      → Bounded (queue_gap size (gap cs current before uptime) uptime b)
        × (gaps_held (queue_gap size (gap cs current before uptime) uptime b) ≡ gaps_held b + 1)
  unfolding queue_gap
  queue_gap_cases cs current before uptime b v low =
      if-both More (not (b.omitted_pending == 0)) _ _ (λ _. more)
        λ _.
          append_report_cases (λ t. More (if t.1 then t.0 else omit uptime b))
            (gap cs current before uptime) b v more
            λ c e k g. (k, omega (arith, g, ap (λ d. d.omitted_pending) e))
    where
      More : SourceGapBuffer → Type 0
      More c = Bounded c × (gaps_held c ≡ gaps_held b + 1)

      more : More (omit uptime b)
      more = (record { few = v.few; bytes = v.bytes; small = v.small }, omega (arith, low))

  -- Where fewer than 2 ^ 64 - 1 omitted reports wait for a summary, a sample keeps the history
  -- within its limits of reports and bytes, with the bytes those of the queued reports; the gaps
  -- queued, summed up in a summary or waiting for one are one more if the sample found a gap, and
  -- as many as before if not.
  pub observe-Bounded :
      (current : CollectorStatus) (uptime : ℕ) (b : SourceGapBuffer)
      → b.omitted_pending + 1 < size_mod
      → Bounded b
      → Bounded (observe size current uptime b).0
        × (gaps_held (observe size current uptime b).0
            ≡ gaps_held b + (if (observe size current uptime b).1 then 1 else 0))
  unfolding observe
  observe-Bounded current uptime b low v =
      seen (source_gap_since (flush_omissions size b).observed current)
    where
      f : Good b (flush_omissions size b)
      f = flush_omissions_cases b v

      seen :
          (changes : List Change)
          → Noted b (elim changes [
            | [] ↦ (
              record (flush_omissions size b) {
                observed = some current;
                observed_uptime = some uptime;
              },
              false,
            )
            | c ∷ cs ↦ (
              record (queue_gap size
                  (gap (c ∷ cs) current (flush_omissions size b).observed_uptime uptime)
                  uptime
                  (flush_omissions size b)) {
                    observed = some current;
                    observed_uptime = some uptime;
                  },
              true,
            )
          ])
      seen [] = (record { few = f.0.few; bytes = f.0.bytes; small = f.0.small }, omega (arith, f.1))
      seen (c ∷ cs) =
          let q =
            queue_gap_cases (c ∷ cs) current (flush_omissions size b).observed_uptime uptime
              (flush_omissions size b) f.0 (omega (arith, f.2, low)) in
          (record { few = q.0.few; bytes = q.0.bytes; small = q.0.small }, omega (arith, q.1, f.1))

  -- An acknowledgement of a history that holds a report succeeds and keeps it within its limits;
  -- the gaps it accounts for are fewer by those of the front report, and no others.
  pub acknowledge_front-Bounded :
      (b : SourceGapBuffer) (front : Report × ℕ) (rest : List (Report × ℕ))
      → b.reports ≡ front ∷ rest
      → Bounded b
      → (b' : SourceGapBuffer) × (acknowledge_front size b ≡ some b')
        × Bounded b'
        × (gaps_held b' + stands_for front.0 ≡ gaps_held b)
  unfolding acknowledge_front
  acknowledge_front-Bounded b front rest e v =
      let popped : SourceGapBuffer = record b {
        bytes = sub_size b.bytes front.1;
        reports = rest;
        acknowledged = next_u64 b.acknowledged;
      } in
      let l : length b.reports ≡ suc (length rest) = ap (λ q. length q) e in
      let s : queued_bytes b.reports ≡ front.1 + queued_bytes rest = ap queued_bytes e in
      let g : queued_gaps b.reports ≡ stands_for front.0 + queued_gaps rest = ap queued_gaps e in
      let k : Bounded popped = record {
        few = omega (arith, l, v.few);
        bytes = ground (arith, s, v.bytes);
        small = ground (arith, s, v.bytes, v.small);
      } in
      let f = flush_omissions_cases popped k in
      (flush_omissions size popped, rw e refl, f.0, omega (arith, f.1, g))
