-- ===== src/Health/SourceGaps/Silence.antt =====
-- When two samples of a source leave no gap.
use panopticon_agent.Prelude.{
  ℕ, ap, ◌≡◌, ◌↔◌, refl, Bool, true, false, Option, none, some, List, [], ◌∷◌, ◌++◌, arith,
}
use panopticon_agent.Health.SourceGaps.{
  CollectorStatus, Reason, Counter, Change, counter, flag, transitions, source_gap_since,
}

-- All that the comparison looks at is the same.
pub record SameSample (s t : CollectorStatus) : Type 0 where
  pub running : s.running ≡ t.running
  pub statistics_available : s.statistics_available ≡ t.statistics_available
  pub continuity_fault : s.continuity_fault ≡ t.continuity_fault
  pub decode_failures : s.decode_failures ≡ t.decode_failures
  pub sink_failures : s.sink_failures ≡ t.sink_failures
  pub subscription_errors : s.subscription_errors ≡ t.subscription_errors
  pub events_lost : s.events_lost ≡ t.events_lost
  pub realtime_buffers_lost : s.realtime_buffers_lost ≡ t.realtime_buffers_lost
  pub log_buffers_lost : s.log_buffers_lost ≡ t.log_buffers_lost

append-nil-inv : (xs ys : List Change) → xs ++ ys ≡ [] → (xs ≡ []) × (ys ≡ [])
append-nil-inv [] ys e = (refl, e)
append-nil-inv (x ∷ xs) ys e = absurd (ground (arith, e))

counter-same : (name : Counter) (a b : Option ℕ) → counter name a b true ≡ [] → a ≡ b
counter-same name none none e = refl
counter-same name none (some b) e = absurd (ground (arith, e))
counter-same name (some a) none e = absurd (ground (arith, e))
counter-same name (some a) (some b) e = ground (arith, e)

counter-equal :
    (name : Counter) (a b : Option ℕ) (prior : Bool) → a ≡ b → counter name a b prior ≡ []
counter-equal name none none prior e = refl
counter-equal name none (some b) prior e = absurd (ground (arith, e))
counter-equal name (some a) none prior e = absurd (ground (arith, e))
counter-equal name (some a) (some b) prior e = ground (arith, e)

append-nils : (xs ys : List Change) → xs ≡ [] → ys ≡ [] → xs ++ ys ≡ []
append-nils [] ys e f = f
append-nils (x ∷ xs) ys e f = absurd (ground (arith, e))

total-same : (name : Counter) (a b : ℕ) → counter name (some a) (some b) false ≡ [] → a ≡ b
total-same name a b e = ground (arith, e)

flag-same : (a b : Bool) (r q : Reason) → flag a b r q ≡ [] → a ≡ b
flag-same true true r q e = refl
flag-same false false r q e = refl
flag-same true false r q e = absurd (ground (arith, e))
flag-same false true r q e = absurd (ground (arith, e))

flag-equal : (a b : Bool) (r q : Reason) → a ≡ b → flag a b r q ≡ []
flag-equal true true r q e = refl
flag-equal false false r q e = refl
flag-equal true false r q e = absurd (ground (arith, e))
flag-equal false true r q e = absurd (ground (arith, e))

silent→same : (s t : CollectorStatus) → source_gap_since (some s) t ≡ [] → SameSample s t
unfolding source_gap_since
silent→same s t e =
    let a = append-nil-inv (transitions (some s) t) _ e in
    let b = append-nil-inv _ _ a.0 in
    let c = append-nil-inv _ _ b.1 in
    let d = append-nil-inv _ _ a.1 in
    let f = append-nil-inv _ _ d.1 in
    let g = append-nil-inv _ _ f.1 in
    let h = append-nil-inv _ _ g.1 in
    let k = append-nil-inv _ _ h.1 in
    record {
      running = flag-same _ _ _ _ b.0;
      statistics_available = flag-same _ _ _ _ c.0;
      continuity_fault = flag-same _ _ _ _ c.1;
      decode_failures = total-same _ _ _ d.0;
      sink_failures = total-same _ _ _ f.0;
      subscription_errors = total-same _ _ _ g.0;
      events_lost = counter-same _ _ _ h.0;
      realtime_buffers_lost = counter-same _ _ _ k.0;
      log_buffers_lost = counter-same _ _ _ k.1;
    }

same→silent : (s t : CollectorStatus) → SameSample s t → source_gap_since (some s) t ≡ []
unfolding source_gap_since
same→silent s t v =
    append-nils _ _
      (append-nils _ _ (flag-equal _ _ _ _ v.running) (
        append-nils _ _ (flag-equal _ _ _ _ v.statistics_available)
          (flag-equal _ _ _ _ v.continuity_fault)))
      (append-nils _ _ (counter-equal _ _ _ false (ap some v.decode_failures)) (
        append-nils _ _ (counter-equal _ _ _ false (ap some v.sink_failures)) (
          append-nils _ _ (counter-equal _ _ _ false (ap some v.subscription_errors)) (
            append-nils _ _ (counter-equal _ _ _ _ v.events_lost) (
              append-nils _ _ (counter-equal _ _ _ _ v.realtime_buffers_lost)
                (counter-equal _ _ _ _ v.log_buffers_lost))))))

-- After a first sample, a sample yields no change exactly when the three flags, the three failure
-- counters and the three loss counters, missing ones included, are those of the sample before.
pub source_gap_since-SameSample :
    (s t : CollectorStatus) → (source_gap_since (some s) t ≡ []) ↔ SameSample s t
source_gap_since-SameSample s t = (silent→same s t, same→silent s t)
