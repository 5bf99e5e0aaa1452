-- ===== src/Health/SourceGaps.antt =====
-- Gaps between two samples of a source, and their bounded history
-- (src/health/source_supervisor.cpp).
pub mod Accounting
pub mod Silence
mod Tests
use panopticon_agent.Prelude.{
  size_mod, sub_size, ℕ, zero, suc, ◌+◌, ◌*◌, ◌-◌, ◌%◌, ◌^◌, Bool, true, false, not, ◌&&◌, ◌||◌,
  Option, none, some, List, [], ◌∷◌, ◌++◌, ltb, leb, ◌==◌, if◌then◌else◌, length, Text,
}

pub record CollectorStatus : Type 0 where
  pub running : Bool
  pub decode_failures : ℕ
  pub sink_failures : ℕ
  pub subscription_errors : ℕ
  pub continuity_fault : Bool
  pub statistics_available : Bool
  pub events_lost : Option ℕ
  pub realtime_buffers_lost : Option ℕ
  pub log_buffers_lost : Option ℕ
  pub statistics_error : Text

pub data Reason : Type 0 where
  startup_continuity_unknown consumer_resumed consumer_stopped statistics_restored : Reason
  statistics_unavailable continuity_fault_observed continuity_fault_cleared : Reason
  counter_sample_unavailable counter_decreased counter_advanced counter_sample_restored : Reason
  initial_total : Reason

pub data Counter : Type 0 where
  decode_failures sink_failures subscription_errors : Counter
  events_lost realtime_buffers_lost log_buffers_lost : Counter

-- One entry of `changes`: a transition without a count, or a counter with its previous value, its
-- total and the difference.
pub data Change : Type 0 where
  transition : Reason → Change
  counted : Counter → Option ℕ → Option ℕ → Option ℕ → Reason → Change

abbrev pub counter : Counter → Option ℕ → Option ℕ → Bool → List Change
counter name none none prior_sample = []
counter name none (some total) prior_sample =
    if total == 0 && not prior_sample
    then []
    else counted name none (some total) none
        (if prior_sample then counter_sample_restored else initial_total)
      ∷ []
counter name (some previous) none prior_sample =
    counted name (some previous) none none counter_sample_unavailable ∷ []
counter name (some previous) (some total) prior_sample =
    if previous == total
    then []
    else if ltb total previous
    then counted name (some previous) (some total) none counter_decreased ∷ []
    else counted name (some previous) (some total) (some (total - previous)) counter_advanced ∷ []

-- A Boolean that differs between two samples.
abbrev pub flag : Bool → Bool → Reason → Reason → List Change
flag false true now_set now_clear = transition now_set ∷ []
flag true false now_set now_clear = transition now_clear ∷ []
flag _ _ now_set now_clear = []

abbrev pub transitions : Option CollectorStatus → CollectorStatus → List Change
transitions none after = transition startup_continuity_unknown ∷ []
transitions (some before) after =
    flag before.running after.running consumer_resumed consumer_stopped
    ++ (flag before.statistics_available after.statistics_available statistics_restored
          statistics_unavailable
        ++ flag before.continuity_fault after.continuity_fault continuity_fault_observed
            continuity_fault_cleared)

abbrev pub earlier : Option CollectorStatus → (CollectorStatus → Option ℕ) → Option ℕ
earlier none get = none
earlier (some before) get = get before

abbrev pub sampled : Option CollectorStatus → Bool
sampled none = false
sampled (some _) = true

-- The entries of `changes`; the result is null where there is none.
unfoldable pub source_gap_since : Option CollectorStatus → CollectorStatus → List Change
source_gap_since before after =
    transitions before after
    ++ (counter decode_failures (earlier before (λ s. some s.decode_failures))
          (some after.decode_failures) false
        ++ (counter sink_failures (earlier before (λ s. some s.sink_failures))
              (some after.sink_failures) false
            ++ (counter subscription_errors (earlier before (λ s. some s.subscription_errors))
                  (some after.subscription_errors) false
                ++ (counter events_lost (earlier before (λ s. s.events_lost)) after.events_lost
                      (sampled before)
                    ++ (counter realtime_buffers_lost
                          (earlier before (λ s. s.realtime_buffers_lost))
                          after.realtime_buffers_lost (sampled before)
                        ++ counter log_buffers_lost (earlier before (λ s. s.log_buffers_lost))
                            after.log_buffers_lost (sampled before))))))

-- A queued report: a gap with the uptimes of its two samples, or a summary of omitted ones.
pub data Report : Type 0 where
  gap : List Change → CollectorStatus → Option ℕ → ℕ → Report
  omissions : ℕ → ℕ → ℕ → Report

pub record SourceGapBuffer : Type 0 where
  pub observed : Option CollectorStatus
  pub observed_uptime : Option ℕ
  pub reports : List (Report × ℕ)
  pub report_limit : ℕ
  pub byte_limit : ℕ
  pub bytes : ℕ
  pub acknowledged : ℕ
  pub omitted_total : ℕ
  pub omitted_pending : ℕ
  pub first_omitted_uptime : ℕ
  pub last_omitted_uptime : ℕ

-- The constructor; none where it throws.
unfoldable pub make_buffer : ℕ → ℕ → Option SourceGapBuffer
make_buffer reports bytes =
    if reports == 0 || ltb 1024 reports || ltb bytes 2048 || ltb (1024 * 1024) bytes
    then none
    else some (record {
      observed = none;
      observed_uptime = none;
      reports = [];
      report_limit = reports;
      byte_limit = bytes;
      bytes = 0;
      acknowledged = 0;
      omitted_total = 0;
      omitted_pending = 0;
      first_omitted_uptime = 0;
      last_omitted_uptime = 0;
    })

abbrev pub next_u64 : ℕ → ℕ
next_u64 n = (n + 1) % size_mod

-- A report that found no room.
abbrev pub omit : ℕ → SourceGapBuffer → SourceGapBuffer
omit uptime b = record b {
  first_omitted_uptime = if b.omitted_pending == 0 then uptime else b.first_omitted_uptime;
  last_omitted_uptime = uptime;
  omitted_pending = next_u64 b.omitted_pending;
  omitted_total = next_u64 b.omitted_total;
}

-- `size` is the length of a report's JSON text.
module _ (size : Report → ℕ) where
  unfoldable pub append_report : Report → SourceGapBuffer → SourceGapBuffer × Bool
  append_report report b =
      if leb b.report_limit (length b.reports) || ltb (sub_size b.byte_limit b.bytes) (size report)
      then (b, false)
      else (
        record b {
          reports = b.reports ++ (report, size report) ∷ [];
          bytes = b.bytes + size report;
        },
        true,
      )

  unfoldable pub flush_omissions : SourceGapBuffer → SourceGapBuffer
  flush_omissions b =
      let tried =
        append_report (omissions b.omitted_pending b.first_omitted_uptime b.last_omitted_uptime)
          b in
      if b.omitted_pending == 0
      then b
      else if tried.1
      then record (tried.0) { omitted_pending = 0 }
      else tried.0

  unfoldable pub queue_gap : Report → ℕ → SourceGapBuffer → SourceGapBuffer
  queue_gap report uptime b =
      let tried = append_report report b in
      if not (b.omitted_pending == 0)
      then omit uptime b
      else if tried.1
      then tried.0
      else omit uptime b

  unfoldable pub observe : CollectorStatus → ℕ → SourceGapBuffer → SourceGapBuffer × Bool
  observe current uptime b =
      let flushed = flush_omissions b in
      elim (source_gap_since flushed.observed current) [
        | [] ↦ (record flushed { observed = some current; observed_uptime = some uptime }, false)
        | c ∷ cs ↦ (
          record (queue_gap (gap (c ∷ cs) current flushed.observed_uptime uptime) uptime flushed) {
            observed = some current;
            observed_uptime = some uptime;
          },
          true,
        )
      ]

  -- none where it throws.
  unfoldable pub acknowledge_front : SourceGapBuffer → Option SourceGapBuffer
  acknowledge_front b = elim b.reports [
    | [] ↦ none
    | report ∷ rest ↦ some (
        flush_omissions (record b {
          bytes = sub_size b.bytes report.1;
          reports = rest;
          acknowledged = next_u64 b.acknowledged;
        }))
  ]
