-- ===== src/Health/SourceGaps/Tests.antt =====
-- A history of one report: a second gap finds no room and is summed up once the first is taken.
use panopticon_agent.Prelude.{
  ℕ, ◌+◌, ◌≡◌, ◌↔◌, refl, true, false, some, none, [], if◌then◌else◌, arith,
}
use panopticon_agent.Health.SourceGaps.{
  CollectorStatus, Report, gap, SourceGapBuffer, source_gap_since, observe, acknowledge_front,
  flush_omissions, append_report, queue_gap,
}
use panopticon_agent.Health.SourceGaps.Accounting.{
  stands_for, gaps_held, Bounded, observe-Bounded, acknowledge_front-Bounded,
}
use panopticon_agent.Health.SourceGaps.Silence.{SameSample, source_gap_since-SameSample}

abbrev sample : CollectorStatus
sample = record {
  running = true;
  decode_failures = 0;
  sink_failures = 0;
  subscription_errors = 0;
  continuity_fault = false;
  statistics_available = true;
  events_lost = some 0;
  realtime_buffers_lost = some 0;
  log_buffers_lost = none;
  statistics_error = [];
}

abbrev size : Report → ℕ
size _ = 100

abbrev empty : SourceGapBuffer
empty = record {
  observed = none;
  observed_uptime = none;
  reports = [];
  report_limit = 1;
  byte_limit = 2048;
  bytes = 0;
  acknowledged = 0;
  omitted_total = 0;
  omitted_pending = 0;
  first_omitted_uptime = 0;
  last_omitted_uptime = 0;
}

abbrev started : SourceGapBuffer
started = (observe size sample 7 empty).0

abbrev stopped : SourceGapBuffer
stopped = (observe size (record sample { running = false }) 9 started).0

omitted_test : stopped.omitted_pending ≡ 1
unfolding observe source_gap_since flush_omissions append_report queue_gap
omitted_test = refl

Bounded-empty : Bounded empty
Bounded-empty = record { few = omega arith; bytes = refl; small = omega arith }

observe-Bounded_example :
    Bounded started
    × (gaps_held started ≡ gaps_held empty + (if (observe size sample 7 empty).1 then 1 else 0))
observe-Bounded_example = observe-Bounded size sample 7 empty (omega arith) Bounded-empty

Bounded-stopped : Bounded stopped
unfolding observe source_gap_since flush_omissions append_report queue_gap
Bounded-stopped = record { few = omega arith; bytes = refl; small = omega arith }

abbrev first_report : Report
first_report = gap (source_gap_since none sample) sample none 7

acknowledge_front-Bounded_example :
    (b' : SourceGapBuffer) × (acknowledge_front size stopped ≡ some b')
    × Bounded b'
    × (gaps_held b' + stands_for first_report ≡ gaps_held stopped)
unfolding observe source_gap_since flush_omissions append_report queue_gap
acknowledge_front-Bounded_example =
    acknowledge_front-Bounded size stopped (first_report, 100) [] refl Bounded-stopped

source_gap_since-SameSample_example :
    (source_gap_since (some sample) sample ≡ []) ↔ SameSample sample sample
source_gap_since-SameSample_example = source_gap_since-SameSample sample sample
