-- ===== src/Pipeline/RawHandoff/Tests.antt =====
-- A ring of two slots: one event goes through it, the handoff is closed, and the worker ends.
use panopticon_agent.Prelude.{ℕ, ◌≡◌, inl, arith, refl, true, false, none, some, [], ◌∷◌}
use panopticon_agent.Pipeline.RawHandoff.{
  Item, RawHandoff, make, notify, try_submit, next_item, settle, close, set_at, repeat_none,
  empty_status,
}
use panopticon_agent.Pipeline.RawHandoff.Kept.{Kept, items_of}
use panopticon_agent.Pipeline.RawHandoff.Drain.{
  Reaches, started, submitted, taken, settled, closed, Reaches-Kept, drained, worker_advances,
  Advanced,
}

abbrev start : RawHandoff ℕ
start = record {
  queue = none ∷ none ∷ [];
  head = 0;
  tail = 0;
  queued = 0;
  status = empty_status 2 10;
  exception_refused = 0;
  in_hand = none;
  waiting = false;
  returned = false;
}

abbrev event : Item ℕ
event = record { event = 7; charge = 4 }

abbrev filled : RawHandoff ℕ
filled = (try_submit 7 (some 4) start).0

abbrev handling : RawHandoff ℕ
handling = record start {
  tail = 1;
  head = 1;
  status = record (empty_status 2 10) { admitted = 1; owned_events = 1; charged_bytes = 4 };
  in_hand = some event;
}

abbrev shut : RawHandoff ℕ
shut = close (settle true event handling)

abbrev ended : RawHandoff ℕ
ended = record shut { returned = true }

Reaches_start : Reaches 2 10 start [] []
unfolding make repeat_none
Reaches_start = started start refl

Reaches_filled : Reaches 2 10 filled (event ∷ []) []
unfolding notify try_submit
Reaches_filled = submitted 7 4 start [] [] Reaches_start

Reaches_ended : Reaches 2 10 ended (event ∷ []) ((event, true) ∷ [])
unfolding notify try_submit next_item set_at settle close
Reaches_ended = taken shut ended (event ∷ []) ((event, true) ∷ []) refl refl refl refl (
    closed (settle true event handling) (event ∷ []) ((event, true) ∷ []) (
      settled true event handling (event ∷ []) [] refl
        (taken filled handling (event ∷ []) [] refl refl refl refl Reaches_filled)))

Reaches-Kept_example : Kept 2 10 filled (event ∷ []) []
Reaches-Kept_example = Reaches-Kept 2 10 filled (event ∷ []) [] Reaches_filled

drained_example :
    (items_of ((event, true) ∷ []) ≡ event ∷ [])
    × (ended.status.accepting ≡ false)
    × (ended.status.owned_events ≡ 0)
    × (ended.status.charged_bytes ≡ 0)
drained_example = drained 2 10 ended (event ∷ []) ((event, true) ∷ []) Reaches_ended refl

-- The worker was asleep when the event came.
abbrev asleep : RawHandoff ℕ
asleep = record start { waiting = true }

abbrev roused : RawHandoff ℕ
roused = (try_submit 7 (some 4) asleep).0

Reaches_roused : Reaches 2 10 roused (event ∷ []) []
unfolding notify try_submit next_item
Reaches_roused =
    submitted 7 4 asleep [] [] (taken start asleep [] [] refl refl refl refl Reaches_start)

worker_advances_example :
    (roused.waiting ≡ false)
    × ((s : RawHandoff ℕ) × (next_item roused ≡ some s) × Advanced (event ∷ []) [] s)
unfolding notify try_submit
worker_advances_example =
    worker_advances 2 10 roused (event ∷ []) [] Reaches_roused refl refl (inl (omega arith))
