-- ===== src/Pipeline/RawHandoff.antt =====
-- The bounded ring between a collector's callback and the worker
-- (src/pipeline/raw_handoff.cpp). One function per section under the mutex.
pub mod Ring
pub mod Kept
pub mod Worker
pub mod Drain
mod Tests
use panopticon_agent.Prelude.{
  size_mod, sub_size, ℕ, zero, suc, ◌+◌, ◌-◌, ◌%◌, ◌^◌, Bool, true, false, not, ◌||◌, Option, none,
  some, List, [], ◌∷◌, ltb, leb, ◌==◌, if◌then◌else◌, get_elem?,
}

-- `++` on a 64-bit counter.
abbrev pub next_count : ℕ → ℕ
next_count n = (n + 1) % size_mod

-- Without `fixed_ring_bytes`, which the size of an event on the target machine decides.
pub record HandoffStats : Type 0 where
  pub admitted : ℕ
  pub completed : ℕ
  pub failed : ℕ
  pub refused : ℕ
  pub contention_refused : ℕ
  pub exception_refused : ℕ
  pub owned_events : ℕ
  pub charged_bytes : ℕ
  pub event_limit : ℕ
  pub byte_limit : ℕ
  pub accepting : Bool

unfoldable pub set_at {ℓ} : {A : Type ℓ} → List A → ℕ → A → List A
set_at [] i y = []
set_at (x ∷ xs) zero y = y ∷ xs
set_at (x ∷ xs) (suc i) y = x ∷ set_at xs i y

abbrev pub repeat_none {ℓ} : {A : Type ℓ} → ℕ → List (Option A)
repeat_none zero = []
repeat_none (suc n) = none ∷ repeat_none n

module _ (Event : Type 0) where
  pub record Item : Type 0 where
    pub event : Event
    pub charge : ℕ

  -- `in_hand` is the worker's `item` while the handler runs; `waiting` says that the worker sleeps
  -- on the condition variable and `returned` that its loop has ended.
  pub record RawHandoff : Type 0 where
    pub queue : List (Option Item)
    pub head : ℕ
    pub tail : ℕ
    pub queued : ℕ
    pub status : HandoffStats
    pub exception_refused : ℕ
    pub in_hand : Option Item
    pub waiting : Bool
    pub returned : Bool

abbrev pub empty_status : ℕ → ℕ → HandoffStats
empty_status events bytes = record {
  admitted = 0;
  completed = 0;
  failed = 0;
  refused = 0;
  contention_refused = 0;
  exception_refused = 0;
  owned_events = 0;
  charged_bytes = 0;
  event_limit = events;
  byte_limit = bytes;
  accepting = true;
}

module _ {Event : Type 0} where
  -- The constructor; none where it throws.
  unfoldable pub make : ℕ → ℕ → Bool → Option (RawHandoff Event)
  make events bytes has_handler =
      if events == 0 || ltb 65536 events || bytes == 0 || not has_handler
      then none
      else some (record {
        queue = repeat_none events;
        head = 0;
        tail = 0;
        queued = 0;
        status = empty_status events bytes;
        exception_refused = 0;
        in_hand = none;
        waiting = false;
        returned = false;
      })

  -- `notify_one` and `notify_all`: the worker is the only thread that waits.
  unfoldable pub notify : RawHandoff Event → RawHandoff Event
  notify r = record r { waiting = false }

  abbrev pub enqueue : Item Event → RawHandoff Event → RawHandoff Event
  enqueue item r = record r {
    queue = set_at r.queue r.tail (some item);
    tail = (r.tail + 1) % r.status.event_limit;
    queued = r.queued + 1;
    status = record r.status {
      admitted = next_count r.status.admitted;
      owned_events = r.status.owned_events + 1;
      charged_bytes = r.status.charged_bytes + item.charge;
    };
  }

  -- `try_submit`. The charge is none where computing it throws.
  unfoldable pub try_submit : Event → Option ℕ → RawHandoff Event → RawHandoff Event × Bool
  unfolding notify
  try_submit event none r = (record r { exception_refused = next_count r.exception_refused }, false)
  try_submit event (some charge) r =
      if not r.status.accepting
        || leb r.status.event_limit r.status.owned_events
        || ltb (sub_size r.status.byte_limit r.status.charged_bytes) charge
      then (record r { status = record r.status { refused = next_count r.status.refused } }, false)
      else (notify (enqueue (record { event = event; charge = charge }) r), true)

  -- The first half of the worker's loop, with the mutex held: the test of the wait, which sleeps
  -- where it fails, and what follows it. None stands for the use of an empty slot.
  unfoldable pub next_item : RawHandoff Event → Option (RawHandoff Event)
  next_item r =
      if r.queued == 0
      then some
          (if r.status.accepting then record r { waiting = true } else record r { returned = true })
      else elim (get_elem? r.queue r.head) [
        | some (some item) ↦ some (record r {
          queue = set_at r.queue r.head none;
          head = (r.head + 1) % r.status.event_limit;
          queued = r.queued - 1;
          in_hand = some item;
        })
        | _ ↦ none
      ]

  -- The second half, after the handler has returned or thrown.
  unfoldable pub settle : Bool → Item Event → RawHandoff Event → RawHandoff Event
  settle completed item r = record r {
    in_hand = none;
    status = record r.status {
      completed = if completed then next_count r.status.completed else r.status.completed;
      failed = if completed then r.status.failed else next_count r.status.failed;
      owned_events = sub_size r.status.owned_events 1;
      charged_bytes = sub_size r.status.charged_bytes item.charge;
    };
  }

  -- Without the join of the worker's thread.
  unfoldable pub close : RawHandoff Event → RawHandoff Event
  unfolding notify
  close r = notify (record r { status = record r.status { accepting = false } })

  unfoldable pub stats : RawHandoff Event → HandoffStats
  stats r = record r.status {
    exception_refused = r.exception_refused;
    refused = (r.status.refused + r.exception_refused) % size_mod;
  }
