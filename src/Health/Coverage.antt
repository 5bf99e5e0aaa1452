-- ===== src/Health/Coverage.antt =====
-- The registry of capabilities (src/health/coverage.cpp).
pub mod Updates
mod Tests
use panopticon_agent.Prelude.{
  size_mod, ℕ, ◌+◌, ◌%◌, Bool, true, false, ◌||◌, Option, none, some, List, [], ◌∷◌, ltb, ◌==◌,
  if◌then◌else◌, length, Text, codes, text_eq,
}

pub data CapabilityState : Type 0 where
  healthy degraded unavailable disabled unsupported blind : CapabilityState

-- `state_name`.
unfoldable pub state_name : CapabilityState → Text
state_name healthy = codes "healthy"
state_name degraded = codes "degraded"
state_name unavailable = codes "unavailable"
state_name disabled = codes "disabled"
state_name unsupported = codes "unsupported"
state_name blind = codes "blind"

pub record Capability : Type 0 where
  pub id : Text
  pub state : CapabilityState
  pub reason : Text
  pub scope : Text
  pub updated_at : Text
  pub failure_count : ℕ

-- What `set` is called with, and the time it reads.
pub record Update : Type 0 where
  pub id : Text
  pub state : CapabilityState
  pub reason : Text
  pub scope : Text
  pub failure : Bool
  pub now : Text

abbrev pub fresh_capability : Update → Capability
fresh_capability u = record {
  id = u.id;
  state = u.state;
  reason = u.reason;
  scope = u.scope;
  updated_at = u.now;
  failure_count = if u.failure then 1 else 0;
}

abbrev pub updated_capability : Update → Capability → Capability
updated_capability u c = record {
  id = c.id;
  state = u.state;
  reason = u.reason;
  scope = u.scope;
  updated_at = u.now;
  failure_count = if u.failure then (c.failure_count + 1) % size_mod else c.failure_count;
}

-- The first capability with the id is replaced; without one, a new capability goes to the end.
unfoldable pub put_capability : Update → List Capability → List Capability
put_capability u [] = fresh_capability u ∷ []
put_capability u (c ∷ cs) =
    let rest = put_capability u cs in
    if text_eq c.id u.id then updated_capability u c ∷ cs else c ∷ rest

-- `set`; none where it throws.
unfoldable pub set_capability : Update → List Capability → Option (List Capability)
set_capability u cs =
    if length u.id == 0
      || ltb 128 (length u.id)
      || ltb 2048 (length u.reason)
      || ltb 2048 (length u.scope)
    then none
    else some (put_capability u cs)
