-- ===== src/Core/ProcessInstance.antt =====
-- The store of process instances (src/core/process_instance.cpp,
-- include/panopticon/officer/core/process_instance.hpp).
pub mod Identity
mod Tests
use panopticon_agent.Prelude.{
  ℕ, ◌+◌, ◌%◌, Bool, true, false, not, ◌&&◌, ◌||◌, Option, none, some, List, [], ◌∷◌, ◌++◌, ltb,
  leb, ◌==◌, if◌then◌else◌, length, Text, codes, text_eq, some_row, update, size_mod, to_string, ℤ,
  ltb_ℤ, Result, ok, err,
}

pub data Resolution : Type 0 where
  unresolved native_exact source_scoped native_unscoped : Resolution

pub record ProcessReference : Type 0 where
  pub observed_pid : ℕ
  pub entity_id : Option Text
  pub resolution : Resolution
  pub native_creation_ticks : Option ℕ
  pub source_guid : Option Text
  pub boot_id : Option Text
  pub source_namespace : Text

-- An instance under its entity id; times are counts of the clock's ticks.
pub record Instance : Type 0 where
  pub id : Text
  pub reference : ProcessReference
  pub terminated_at : Option ℤ

pub record ProcessInstanceStore : Type 0 where
  pub host_id : Text
  pub boot_id : Option Text
  pub resident_limit : ℕ
  pub admission_failures : ℕ
  pub instances : List Instance

pub data ProcessError : Type 0 where
  invalid_scope invalid_alias hash_failed : ProcessError

abbrev is_empty : Option Text → Bool
is_empty none = false
is_empty (some t) = length t == 0

unfoldable pub make_store : Text → Option Text → ℕ → Result ProcessError ProcessInstanceStore
make_store host boot limit =
    if length host == 0 || limit == 0 || is_empty boot
    then err invalid_scope
    else ok (record {
      host_id = host;
      boot_id = boot;
      resident_limit = limit;
      admission_failures = 0;
      instances = [];
    })

-- A text with its length in front.
unfoldable pub field : Text → Text
field value = to_string (length value) ++ (b':' ∷ value)

-- The text whose digest identifies a process by its native facts.
unfoldable pub native_text : Text → Text → ℕ → ℕ → Text
native_text host boot pid ticks =
    field (codes "native-process-instance-v1")
    ++ (field host ++ (field boot ++ (field (to_string pid) ++ field (to_string ticks))))

-- The text whose digest identifies a process within its source; `boot` is the boot id, or "unknown"
-- where there is none, so that a boot id of that text is not told from a missing one.
unfoldable pub source_text : Text → Text → Text → ℕ → Text → Text
source_text host boot source_namespace pid guid =
    field (codes "source-process-instance-v1")
    ++ (field host
        ++ (field boot ++ (field source_namespace ++ (field (to_string pid) ++ field guid))))

abbrev prefixed : Option Text → Result ProcessError Text
prefixed none = err hash_failed
prefixed (some hash) = ok (codes "proc_" ++ hash)

abbrev value_or : Text → Option Text → Text
value_or other none = other
value_or other (some t) = t

-- The ticks that count: there and not zero.
abbrev present_ticks : Option ℕ → Option ℕ
present_ticks none = none
present_ticks (some n) = if n == 0 then none else some n

-- The text to be hashed, if the facts identify the process, and the resolution.
unfoldable pub identifying :
    Text → Option Text → ℕ → Option ℕ → Option Text → Text → Option Text × Resolution
identifying host (some boot) pid (some ticks) guid source_namespace =
    (some (native_text host boot pid ticks), native_exact)
identifying host none pid ticks (some guid) source_namespace =
    (some (source_text host (codes "unknown") source_namespace pid guid), source_scoped)
identifying host (some boot) pid none (some guid) source_namespace =
    (some (source_text host boot source_namespace pid guid), source_scoped)
identifying host none pid (some ticks) none source_namespace = (none, native_unscoped)
identifying host boot pid none none source_namespace = (none, unresolved)

abbrev has_id : Text → Instance → Bool
has_id id i = text_eq i.id id

-- An instance that is not there is added, within the limit.
unfoldable pub admit_instance :
    Text → ProcessReference → ProcessInstanceStore → ProcessInstanceStore
admit_instance id reference s =
    if some_row (has_id id) s.instances
    then s
    else if leb s.resident_limit (length s.instances)
    then record s { admission_failures = (s.admission_failures + 1) % size_mod }
    else record s {
      instances =
          s.instances ++ record { id = id; reference = reference; terminated_at = none } ∷ [];
    }

abbrev referred :
    ProcessInstanceStore
    → ℕ
    → Option ℕ
    → Option Text
    → Text
    → Resolution
    → Option Text
    → ProcessReference
referred s pid ticks guid source_namespace resolution id = record {
  observed_pid = pid;
  entity_id = id;
  resolution = resolution;
  native_creation_ticks = ticks;
  source_guid = guid;
  boot_id = s.boot_id;
  source_namespace = source_namespace;
}

-- After the text has been hashed.
abbrev identified :
    (Option Text → ProcessReference)
    → Result ProcessError Text
    → ProcessInstanceStore
    → ProcessInstanceStore × Result ProcessError ProcessReference
identified reference (err e) s = (s, err e)
identified reference (ok id) s =
    (admit_instance id (reference (some id)) s, ok (reference (some id)))

abbrev hashed :
    (Text → Option Text)
    → (Option Text → ProcessReference)
    → Option Text
    → ProcessInstanceStore
    → ProcessInstanceStore × Result ProcessError ProcessReference
hashed sha256 reference none s = (s, ok (reference none))
hashed sha256 reference (some text) s = identified reference (prefixed (sha256 text)) s

abbrev is_bad_guid : Option Text → Bool
is_bad_guid none = false
is_bad_guid (some g) = length g == 0 || ltb 256 (length g)

unfoldable pub observe_process :
    (Text → Option Text)
    → ℕ
    → Option ℕ
    → Option Text
    → Text
    → ProcessInstanceStore
    → ProcessInstanceStore × Result ProcessError ProcessReference
observe_process sha256 pid ticks guid source_namespace s =
    if length source_namespace == 0 || ltb 1024 (length source_namespace) || is_bad_guid guid
    then (s, err invalid_alias)
    else (let (text, resolution) =
          identifying s.host_id s.boot_id pid (present_ticks ticks) guid source_namespace in
        hashed sha256 (referred s pid ticks guid source_namespace resolution) text s)

-- The earliest time of termination stays.
abbrev ended : ℤ → Instance → Instance
ended time i = elim i.terminated_at [
  | none ↦ record i { terminated_at = some time }
  | some t ↦ if ltb_ℤ time t then record i { terminated_at = some time } else i
]

unfoldable pub terminate : ProcessReference → ℤ → ProcessInstanceStore → ProcessInstanceStore
terminate reference time s = elim reference.entity_id [
  | none ↦ s
  | some id ↦ record s { instances = update (has_id id) (ended time) s.instances }
]
