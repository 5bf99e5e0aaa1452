-- ===== src/Collectors/ProcessImageCache.antt =====
-- The cache of process images (src/collectors/process_image_cache.cpp,
-- include/panopticon/officer/collectors/process_image_cache.hpp). Events and contexts have the
-- fields that the cache reads or writes.
pub mod Retention
pub mod Enrichment
mod Tests
use panopticon_agent.Prelude.{
  ℕ, max, Bool, true, false, not, ◌&&◌, ◌||◌, Option, none, some, List, [], ◌∷◌, leb, ◌==◌,
  if◌then◌else◌, length, Text, codes, text_eq, ℤ,
}

pub record SourceProvenance : Type 0 where
  pub kind : ℕ
  pub provider : Text
  pub channel : Option Text
  pub record_id : Option ℕ

pub record CachedProcessContext : Type 0 where
  pub source : SourceProvenance
  pub process_start_time : ℤ
  pub pid : ℕ
  pub process_guid : Text
  pub executable : Option Text
  pub user_name : Option Text
  pub user_sid : Option Text

pub record RawProcessEvent : Type 0 where
  pub source : SourceProvenance
  pub process_start_time : ℤ
  pub pid : ℕ
  pub process_guid : Option Text
  pub executable : Option Text
  pub user_sid : Option Text
  pub user_name : Option Text
  pub terminated : Bool

pub record RawProcessContext : Type 0 where
  pub pid : ℕ
  pub executable : Option Text
  pub process_guid : Option Text
  pub cached_context : Option CachedProcessContext

-- A map of identities, under their guids.
pub record CacheEntry : Type 0 where
  pub guid : Text
  pub identity : CachedProcessContext

pub record ProcessImageCache : Type 0 where
  pub generation_capacity : ℕ
  pub hot : List CacheEntry
  pub cold : List CacheEntry

unfoldable pub make_cache : ℕ → ProcessImageCache
make_cache capacity = record { generation_capacity = max capacity 1; hot = []; cold = [] }

-- `map.find`.
unfoldable pub find_entry : Text → List CacheEntry → Option CachedProcessContext
find_entry guid [] = none
find_entry guid (e ∷ es) =
    let rest = find_entry guid es in if text_eq e.guid guid then some e.identity else rest

-- `map.insert_or_assign`.
unfoldable pub insert_or_assign : Text → CachedProcessContext → List CacheEntry → List CacheEntry
insert_or_assign guid identity [] = record { guid = guid; identity = identity } ∷ []
insert_or_assign guid identity (e ∷ es) =
    let rest = insert_or_assign guid identity es in
    if text_eq e.guid guid then record e { identity = identity } ∷ es else e ∷ rest

abbrev pub identity_of : RawProcessEvent → Text → CachedProcessContext
identity_of event guid = record {
  source = event.source;
  process_start_time = event.process_start_time;
  pid = event.pid;
  process_guid = guid;
  executable = event.executable;
  user_name = event.user_name;
  user_sid = event.user_sid;
}

abbrev pub is_none : Option CachedProcessContext → Bool
is_none none = true
is_none (some _) = false

-- The part of `remember` under the mutex.
unfoldable pub keep : Text → CachedProcessContext → ProcessImageCache → ProcessImageCache
keep guid identity c =
    if leb c.generation_capacity (length c.hot) && is_none (find_entry guid c.hot)
    then record c { cold = c.hot; hot = insert_or_assign guid identity [] }
    else record c { hot = insert_or_assign guid identity c.hot }

-- The guid of an event that is remembered: a start that has one.
unfoldable pub remembered_guid : RawProcessEvent → Option Text
remembered_guid event = if event.terminated then none else elim event.process_guid [
  | none ↦ none
  | some guid ↦ if length guid == 0 then none else some guid
]

abbrev pub keep_event : RawProcessEvent → Option Text → ProcessImageCache → ProcessImageCache
keep_event event none c = c
keep_event event (some guid) c = keep guid (identity_of event guid) c

unfoldable pub remember : RawProcessEvent → ProcessImageCache → ProcessImageCache
remember event c = keep_event event (remembered_guid event) c

abbrev pub otherwise :
    Option CachedProcessContext → Option CachedProcessContext → Option CachedProcessContext
otherwise none other = other
otherwise (some i) other = some i

unfoldable pub find_locked : Text → ProcessImageCache → Option CachedProcessContext
find_locked guid c = otherwise (find_entry guid c.hot) (find_entry guid c.cold)

-- An image that names a program.
unfoldable pub is_resolved : Option Text → Bool
is_resolved none = false
is_resolved (some image) =
    not (length image == 0) && not (text_eq image (codes "<unknown process>"))

unfoldable pub attach : RawProcessContext → Option CachedProcessContext → RawProcessContext × Bool
attach context none = (context, false)
attach context (some identity) =
    if identity.pid == context.pid && is_resolved identity.executable
    then (record context { cached_context = some identity }, true)
    else (context, false)

-- The lookup for a context with this guid.
unfoldable pub enrich_by :
    RawProcessContext → Option Text → ProcessImageCache → RawProcessContext × Bool
enrich_by context none c = (context, false)
enrich_by context (some guid) c =
    if length guid == 0 then (context, false) else attach context (find_locked guid c)

unfoldable pub enrich : RawProcessContext → ProcessImageCache → RawProcessContext × Bool
enrich context c =
    if is_resolved context.executable
    then (context, false)
    else enrich_by context context.process_guid c
