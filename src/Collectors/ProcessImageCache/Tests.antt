-- ===== src/Collectors/ProcessImageCache/Tests.antt =====
-- The cache of process images at concrete inputs.
use panopticon_agent.Prelude.{
  ◌≡◌, refl, false, none, some, [], ◌∷◌, Text, codes, text_eq, pos, arith,
}
use panopticon_agent.Collectors.ProcessImageCache.{
  RawProcessEvent, RawProcessContext, ProcessImageCache, make_cache, identity_of, remembered_guid,
  remember, find_locked, enrich,
}
use panopticon_agent.Collectors.ProcessImageCache.Retention.{remember_all, remembered_found}
use panopticon_agent.Collectors.ProcessImageCache.Enrichment.{Enriched, enrich-Enriched}

abbrev started : Text → RawProcessEvent
started guid = record {
  source = record { kind = 1; provider = codes "p"; channel = none; record_id = none };
  process_start_time = pos 5;
  pid = 7;
  process_guid = some guid;
  executable = some (codes "a.exe");
  user_sid = none;
  user_name = none;
  terminated = false;
}

abbrev small : ProcessImageCache
small = record { generation_capacity = 1; hot = []; cold = [] }

remembered_found_example :
    find_locked
      (codes "g")
      (remember_all (started (codes "h") ∷ []) (remember (started (codes "g")) small))
    ≡ some (identity_of (started (codes "g")) (codes "g"))
unfolding remembered_guid text_eq
remembered_found_example =
    remembered_found (codes "g") (started (codes "g")) (started (codes "h") ∷ []) small refl
      (refl, tt) (omega arith)

abbrev context : RawProcessContext
context = record {
  pid = 7;
  executable = none;
  process_guid = some (codes "g");
  cached_context = none;
}

enrich-Enriched_example :
    Enriched context (enrich context (remember_all (started (codes "g") ∷ []) (make_cache 4)))
enrich-Enriched_example = enrich-Enriched 4 (started (codes "g") ∷ []) context
