-- ===== src/Collectors/ProcessImageCache/Enrichment.antt =====
-- A context is enriched by the identity of its own process only.
use panopticon_agent.Prelude.{
  ◌≡◌, inl, inr, refl, sym, ap, ◌∙◌, Bool, true, false, ◌&&◌, Bool-cases, Option, none, some,
  Option-cases, List, [], ◌∷◌, leb, ◌==◌, ==_iff, ℕ, if◌then◌else◌, if-both, length, arith, Text,
  text_eq, text_eq→eq,
}
use panopticon_agent.Collectors.ProcessImageCache.{
  CachedProcessContext, RawProcessEvent, RawProcessContext, CacheEntry, ProcessImageCache,
  make_cache, find_entry, insert_or_assign, identity_of, keep, keep_event, remembered_guid,
  remember, find_locked, is_none, enrich, enrich_by, attach, is_resolved,
}
use panopticon_agent.Collectors.ProcessImageCache.Retention.{remember_all}

-- Every identity stands under its own guid.
abbrev Keyed : List CacheEntry → Type 0
Keyed [] = Unit {0}
Keyed (e ∷ es) = (e.identity.process_guid ≡ e.guid) × Keyed es

Keyed-insert :
    (g : Text) (i : CachedProcessContext) (es : List CacheEntry)
    → i.process_guid ≡ g
    → Keyed es
    → Keyed (insert_or_assign g i es)
unfolding insert_or_assign
Keyed-insert g i [] h k = (h, tt)
Keyed-insert g i (e ∷ es) h k =
    if-both Keyed (text_eq e.guid g) _ _ (λ t. (h ∙ sym (text_eq→eq e.guid g t), k.1))
      λ _. (k.0, Keyed-insert g i es h k.1)

Keyed-find :
    (g : Text) (i : CachedProcessContext) (es : List CacheEntry)
    → Keyed es
    → find_entry g es ≡ some i
    → i.process_guid ≡ g
unfolding find_entry
Keyed-find g i [] k h = absurd (ground arith)
Keyed-find g i (e ∷ es) k h = elim (Bool-cases (text_eq e.guid g)) [
  | inl t ↦
      sym (ap (λ (x : CachedProcessContext). x.process_guid) (found (text_eq e.guid g) t h))
      ∙ k.0
      ∙ text_eq→eq e.guid g t
  | inr f ↦ Keyed-find g i es k.1 (rest (text_eq e.guid g) f h)
]
  where
    found :
        (b : Bool)
        → b ≡ true
        → (if b then some e.identity else find_entry g es) ≡ some i
        → e.identity ≡ i
    found b t h = ground arith

    rest :
        (b : Bool)
        → b ≡ false
        → (if b then some e.identity else find_entry g es) ≡ some i
        → find_entry g es ≡ some i
    rest b f h = ground arith

abbrev BothKeyed : ProcessImageCache → Type 0
BothKeyed c = Keyed c.hot × Keyed c.cold

keep-Keyed :
    (g : Text) (i : CachedProcessContext) (c : ProcessImageCache)
    → i.process_guid ≡ g
    → BothKeyed c
    → BothKeyed (keep g i c)
unfolding keep
keep-Keyed g i c h k =
    if-both BothKeyed (leb c.generation_capacity (length c.hot) && is_none (find_entry g c.hot)) _ _
      (λ _. (Keyed-insert g i [] h tt, k.0)) λ _. (Keyed-insert g i c.hot h k.0, k.1)

keep_event-Keyed :
    (e : RawProcessEvent) (o : Option Text) (c : ProcessImageCache)
    → BothKeyed c
    → BothKeyed (keep_event e o c)
keep_event-Keyed e none c k = k
keep_event-Keyed e (some g) c k = keep-Keyed g (identity_of e g) c refl k

remember_all-Keyed :
    (es : List RawProcessEvent) (c : ProcessImageCache)
    → BothKeyed c
    → BothKeyed (remember_all es c)
unfolding remember
remember_all-Keyed [] c k = k
remember_all-Keyed (e ∷ es) c k =
    remember_all-Keyed es (remember e c) (keep_event-Keyed e (remembered_guid e) c k)

locked-Keyed :
    (g : Text) (i : CachedProcessContext) (c : ProcessImageCache)
    → BothKeyed c
    → find_locked g c ≡ some i
    → i.process_guid ≡ g
unfolding find_locked
locked-Keyed g i c k h = elim (Option-cases (find_entry g c.hot)) [
  | inl n ↦ Keyed-find g i c.cold k.1 (ground arith)
  | inr f ↦ Keyed-find g i c.hot k.0 (ground arith)
]

-- What a call of `enrich` gives: the context as it was, or with an identity that has its guid and
-- its pid and names a program, where the context's own image does not.
pub data Enriched (context : RawProcessContext) : RawProcessContext × Bool → Type 0 where
  unchanged : Enriched context (context, false)
  enriched :
      (guid : Text) (identity : CachedProcessContext)
      → context.process_guid ≡ some guid
      → identity.process_guid ≡ guid
      → identity.pid ≡ context.pid
      → is_resolved context.executable ≡ false
      → is_resolved identity.executable ≡ true
      → Enriched context (record context { cached_context = some identity }, true)

attach-Enriched :
    (context : RawProcessContext) (guid : Text) (o : Option CachedProcessContext)
    (c : ProcessImageCache)
    → BothKeyed c
    → context.process_guid ≡ some guid
    → is_resolved context.executable ≡ false
    → find_locked guid c ≡ o
    → Enriched context (attach context o)
unfolding attach
attach-Enriched context guid none c k g r e = unchanged
attach-Enriched context guid (some i) c k g r e =
    if-both (Enriched context) (i.pid == context.pid && is_resolved i.executable) _ _
      (λ h.
        enriched guid i g (locked-Keyed guid i c k e) ((==_iff i.pid context.pid).0 (ground arith))
          r (ground arith))
      λ _. unchanged

enrich_by-Enriched :
    (context : RawProcessContext) (o : Option Text) (c : ProcessImageCache)
    → BothKeyed c
    → context.process_guid ≡ o
    → is_resolved context.executable ≡ false
    → Enriched context (enrich_by context o c)
unfolding enrich_by
enrich_by-Enriched context none c k g r = unchanged
enrich_by-Enriched context (some guid) c k g r =
    if-both (Enriched context) (length guid == 0) _ _ (λ _. unchanged)
      λ _. attach-Enriched context guid (find_locked guid c) c k g r refl

-- In a new cache after any events: a call of enrich either gives false and the context as it was,
-- or gives true and adds to the context, whose own image names no program, an identity that has the
-- guid and the pid of the context and names a program.
pub enrich-Enriched :
    (capacity : ℕ) (events : List RawProcessEvent) (context : RawProcessContext)
    → Enriched context (enrich context (remember_all events (make_cache capacity)))
unfolding enrich make_cache
enrich-Enriched capacity events context =
    if-both (Enriched context) (is_resolved context.executable) _ _ (λ _. unchanged)
      λ r.
        enrich_by-Enriched context context.process_guid (remember_all events (make_cache capacity))
          (remember_all-Keyed events (make_cache capacity) (tt, tt)) refl r
