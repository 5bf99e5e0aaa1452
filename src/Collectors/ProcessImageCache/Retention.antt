-- ===== src/Collectors/ProcessImageCache/Retention.antt =====
-- What the cache of process images finds after any sequence of events.
use panopticon_agent.Prelude.{
  ℕ, suc, ◌+◌, ◌≤◌, ◌≡◌, inl, inr, refl, ap, ◌∙◌, Bool, false, ◌&&◌, Bool-cases, Option, none, some,
  List, [], ◌∷◌, leb, if◌then◌else◌, if-both, length, arith, Text, text_eq, text_eq_refl,
  text_eq→eq,
}
use panopticon_agent.Collectors.ProcessImageCache.{
  CachedProcessContext, RawProcessEvent, CacheEntry, ProcessImageCache, find_entry,
  insert_or_assign, identity_of, keep, keep_event, remembered_guid, remember, find_locked, is_none,
}

find_entry-same :
    (g : Text) (i : CachedProcessContext) (es : List CacheEntry)
    → find_entry g (insert_or_assign g i es) ≡ some i
unfolding find_entry insert_or_assign
find_entry-same g i [] = rw (text_eq_refl g) refl
find_entry-same g i (e ∷ es) = ground (arith, find_entry-same g i es)

find_entry-other :
    (g h : Text) (i : CachedProcessContext) (es : List CacheEntry)
    → text_eq h g ≡ false
    → find_entry g (insert_or_assign h i es) ≡ find_entry g es
unfolding find_entry insert_or_assign
find_entry-other g h i [] n = rw n refl
find_entry-other g h i (e ∷ es) n = elim (Bool-cases (text_eq e.guid h)) [
  | inl t ↦ rw (t, ap (λ k. text_eq k g) (text_eq→eq e.guid h t) ∙ n) refl
  | inr f ↦ rw f (
      ap (λ rest. if text_eq e.guid g then some e.identity else rest) (find_entry-other g h i es n))
]

length-insert :
    (h : Text) (i : CachedProcessContext) (es : List CacheEntry)
    → length (insert_or_assign h i es) ≤ length es + 1
unfolding insert_or_assign
length-insert h i [] = omega arith
length-insert h i (e ∷ es) = ground (arith, length-insert h i es)

-- The identity is found, and will be after `k` more events of other processes: it is hot, or cold
-- with that many places left before the next change of generations.
data Alive (g : Text) (i : CachedProcessContext) (k : ℕ) (c : ProcessImageCache) : Type 0 where
  hot : find_entry g c.hot ≡ some i → k ≤ c.generation_capacity → Alive g i k c
  cold :
      find_entry g c.hot ≡ none
      → find_entry g c.cold ≡ some i
      → length c.hot + k ≤ c.generation_capacity
      → Alive g i k c

Alive-found :
    (g : Text) (i : CachedProcessContext) (k : ℕ) (c : ProcessImageCache)
    → Alive g i k c
    → find_locked g c ≡ some i
unfolding find_locked
Alive-found g i k c (hot e h) = rw e refl
Alive-found g i k c (cold e f h) = rw (e, f) refl

keep-Alive-cold :
    (g h : Text) (i j : CachedProcessContext) (k : ℕ) (c : ProcessImageCache)
    → text_eq h g ≡ false
    → find_entry g c.hot ≡ none
    → find_entry g c.cold ≡ some i
    → length c.hot + suc k ≤ c.generation_capacity
    → Alive g i k (keep h j c)
unfolding keep
keep-Alive-cold g h i j k c n e f l =
    if-both (Alive g i k) (leb c.generation_capacity (length c.hot) && is_none (find_entry h c.hot))
      _ _ (λ full. absurd (ground arith))
      λ _. cold (find_entry-other g h j c.hot n ∙ e) f (omega (arith, l, length-insert h j c.hot))

keep-Alive-hot :
    (g h : Text) (i j : CachedProcessContext) (k : ℕ) (c : ProcessImageCache)
    → text_eq h g ≡ false
    → find_entry g c.hot ≡ some i
    → suc k ≤ c.generation_capacity
    → Alive g i k (keep h j c)
unfolding keep find_entry
keep-Alive-hot g h i j k c n e l =
    if-both (Alive g i k) (leb c.generation_capacity (length c.hot) && is_none (find_entry h c.hot))
      _ _ (λ _. cold (find_entry-other g h j [] n) e (omega (arith, l, length-insert h j [])))
      λ _. hot (find_entry-other g h j c.hot n ∙ e) (omega (arith, l))

-- The events, one after the other.
abbrev pub remember_all : List RawProcessEvent → ProcessImageCache → ProcessImageCache
remember_all [] c = c
remember_all (e ∷ es) c = remember_all es (remember e c)

-- The event is remembered under this guid.
abbrev names : Text → Option Text → Bool
names g none = false
names g (some h) = text_eq h g

-- No event is remembered under this guid.
abbrev pub Others : Text → List RawProcessEvent → Type 0
Others g [] = Unit {0}
Others g (e ∷ es) = (names g (remembered_guid e) ≡ false) × Others g es

remember-Alive :
    (g : Text) (i : CachedProcessContext) (k : ℕ) (e : RawProcessEvent) (c : ProcessImageCache)
    → names g (remembered_guid e) ≡ false
    → Alive g i (suc k) c
    → Alive g i k (remember e c)
unfolding remember
remember-Alive g i k e c n a = by_guid (remembered_guid e) n a
  where
    by_guid :
        (o : Option Text) → names g o ≡ false → Alive g i (suc k) c → Alive g i k (keep_event e o c)
    by_guid none n (hot f l) = hot f (omega (arith, l))
    by_guid none n (cold f m l) = cold f m (omega (arith, l))
    by_guid (some h) n (hot f l) = keep-Alive-hot g h i (identity_of e h) k c n f l
    by_guid (some h) n (cold f m l) = keep-Alive-cold g h i (identity_of e h) k c n f m l

remember_all-found :
    (g : Text) (i : CachedProcessContext) (es : List RawProcessEvent) (c : ProcessImageCache)
    → Others g es
    → Alive g i (length es) c
    → find_locked g (remember_all es c) ≡ some i
remember_all-found g i [] c o a = Alive-found g i 0 c a
remember_all-found g i (e ∷ es) c o a =
    remember_all-found g i es (remember e c) o.1 (remember-Alive g i (length es) e c o.0 a)

keep-Alive :
    (g : Text) (i : CachedProcessContext) (k : ℕ) (c : ProcessImageCache)
    → k ≤ c.generation_capacity
    → Alive g i k (keep g i c)
unfolding keep
keep-Alive g i k c l =
    if-both (Alive g i k) (leb c.generation_capacity (length c.hot) && is_none (find_entry g c.hot))
      _ _ (λ _. hot (find_entry-same g i []) l) λ _. hot (find_entry-same g i c.hot) l

-- After an event is remembered under a guid, and then as many events as the capacity of a
-- generation at most, none of them remembered under this guid: the lookup of the guid finds the
-- identity of that event.
pub remembered_found :
    (g : Text) (e : RawProcessEvent) (es : List RawProcessEvent) (c : ProcessImageCache)
    → remembered_guid e ≡ some g
    → Others g es
    → length es ≤ c.generation_capacity
    → find_locked g (remember_all es (remember e c)) ≡ some (identity_of e g)
unfolding remember
remembered_found g e es c h o l = rw h (
    remember_all-found g (identity_of e g) es (keep g (identity_of e g) c) o
      (keep-Alive g (identity_of e g) (length es) c l))
