-- ===== src/Pipeline/RawHandoff/Worker.antt =====
-- The two halves of the worker's loop keep the invariant.
use native.Mathlib.Nat.{mod-add-mod}
use panopticon_agent.Prelude.{
  size_mod, ℕ, suc, ◌+◌, ◌-◌, ◌%◌, ◌≤◌, ◌≡◌, refl, sym, ap, subst, ◌∙◌, Bool, true, false, Option,
  none, some, List, [], ◌∷◌, ◌++◌, append_assoc, ◌==◌, if◌then◌else◌, if-both, length, get_elem?,
  arith,
}
use panopticon_agent.Pipeline.RawHandoff.{next_count, Item, RawHandoff, next_item, settle, set_at}
use panopticon_agent.Pipeline.RawHandoff.Ring.{
  Ahead, Ahead-behind, Ahead-taken, Contents, Contents-set, length-set_at,
}
use panopticon_agent.Pipeline.RawHandoff.Kept.{charges, items_of, count, Kept, unaffected}

tally :
    (t : Bool) (n c : ℕ)
    → n ≡ c % size_mod
    → (if t then next_count n else n) ≡ (c + (if t then 1 else 0)) % size_mod
tally true n c e = ap next_count e ∙ mod-add-mod c size_mod 1
tally false n c e = omega (arith, e)

tally_not :
    (t : Bool) (n c : ℕ)
    → n ≡ c % size_mod
    → (if t then n else next_count n) ≡ (c + (if t then 0 else 1)) % size_mod
tally_not true n c e = omega (arith, e)
tally_not false n c e = ap next_count e ∙ mod-add-mod c size_mod 1

module _ {Event : Type 0} where
  -- The worker never finds an empty slot: with nothing in hand it has an item to take, or an end.
  pub next_item_cases {ℓ} :
      (P : Option (RawHandoff Event) → Type ℓ) (n b : ℕ) (r : RawHandoff Event)
      (ins : List (Item Event)) (hs : List (Item Event × Bool)) (k : Kept n b r ins hs)
      → (k.pending ≡ [] → r.status.accepting ≡ true → P (some (record r { waiting = true })))
      → (k.pending ≡ [] → r.status.accepting ≡ false → P (some (record r { returned = true })))
      → ((item : Item Event) (rest : List (Item Event))
          → k.pending ≡ item ∷ rest
          → P (
              some (record r {
                queue = set_at r.queue r.head none;
                head = (r.head + 1) % r.status.event_limit;
                queued = r.queued - 1;
                in_hand = some item;
              })))
      → P (next_item r)
  unfolding next_item
  next_item_cases P n b r ins hs k waits ends takes = split k.pending refl
    where
      split : (items : List (Item Event)) → k.pending ≡ items → P (next_item r)
      split [] e =
          let zero_queued : r.queued ≡ 0 = k.queued ∙ ap (λ l. length l) e in
          if-both P (r.queued == 0) _ _
            (λ _. if-both (λ s. P (some s)) r.status.accepting _ _ (waits e) (ends e))
            λ f. absurd (ground (arith, f, zero_queued))
      split (item ∷ rest) e =
          let some_queued : r.queued ≡ suc (length rest) = k.queued ∙ ap (λ l. length l) e in
          let found : get_elem? r.queue r.head ≡ some (some item) =
            (subst (λ l. Contents n r.queue r.head l) e k.contents).0 in
          if-both P (r.queued == 0) _ _ (λ f. absurd (ground (arith, f, some_queued)))
            λ _. rw found (takes item rest e)

  pub next_item-Kept :
      (n b : ℕ) (r s : RawHandoff Event) (ins : List (Item Event)) (hs : List (Item Event × Bool))
      → r.in_hand ≡ none
      → r.waiting ≡ false
      → r.returned ≡ false
      → Kept n b r ins hs
      → next_item r ≡ some s
      → Kept n b s ins hs
  next_item-Kept n b r s ins hs free awake running k =
      next_item_cases (λ o. o ≡ some s → Kept n b s ins hs) n b r ins hs k
        (λ p a e. subst (λ o. Kept n b o ins hs) (some_injective e) (sleeping p a))
        (λ p a e. subst (λ o. Kept n b o ins hs) (some_injective e) (stopped p a))
        (λ item rest p e. subst (λ o. Kept n b o ins hs) (some_injective e) (took item rest p))
    where
      some_injective : {x y : RawHandoff Event} → some x ≡ some y → x ≡ y
      some_injective e = ground (arith, e)

      sleeping :
          k.pending ≡ [] → r.status.accepting ≡ true → Kept n b (record r { waiting = true }) ins hs
      sleeping p a =
          unaffected n b r ins hs r.exception_refused r.status.refused r.status.accepting true
            r.returned k k.ended (λ _. (p, a))

      stopped :
          k.pending ≡ []
          → r.status.accepting ≡ false
          → Kept n b (record r { returned = true }) ins hs
      stopped p a =
          unaffected n b r ins hs r.exception_refused r.status.refused r.status.accepting r.waiting
            true k (λ _. (free, p, a)) k.asleep

      took :
          (item : Item Event) (rest : List (Item Event))
          → k.pending ≡ item ∷ rest
          → Kept n b
              (record r {
                queue = set_at r.queue r.head none;
                head = (r.head + 1) % r.status.event_limit;
                queued = r.queued - 1;
                in_hand = some item;
              })
              ins
              hs
      took item rest p =
          let l : length k.pending ≡ suc (length rest) = ap (λ q. length q) p in
          let full : suc (length rest) ≤ n = omega (arith, l, k.owned, k.owned-le) in
          let next : (r.head + 1) % r.status.event_limit ≡ (r.head + 1) % n =
            ap (λ m. (r.head + 1) % m) k.event_limit in
          let nearer : Ahead n ((r.head + 1) % n) (length rest) r.tail =
            Ahead-taken n r.head (length rest) r.tail (subst (λ m. Ahead n r.head m r.tail) l k.end)
              full in
          let kept : Contents n (set_at r.queue r.head none) ((r.head + 1) % n) rest =
            Contents-set n r.queue ((r.head + 1) % n) rest (n - 1) r.head none
              (Ahead-behind n r.head k.end.head-lt) (omega (arith, full)) (omega (arith, full))
              (subst (λ q. Contents n r.queue r.head q) p k.contents).1 in
          record {
            pending = rest;
            order = k.order ∙ rw (free, p) refl;
            contents = subst (λ h. Contents n (set_at r.queue r.head none) h rest) (sym next) kept;
            size = length-set_at r.queue r.head _ ∙ k.size;
            queued = omega (arith, k.queued, l);
            end = subst (λ h. Ahead n h (length rest) r.tail) (sym next) nearer;
            owned = k.owned ∙ rw (free, p) (omega arith);
            owned-le = k.owned-le;
            charged = k.charged ∙ rw (free, p) (omega arith);
            charged-le = k.charged-le;
            event_limit = k.event_limit;
            byte_limit = k.byte_limit;
            admitted_count = k.admitted_count;
            completed_count = k.completed_count;
            failed_count = k.failed_count;
            ended = λ e. absurd (ground (arith, p, k.ended e));
            asleep = λ e. absurd (ground (arith, awake, e));
          }

  items_of-snoc :
      (hs : List (Item Event × Bool)) (h : Item Event × Bool)
      → items_of (hs ++ h ∷ []) ≡ items_of hs ++ h.0 ∷ []
  items_of-snoc [] h = refl
  items_of-snoc (x ∷ hs) h = ap (λ l. x.0 ∷ l) (items_of-snoc hs h)

  count-snoc :
      (ok : Bool) (hs : List (Item Event × Bool)) (item : Item Event) (completed : Bool)
      → count ok (hs ++ (item, completed) ∷ [])
        ≡ count ok hs + (if completed then (if ok then 1 else 0) else (if ok then 0 else 1))
  count-snoc true [] item completed = ground arith
  count-snoc false [] item completed = ground arith
  count-snoc true (x ∷ hs) item completed = ground (arith, count-snoc true hs item completed)
  count-snoc false (x ∷ hs) item completed = ground (arith, count-snoc false hs item completed)

  pub settle-Kept :
      (n b : ℕ) (completed : Bool) (item : Item Event) (r : RawHandoff Event)
      (ins : List (Item Event)) (hs : List (Item Event × Bool))
      → r.in_hand ≡ some item
      → Kept n b r ins hs
      → Kept n b (settle completed item r) ins (hs ++ (item, completed) ∷ [])
  unfolding settle
  settle-Kept n b completed item r ins hs held k = record {
    pending = k.pending;
    order = k.order ∙ rw (held, items_of-snoc hs (item, completed)) (simp append_assoc);
    contents = k.contents;
    size = k.size;
    queued = k.queued;
    end = k.end;
    owned = ground (arith, owned);
    owned-le = ground (arith, owned, k.owned-le);
    charged = ground (arith, charged);
    charged-le = ground (arith, charged, k.charged-le);
    event_limit = k.event_limit;
    byte_limit = k.byte_limit;
    admitted_count = k.admitted_count;
    completed_count =
        rw (count-snoc true hs item completed)
          (tally completed r.status.completed (count true hs) k.completed_count);
    failed_count =
        rw (count-snoc false hs item completed)
          (tally_not completed r.status.failed (count false hs) k.failed_count);
    ended = λ e. absurd (ground (arith, held, k.ended e));
    asleep = k.asleep;
  }
    where
      owned : r.status.owned_events ≡ 1 + length k.pending
      owned = k.owned ∙ rw held refl

      charged : r.status.charged_bytes ≡ item.charge + 0 + charges k.pending
      charged = k.charged ∙ rw held refl
