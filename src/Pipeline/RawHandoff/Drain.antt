-- ===== src/Pipeline/RawHandoff/Drain.antt =====
-- Histories of the handoff: what waits, what was handled, and what is left when the worker ends.
use panopticon_agent.Prelude.{
  ℕ, ◌+◌, ◌≤◌, ◌<◌, ◌≡◌, ◌↔◌, ◌⊎◌, inl, refl, sym, ap, subst, ◌∙◌, Bool, true, false, not, ◌||◌,
  none, some, List, [], ◌∷◌, ◌++◌, append-nil, ltb, ◌==◌, if◌then◌else◌, if-both, length,
  length-append, arith,
}
use panopticon_agent.Pipeline.RawHandoff.{
  next_count, Item, RawHandoff, make, notify, try_submit, next_item, settle, close, repeat_none,
  empty_status,
}
use panopticon_agent.Pipeline.RawHandoff.Ring.{length-repeat_none}
use panopticon_agent.Pipeline.RawHandoff.Kept.{items_of, Kept, unaffected, try_submit-Kept}
use panopticon_agent.Pipeline.RawHandoff.Worker.{next_item_cases, next_item-Kept, settle-Kept}

module _ {Event : Type 0} where
  -- Sections under the mutex in any order: submissions, the worker's two halves, `close`, and the
  -- wake-ups without a cause that a condition variable may have. A worker that waits does nothing
  -- before it is woken.
  pub data Reaches (n b : ℕ)
      : RawHandoff Event → List (Item Event) → List (Item Event × Bool) → Type 0 where
    started : (r : RawHandoff Event) → make n b true ≡ some r → Reaches n b r [] []
    submitted :
        (event : Event) (charge : ℕ) (r : RawHandoff Event) (ins : List (Item Event))
        (hs : List (Item Event × Bool))
        → Reaches n b r ins hs
        → Reaches n b
            (try_submit event (some charge) r).0
            (if (try_submit event (some charge) r).1
              then ins ++ record { event = event; charge = charge } ∷ []
              else ins)
            hs
    not_charged :
        (event : Event) (r : RawHandoff Event) (ins : List (Item Event))
        (hs : List (Item Event × Bool))
        → Reaches n b r ins hs
        → Reaches n b (try_submit event none r).0 ins hs
    taken :
        (r s : RawHandoff Event) (ins : List (Item Event)) (hs : List (Item Event × Bool))
        → r.in_hand ≡ none
        → r.waiting ≡ false
        → r.returned ≡ false
        → next_item r ≡ some s
        → Reaches n b r ins hs
        → Reaches n b s ins hs
    settled :
        (completed : Bool) (item : Item Event) (r : RawHandoff Event) (ins : List (Item Event))
        (hs : List (Item Event × Bool))
        → r.in_hand ≡ some item
        → Reaches n b r ins hs
        → Reaches n b (settle completed item r) ins (hs ++ (item, completed) ∷ [])
    woken :
        (r : RawHandoff Event) (ins : List (Item Event)) (hs : List (Item Event × Bool))
        → Reaches n b r ins hs
        → Reaches n b (notify r) ins hs
    closed :
        (r : RawHandoff Event) (ins : List (Item Event)) (hs : List (Item Event × Bool))
        → Reaches n b r ins hs
        → Reaches n b (close r) ins hs

  -- Where the first half of the worker's loop leads when there is work: the worker returns with all
  -- admitted items handled, or has the first of those that are not handled in hand.
  pub data Advanced (ins : List (Item Event)) (hs : List (Item Event × Bool)) (s : RawHandoff Event)
      : Type 0 where
    returns : s.returned ≡ true → items_of hs ≡ ins → Advanced ins hs s
    takes :
        (item : Item Event) (rest : List (Item Event))
        → s.in_hand ≡ some item
        → ins ≡ items_of hs ++ item ∷ rest
        → Advanced ins hs s

  make-Kept : (n b : ℕ) (r : RawHandoff Event) → make n b true ≡ some r → Kept n b r [] []
  unfolding make
  make-Kept n b r =
      if-both (λ o. o ≡ some r → Kept n b r [] []) (n == 0 || ltb 65536 n || b == 0 || not true) _ _
        (λ _ e. absurd (ground (arith, e)))
        λ f e. subst (λ q. Kept n b q [] []) (some_injective e) (fresh (ground (arith, f)))
    where
      some_injective : {x y : RawHandoff Event} → some x ≡ some y → x ≡ y
      some_injective e = ground (arith, e)

      fresh :
          0 < n
          → Kept {Event = Event} n b
              (record {
                queue = repeat_none n;
                head = 0;
                tail = 0;
                queued = 0;
                status = empty_status n b;
                exception_refused = 0;
                in_hand = none;
                waiting = false;
                returned = false;
              })
              []
              []
      fresh l = record {
        pending = [];
        order = refl;
        contents = tt;
        size = length-repeat_none (Item Event) n;
        queued = refl;
        end = record { head-lt = l; position-lt = l; steps = inl refl };
        owned = refl;
        owned-le = omega arith;
        charged = refl;
        charged-le = omega arith;
        event_limit = refl;
        byte_limit = refl;
        admitted_count = refl;
        completed_count = refl;
        failed_count = refl;
        ended = λ e. absurd (ground (arith, e));
        asleep = λ e. absurd (ground (arith, e));
      }

  -- After any sequence of submissions, halves of the worker's loop and closings, the ring holds in
  -- order the admitted items that are not yet handled nor in hand, the events and bytes owned are
  -- theirs and within both limits, and the counters are the numbers of admitted, completed and
  -- failed items modulo 2 ^ 64.
  pub Reaches-Kept :
      (n b : ℕ) (r : RawHandoff Event) (ins : List (Item Event)) (hs : List (Item Event × Bool))
      → Reaches n b r ins hs
      → Kept n b r ins hs
  unfolding try_submit close notify
  Reaches-Kept n b r ins hs (started q e) = make-Kept n b r e
  Reaches-Kept n b r ins hs (submitted event charge q before h x) =
      try_submit-Kept n b event charge q before h (Reaches-Kept n b q before h x)
  Reaches-Kept n b r ins hs (not_charged event q before h x) =
      let k = Reaches-Kept n b q before h x in
      unaffected n b q before h (next_count q.exception_refused) q.status.refused q.status.accepting
        q.waiting q.returned k k.ended k.asleep
  Reaches-Kept n b r ins hs (taken q s before h free awake run e x) =
      next_item-Kept n b q s before h free awake run (Reaches-Kept n b q before h x) e
  Reaches-Kept n b r ins hs (settled completed item q before h held x) =
      settle-Kept n b completed item q before h held (Reaches-Kept n b q before h x)
  Reaches-Kept n b r ins hs (closed q before h x) =
      let k = Reaches-Kept n b q before h x in
      unaffected n b q before h q.exception_refused q.status.refused false false q.returned k
        (λ e. ((k.ended e).0, (k.ended e).1, refl)) (λ e. absurd (ground (arith, e)))
  Reaches-Kept n b r ins hs (woken q before h x) =
      let k = Reaches-Kept n b q before h x in
      unaffected n b q before h q.exception_refused q.status.refused q.status.accepting false
        q.returned k k.ended (λ e. absurd (ground (arith, e)))

  -- Once the worker has returned, the items handled are those admitted, each once and in order of
  -- admission, the handoff accepts nothing, and it owns no event and no byte.
  pub drained :
      (n b : ℕ) (r : RawHandoff Event) (ins : List (Item Event)) (hs : List (Item Event × Bool))
      → Reaches n b r ins hs
      → r.returned ≡ true
      → (items_of hs ≡ ins)
        × (r.status.accepting ≡ false)
        × (r.status.owned_events ≡ 0)
        × (r.status.charged_bytes ≡ 0)
  drained n b r ins hs x e =
      let k = Reaches-Kept n b r ins hs x in
      let (free, none_left, shut) = k.ended e in
      (
        sym (k.order ∙ rw (free, none_left) (append-nil (items_of hs))),
        shut,
        k.owned ∙ rw (free, none_left) refl,
        k.charged ∙ rw (free, none_left) refl,
      )

  -- At any point of a history, spurious wake-ups included, at which the worker has nothing in hand
  -- and has not returned: if fewer items were handled than admitted, or the handoff is closed, the
  -- worker is not asleep on the condition variable, and the first half of its loop either takes the
  -- oldest item that is not handled in hand, or returns with every admitted item handled.
  pub worker_advances :
      (n b : ℕ) (r : RawHandoff Event) (ins : List (Item Event)) (hs : List (Item Event × Bool))
      → Reaches n b r ins hs
      → r.in_hand ≡ none
      → r.returned ≡ false
      → (length (items_of hs) < length ins) ⊎ (r.status.accepting ≡ false)
      → (r.waiting ≡ false) × ((s : RawHandoff Event) × (next_item r ≡ some s) × Advanced ins hs s)
  worker_advances n b r ins hs x free run work =
      let k = Reaches-Kept n b r ins hs x in
      let behind : length (items_of hs) + length k.pending ≡ length ins = behind_by k in
      (
        not_asleep k behind r.waiting refl,
        next_item_cases (λ o. (s : RawHandoff Event) × (o ≡ some s) × Advanced ins hs s) n b r ins
            hs k (λ p a. absurd (ground (arith, p, a, behind, work)))
            (λ p a.
              (_, refl, returns refl (sym (k.order ∙ rw (free, p) (append-nil (items_of hs))))))
            (λ item rest p. (_, refl, takes item rest refl (k.order ∙ rw (free, p) refl))),
      )
    where
      behind_by : (k : Kept n b r ins hs) → length (items_of hs) + length k.pending ≡ length ins
      behind_by k =
          sym (
            ap (λ l. length l) (k.order ∙ rw free refl) ∙ length-append {0} (items_of hs) k.pending)

      not_asleep :
          (k : Kept n b r ins hs)
          → length (items_of hs) + length k.pending ≡ length ins
          → (waits : Bool) → r.waiting ≡ waits
          → waits ≡ false
      not_asleep k behind false e = refl
      not_asleep k behind true e = absurd (ground (arith, k.asleep e, behind, work))

  -- At any point of a history, a submission is admitted exactly when the handoff accepts, owns
  -- fewer events than its limit, and the charge fits into the bytes left.
  pub try_submit_admits :
      (n b : ℕ) (r : RawHandoff Event) (ins : List (Item Event)) (hs : List (Item Event × Bool))
      (event : Event) (charge : ℕ)
      → Reaches n b r ins hs
      → ((try_submit event (some charge) r).1 ≡ true) ↔ (
          (r.status.accepting ≡ true)
          × (r.status.owned_events < n)
          × (r.status.charged_bytes + charge ≤ b))
  unfolding try_submit
  try_submit_admits n b r ins hs event charge x =
      let k = Reaches-Kept n b r ins hs x in
      ground (arith, k.event_limit, k.byte_limit, k.charged-le)
