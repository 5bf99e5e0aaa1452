-- ===== src/Pipeline/RawHandoff/Kept.antt =====
-- The invariant of the handoff, and that a submission keeps it.
use native.Mathlib.Nat.{mod-add-mod}
use panopticon_agent.Prelude.{
  size_mod, sub_size, ℕ, ◌+◌, ◌%◌, ◌≤◌, ◌<◌, ◌≡◌, sym, ap, ◌∙◌, Bool, true, false, not, ◌||◌,
  Option, none, some, List, [], ◌∷◌, ◌++◌, append_assoc, ltb, leb, ◌==◌, if◌then◌else◌, if-both,
  length, length-append, arith,
}
use panopticon_agent.Pipeline.RawHandoff.{next_count, Item, RawHandoff, notify, enqueue, try_submit}
use panopticon_agent.Pipeline.RawHandoff.Ring.{
  Ahead, Contents, Contents-set, Contents-snoc, get-set_same, length-set_at, next_mod,
}

module _ {Event : Type 0} where
  abbrev pub hand_of : Option (Item Event) → List (Item Event)
  hand_of none = []
  hand_of (some item) = item ∷ []

  abbrev pub charges : List (Item Event) → ℕ
  charges [] = 0
  charges (item ∷ items) = item.charge + charges items

  abbrev pub items_of : List (Item Event × Bool) → List (Item Event)
  items_of [] = []
  items_of (h ∷ hs) = h.0 ∷ items_of hs

  abbrev pub count : Bool → List (Item Event × Bool) → ℕ
  count true [] = 0
  count true (h ∷ hs) = (if h.1 then 1 else 0) + count true hs
  count false [] = 0
  count false (h ∷ hs) = (if h.1 then 0 else 1) + count false hs

  -- What holds of a handoff that has admitted `admitted` and handled `handled`, both in order.
  pub record Kept (n b : ℕ) (r : RawHandoff Event) (admitted : List (Item Event))
      (handled : List (Item Event × Bool)) : Type 0 where
    pub pending : List (Item Event)
    pub order : admitted ≡ items_of handled ++ (hand_of r.in_hand ++ pending)
    pub contents : Contents n r.queue r.head pending
    pub size : length r.queue ≡ n
    pub queued : r.queued ≡ length pending
    pub end : Ahead n r.head (length pending) r.tail
    pub owned : r.status.owned_events ≡ length (hand_of r.in_hand) + length pending
    pub owned-le : r.status.owned_events ≤ n
    pub charged : r.status.charged_bytes ≡ charges (hand_of r.in_hand) + charges pending
    pub charged-le : r.status.charged_bytes ≤ b
    pub event_limit : r.status.event_limit ≡ n
    pub byte_limit : r.status.byte_limit ≡ b
    pub admitted_count : r.status.admitted ≡ length admitted % size_mod
    pub completed_count : r.status.completed ≡ count true handled % size_mod
    pub failed_count : r.status.failed ≡ count false handled % size_mod
    pub ended :
        r.returned ≡ true → (r.in_hand ≡ none) × (pending ≡ []) × (r.status.accepting ≡ false)
    pub asleep : r.waiting ≡ true → (pending ≡ []) × (r.status.accepting ≡ true)

  charges-append : (xs ys : List (Item Event)) → charges (xs ++ ys) ≡ charges xs + charges ys
  charges-append [] ys = omega arith
  charges-append (x ∷ xs) ys = omega (arith, charges-append xs ys)

  enqueue-Kept :
      (n b : ℕ) (item : Item Event) (r : RawHandoff Event) (ins : List (Item Event))
      (hs : List (Item Event × Bool))
      → r.status.accepting ≡ true
      → r.status.owned_events + 1 ≤ n
      → r.status.charged_bytes + item.charge ≤ b
      → Kept n b r ins hs
      → Kept n b (notify (enqueue item r)) (ins ++ item ∷ []) hs
  unfolding notify
  enqueue-Kept n b item r ins hs a o c k = record {
    pending = k.pending ++ item ∷ [];
    order = rw k.order (simp append_assoc);
    contents =
        Contents-snoc n _ r.head k.pending r.tail item k.end room
          (get-set_same r.queue r.tail (some item) (omega (arith, k.size, k.end.position-lt)))
          (Contents-set n r.queue r.head k.pending (length k.pending) r.tail (some item) k.end room
            (omega arith) k.contents);
    size = length-set_at r.queue r.tail _ ∙ k.size;
    queued = omega (arith, k.queued, length-append {0} k.pending (item ∷ []));
    end = further;
    owned = omega (arith, k.owned, length-append {0} k.pending (item ∷ []));
    owned-le = o;
    charged = omega (arith, k.charged, charges-append k.pending (item ∷ []));
    charged-le = c;
    event_limit = k.event_limit;
    byte_limit = k.byte_limit;
    admitted_count =
        ap next_count k.admitted_count
        ∙ mod-add-mod (length ins) size_mod 1
        ∙ ap (λ m. m % size_mod) (sym (length-append {0} ins (item ∷ [])));
    completed_count = k.completed_count;
    failed_count = k.failed_count;
    ended = λ e. absurd (ground (arith, k.ended e, a));
    asleep = λ e. absurd (ground (arith, e));
  }
    where
      room : length k.pending < n
      room = omega (arith, o, k.owned)

      wrapped : (r.tail + 1) % r.status.event_limit ≡ (if r.tail + 1 == n then 0 else r.tail + 1)
      wrapped = rw k.event_limit (next_mod r.tail n k.end.position-lt)

      further :
          Ahead n r.head (length (k.pending ++ item ∷ [])) ((r.tail + 1) % r.status.event_limit)
      further = record {
        head-lt = k.end.head-lt;
        position-lt = ground (arith, wrapped, k.end.position-lt, k.end.head-lt);
        steps = ground (
          arith,
          wrapped,
          k.end.steps,
          k.end.position-lt,
          length-append {0} k.pending (item ∷ []),
        );
      }

  -- The fields that the ring does not depend on.
  pub unaffected :
      (n b : ℕ) (r : RawHandoff Event) (ins : List (Item Event)) (hs : List (Item Event × Bool))
      (thrown refused : ℕ) (accepting waiting returned : Bool) (k : Kept n b r ins hs)
      → (returned ≡ true → (r.in_hand ≡ none) × (k.pending ≡ []) × (accepting ≡ false))
      → (waiting ≡ true → (k.pending ≡ []) × (accepting ≡ true))
      → Kept n b
          (record r {
            exception_refused = thrown;
            waiting = waiting;
            returned = returned;
            status = record r.status { refused = refused; accepting = accepting };
          })
          ins
          hs
  unaffected n b r ins hs thrown refused accepting waiting returned k ended asleep = record {
    pending = k.pending;
    order = k.order;
    contents = k.contents;
    size = k.size;
    queued = k.queued;
    end = k.end;
    owned = k.owned;
    owned-le = k.owned-le;
    charged = k.charged;
    charged-le = k.charged-le;
    event_limit = k.event_limit;
    byte_limit = k.byte_limit;
    admitted_count = k.admitted_count;
    completed_count = k.completed_count;
    failed_count = k.failed_count;
    ended = ended;
    asleep = asleep;
  }

  pub try_submit-Kept :
      (n b : ℕ) (event : Event) (charge : ℕ) (r : RawHandoff Event) (ins : List (Item Event))
      (hs : List (Item Event × Bool))
      → Kept n b r ins hs
      → Kept n b
          (try_submit event (some charge) r).0
          (if (try_submit event (some charge) r).1
            then ins ++ record { event = event; charge = charge } ∷ []
            else ins)
          hs
  unfolding try_submit
  try_submit-Kept n b event charge r ins hs k =
      let item : Item Event = record { event = event; charge = charge } in
      if-both
        (λ (q : RawHandoff Event × Bool). Kept n b q.0 (if q.1 then ins ++ item ∷ [] else ins) hs)
        (not r.status.accepting
          || leb r.status.event_limit r.status.owned_events
          || ltb (sub_size r.status.byte_limit r.status.charged_bytes) charge)
        _ _
        (λ _.
          unaffected n b r ins hs r.exception_refused (next_count r.status.refused)
            r.status.accepting r.waiting r.returned k k.ended k.asleep)
        λ e.
          enqueue-Kept n b item r ins hs (ground arith) (ground (arith, e, k.event_limit))
            (ground (arith, e, k.byte_limit, k.charged-le)) k
