-- ===== src/Delivery/Journal/Generation.antt =====
-- The identifiers of the journal: the names of callers, and the generations of the collector.
use panopticon_agent.Prelude.{
  ℕ, ◌+◌, ◌-◌, ◌≤◌, ◌<◌, ◌≡◌, inl, inr, refl, ap, subst, ◌∙◌, true, false, Bool-cases, Option, none,
  some, Option-cases, List, [], ◌∷◌, ◌++◌, ◌==◌, ==_false→ne, if-both, arith, Text, text_eq,
  text_eq→eq, text_eq_refl, first, first-snoc_other, size_mod, to_string, from_chars,
  from_chars-to_string, from_chars-bound, ok, or_fail, Gives, gives, refuses, bind-Gives,
  or_fail-Gives,
}
use panopticon_agent.Delivery.Journal.Db.{Db, Identifier, retained_bytes}
use panopticon_agent.Delivery.Journal.Transact.{
  Platform, CallEnv, JournalConfig, JournalError, admit_growth,
}
use panopticon_agent.Delivery.Journal.Identifiers.{
  is_name, is_identifier_name, identify, identify_at, generation_of, generation_name,
  previous_generation, put_identifier, generate,
}
use panopticon_agent.Delivery.Journal.Evolves.{Later, Evolves, Evolves-refl}
use panopticon_agent.Delivery.Journal.Inbox.{Grows-refl}

abbrev with_identifiers : List Identifier → Db → Db
with_identifiers ids db = record db { identifiers = ids }

identifiers-Evolves :
    (limit : ℕ) (ids : List Identifier) (db : Db)
    → Later db.identifiers ids
    → Evolves limit db (with_identifiers ids db)
unfolding retained_bytes
identifiers-Evolves limit ids db l = record {
  sound = λ s. record {
    accounted = record {
      retained = s.accounted.retained;
      pending_count = s.accounted.pending_count;
      dead_count = s.accounted.dead_count;
      history_bytes = s.accounted.history_bytes;
      history_count = s.accounted.history_count;
      graph_count = s.accounted.graph_count;
      graph_unresolved = s.accounted.graph_unresolved;
    };
    quota = s.quota;
    unique = s.unique;
    distinct = s.distinct;
  };
  commands = λ _. Grows-refl db.commands;
  generation = l;
}

-- A name that a caller may use is not the one of the generation.
other_name : (name : Text) → is_identifier_name name ≡ true → text_eq name generation_name ≡ false
unfolding is_identifier_name text_eq
other_name name h = elim (Bool-cases (text_eq name generation_name)) [
  | inl t ↦
      absurd (own (subst (λ n. is_identifier_name n ≡ true) (text_eq→eq name generation_name t) h))
  | inr f ↦ f
]
  where
    own : is_identifier_name generation_name ≡ true → ⊥
    own h = ground arith

previous-snoc :
    (ids : List Identifier) (i : Identifier)
    → text_eq i.name generation_name ≡ false
    → previous_generation (ids ++ i ∷ []) ≡ previous_generation ids
unfolding previous_generation
previous-snoc ids i h = rw (first-snoc_other (is_name generation_name) ids i h) refl

pub identify-Evolves :
    (p : Platform) (c : JournalConfig) (env : CallEnv) (name : Text) (db : Db)
    → is_identifier_name name ≡ true
    → Gives (λ r. Evolves c.retained_payload_limit db r.0) (identify p c env name db)
unfolding identify identify_at
identify-Evolves p c env name db h = by_row (first (is_name name) db.identifiers)
  where
    by_row :
        (found : Option Identifier)
        → Gives {E = JournalError}
            (λ (r : Db × Text). Evolves c.retained_payload_limit db r.0)
            (identify_at p c env name found db)
    by_row (some i) = gives (Evolves-refl _ db)
    by_row none =
        let E = λ (r : Db × Text). Evolves c.retained_payload_limit db r.0 in
        or_fail-Gives E env.random _ _ λ random _. or_fail-Gives E (p.digest random) _ _ λ value _.
          bind-Gives E (admit_growth _ _ _) _ λ _ _. gives (
            identifiers-Evolves c.retained_payload_limit _ db (record {
              later = λ n e. (
                n,
                previous-snoc db.identifiers (record { name = name; value = value })
                      (other_name name h)
                    ∙ e,
                omega arith,
              );
            }))

first-put_identifier :
    (i : Identifier) (ids : List Identifier)
    → first (is_name i.name) (put_identifier i ids) ≡ some i
unfolding put_identifier
first-put_identifier i [] = rw (text_eq_refl i.name) refl
first-put_identifier i (x ∷ xs) = ground (arith, first-put_identifier i xs, text_eq_refl i.name)

generation_of-bound :
    (found : Option Identifier) (n : ℕ) → generation_of found ≡ ok n → n < size_mod
unfolding generation_of or_fail
generation_of-bound none n e = ground arith
generation_of-bound (some i) n e = elim (Option-cases (from_chars i.value)) [
  | inl h ↦ absurd (ground arith)
  | inr h ↦ omega (arith, from_chars-bound i.value h.0 h.1, same h.0 h.1)
]
  where
    same : (m : ℕ) → from_chars i.value ≡ some m → m ≡ n
    same m h = ground arith

-- The generation that the table has afterwards is the one that the call gives, one more than the
-- one before.
pub record Generated (limit : ℕ) (db : Db) (r : Db × ℕ) : Type 0 where
  pub evolves : Evolves limit db r.0
  pub before : previous_generation db.identifiers ≡ ok (r.1 - 1)
  pub positive : 0 < r.1
  pub after : previous_generation r.0.identifiers ≡ ok r.1

pub generate-Generated :
    (c : JournalConfig) (env : CallEnv) (db : Db)
    → Gives (Generated c.retained_payload_limit db) (generate c env db)
unfolding generate previous_generation generation_of or_fail
generate-Generated c env db =
    let G = Generated c.retained_payload_limit db in
    bind-Gives G (previous_generation db.identifiers) _ λ previous e.
      if-both (Gives G) (previous == size_mod - 1) _ _ (λ _. refuses)
        λ last. bind-Gives G (admit_growth _ _ _) _ λ _ _. gives (record {
          evolves =
              identifiers-Evolves c.retained_payload_limit _ db (record {
                later = λ n k. (previous + 1, put previous e last, same previous n e k);
              });
          before = e ∙ ap (λ n. ok n) (omega arith);
          positive = omega arith;
          after = put previous e last;
        })
  where
    put :
        (previous : ℕ)
        → previous_generation db.identifiers ≡ ok previous
        → (previous == size_mod - 1) ≡ false
        → previous_generation (
            put_identifier
              (record { name = generation_name; value = to_string (previous + 1) })
              db.identifiers)
          ≡ ok (previous + 1)
    put previous e last =
        rw
          (
            first-put_identifier
                (record { name = generation_name; value = to_string (previous + 1) })
                db.identifiers,
            from_chars-to_string (previous + 1) (
                omega (
                  arith,
                  generation_of-bound (first (is_name generation_name) db.identifiers) previous e,
                  ==_false→ne previous (size_mod - 1) last,
                )),
          )
          refl

    same :
        (previous n : ℕ)
        → previous_generation db.identifiers ≡ ok previous
        → previous_generation db.identifiers ≡ ok n
        → n ≤ previous + 1
    same previous n e k = ground arith
