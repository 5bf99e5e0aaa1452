-- ===== src/Delivery/Journal/Filled.antt =====
-- What the loop of `peek` takes of the rows it has selected.
use panopticon_agent.Prelude.{
  ℕ, ◌+◌, ◌-◌, ◌≤◌, ◌<◌, ◌≡◌, Bool, true, false, some, List, [], ◌∷◌, map, ltb, if-both, length,
  length-append, take, arith, Text, Gives, gives, refuses, Gives-bind, or_fail-Gives,
}
use panopticon_agent.Delivery.Journal.Db.{Observation}
use panopticon_agent.Delivery.Journal.Transact.{Platform}
use panopticon_agent.Delivery.Journal.Read.{
  JournalEntry, JournalInspectionEntry, ndjson, fill, sealed_row, original_entry,
}

-- The entries are the rows, in order, with their payloads unsealed.
pub data Opens (p : Platform) : List Observation → List JournalEntry → Type 0 where
  nothing : Opens p [] []
  entry :
      {r : Observation} {rs : List Observation} {body : Text} {es : List JournalEntry}
      → p.unseal r.key r.payload ≡ some body
      → Opens p rs es
      → Opens p (r ∷ rs) (record { key = r.key; body = body } ∷ es)

-- What the loop of `peek` takes of the rows: a beginning of them, at least one if there is any,
-- that fits into the bytes that are left.
pub record Filled (p : Platform) (left : ℕ) (is_first : Bool) (rows : List Observation)
    (es : List JournalInspectionEntry) : Type 0 where
  pub opens : Opens p (take (length es) rows) (map original_entry es)
  pub bytes : length (ndjson (map original_entry es)) ≤ left
  pub bounded : length es ≤ length rows
  pub progress : is_first ≡ true → 0 < length rows → 0 < length es

pub fill-Filled :
    (p : Platform) (max_bytes size : ℕ) (is_first : Bool) (rows : List Observation)
    → size ≤ max_bytes
    → Gives
        (Filled p (max_bytes - size) is_first rows)
        (fill p max_bytes size is_first (map sealed_row rows))
unfolding fill ndjson
fill-Filled p max_bytes size is_first [] h =
    gives
      (record { opens = nothing; bytes = omega arith; bounded = omega arith; progress = λ _ n. n })
fill-Filled p max_bytes size is_first (r ∷ rs) h =
    let F = Filled p (max_bytes - size) is_first (r ∷ rs) in
    or_fail-Gives F (p.unseal r.key r.payload) _ _ λ body u.
      if-both (Gives F) (ltb (max_bytes - size) (length body + 1)) _ _
        (λ _.
          if-both (Gives F) is_first _ _ (λ _. refuses)
            λ later. gives (record {
              opens = nothing;
              bytes = omega arith;
              bounded = omega arith;
              progress = λ now _. absurd (ground arith);
            }))
        λ fits.
          Gives-bind (Filled p (max_bytes - (size + (length body + 1))) false rs) F _ _
            (fill-Filled p max_bytes (size + (length body + 1)) false rs (ground arith))
            λ es f. gives (record {
              opens = entry u f.opens;
              bytes =
                  ground
                    (arith, length-append {0} body (10 ∷ ndjson (map original_entry es)), f.bytes);
              bounded = omega (arith, f.bounded);
              progress = λ _ _. omega arith;
            })
