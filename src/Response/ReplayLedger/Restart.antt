-- ===== src/Response/ReplayLedger/Restart.antt =====
-- A ledger that is written and loaded again.
use panopticon_agent.Prelude.{
  ℕ, ◌+◌, ◌≤◌, ◌≡◌, ◌⊎◌, inl, inr, refl, sym, ap, subst, ◌∙◌, Bool, true, false, not, ◌||◌, none,
  some, List, [], ◌∷◌, ◌++◌, ◌==◌, ne→==_false, ==_false→ne, if◌then◌else◌, if-both, length,
  length-append, arith, Result, ok, err, Text, contains, lines, lines_cons, text_in, text_out,
  text_in-text_out, text_out-append, NoCtrlZ, append_assoc, append-nil,
}
use panopticon_agent.Response.Identity.{
  is_valid_identifier, is_valid_identifier-NoNewline, is_valid_identifier-NoCtrlZ, NoCtrlZ-line,
}
use panopticon_agent.Response.ReplayLedger.{
  ReplayLedger, LedgerEnv, LedgerError, malformed, load_lines, load, append_text, mark_if_new,
}

-- The file for these entries, oldest first.
abbrev pub ledger_text : List Text → Text
ledger_text [] = []
ledger_text (id ∷ ids) = id ++ (10 ∷ ledger_text ids)

-- Valid identifiers, each new beside those before it.
abbrev pub Fresh : List Text → List Text → Type 0
Fresh seen [] = Unit {0}
Fresh seen (id ∷ ids) =
    (is_valid_identifier id ≡ true) × (contains seen id ≡ false) × Fresh (seen ++ id ∷ []) ids

-- What holds of a ledger between calls.
pub record Synced (l : ReplayLedger) : Type 0 where
  pub fresh : Fresh [] l.entries
  pub bounded : length l.entries ≤ l.maximum_entries
  pub stored :
      (l.file ≡ some (text_out (ledger_text l.entries))) ⊎ ((l.file ≡ none) × (l.entries ≡ []))

Fresh-snoc :
    (seen ids : List Text) (id : Text)
    → Fresh seen ids
    → is_valid_identifier id ≡ true
    → contains (seen ++ ids) id ≡ false
    → Fresh seen (ids ++ id ∷ [])
Fresh-snoc seen [] id f v n = (v, subst (λ l. contains l id ≡ false) (append-nil seen) n, tt)
Fresh-snoc seen (x ∷ ids) id f v n = (
  f.0,
  f.1,
  Fresh-snoc (seen ++ x ∷ []) ids id f.2 v
      (subst (λ l. contains l id ≡ false) (sym (append_assoc seen (x ∷ []) ids)) n),
)

ledger_text-snoc :
    (ids : List Text) (id : Text)
    → ledger_text (ids ++ id ∷ []) ≡ ledger_text ids ++ (id ++ (10 ∷ []))
ledger_text-snoc [] id = refl
ledger_text-snoc (x ∷ ids) id = rw (ledger_text-snoc ids id) (simp append_assoc)

lines-ledger_text : (seen ids : List Text) → Fresh seen ids → lines (ledger_text ids) ≡ ids
unfolding lines
lines-ledger_text seen [] f = refl
lines-ledger_text seen (id ∷ ids) f =
    lines_cons id (ledger_text ids) (is_valid_identifier-NoNewline id f.0)
    ∙ ap (λ l. id ∷ l) (lines-ledger_text (seen ++ id ∷ []) ids f.2)

NoCtrlZ-ledger_text : (seen ids : List Text) → Fresh seen ids → NoCtrlZ (ledger_text ids)
NoCtrlZ-ledger_text seen [] f = tt
NoCtrlZ-ledger_text seen (id ∷ ids) f =
    NoCtrlZ-line id (ledger_text ids) (is_valid_identifier-NoCtrlZ id f.0)
      (NoCtrlZ-ledger_text (seen ++ id ∷ []) ids f.2)

load_lines-Fresh :
    (maximum : ℕ) (seen ids : List Text)
    → Fresh seen ids
    → length seen + length ids ≤ maximum
    → load_lines maximum ids seen ≡ (seen ++ ids, true)
unfolding load_lines
load_lines-Fresh maximum seen [] f h = ap (λ l. (l, true)) (sym (append-nil seen))
load_lines-Fresh maximum seen (id ∷ ids) f h =
    rw (f.0, f.1, ne→==_false (length seen) maximum (omega (arith, h)))
      (load_lines-Fresh maximum (seen ++ id ∷ []) ids f.2
          (omega (arith, length-append {0} seen (id ∷ [])))
        ∙ ap (λ l. (l, true)) (append_assoc seen (id ∷ []) ids))

abbrev pub accepted : Text → ReplayLedger → ReplayLedger
accepted id l = record l {
  file = append_text l.file (text_out (id ++ (10 ∷ [])));
  entries = l.entries ++ id ∷ [];
}

-- What a call whose write is not cut short does.
pub mark_if_new_cases {ℓ} :
    (P : ReplayLedger × Result LedgerError Bool → Type ℓ) (env : LedgerEnv) (id : Text)
    (l : ReplayLedger)
    → env.flush_ok ≡ true
    → ((e : LedgerError) → P (l, err e))
    → (contains l.entries id ≡ true → P (l, ok false))
    → (is_valid_identifier id ≡ true
        → contains l.entries id ≡ false
        → (length l.entries == l.maximum_entries) ≡ false
        → P (accepted id l, ok true))
    → P (mark_if_new env id l)
unfolding mark_if_new
mark_if_new_cases P env id l w failed old fresh =
    if-both P (not (is_valid_identifier id) || l.maximum_entries == 0) _ _ (λ _. failed _)
      λ v. if-both P (contains l.entries id) _ _ old λ n.
        if-both P (length l.entries == l.maximum_entries) _ _ (λ _. failed _)
          λ c.
            if-both P (not env.directory_ok) _ _ (λ _. failed _)
              λ _.
                if-both P (not env.open_ok) _ _ (λ _. failed _)
                  λ _.
                    if-both P (not env.flush_ok) _ _ (λ f. absurd (flushed f))
                      λ _. fresh (valid_of v) n c
  where
    flushed : not env.flush_ok ≡ true → ⊥
    flushed f = ground arith

    valid_of :
        (not (is_valid_identifier id) || l.maximum_entries == 0) ≡ false
        → is_valid_identifier id ≡ true
    valid_of v = ground arith

-- A call whose write is not cut short keeps a ledger in agreement with its file: valid and distinct
-- entries, within the limit, and one line for each of them in order.
pub mark_if_new-Synced :
    (env : LedgerEnv) (id : Text) (l : ReplayLedger)
    → env.flush_ok ≡ true
    → Synced l
    → Synced (mark_if_new env id l).0
mark_if_new-Synced env id l w s =
    mark_if_new_cases (λ r. Synced r.0) env id l w (λ _. s) (λ _. s)
      λ v n c. record {
        fresh = Fresh-snoc [] l.entries id s.fresh v n;
        bounded =
            omega (arith, length-append {0} l.entries (id ∷ []), ==_false→ne _ _ c, s.bounded);
        stored = inl (written s.stored);
      }
  where
    written :
        (l.file ≡ some (text_out (ledger_text l.entries))) ⊎ ((l.file ≡ none) × (l.entries ≡ []))
        → append_text l.file (text_out (id ++ (10 ∷ [])))
          ≡ some (text_out (ledger_text (l.entries ++ id ∷ [])))
    written (inl e) = rw (
      e,
      ledger_text-snoc l.entries id,
      text_out-append (ledger_text l.entries) (id ++ (10 ∷ [])),
    )
    written (inr e) = rw (e.0, e.1)

abbrev pub restarted : ReplayLedger → ReplayLedger
restarted l = record l { entries = [] }

load_file :
    (env : LedgerEnv) (l : ReplayLedger) (bytes : Text)
    → l.file ≡ some bytes
    → env.readable ≡ true
    → load env l ≡ (
      record l { entries = (load_lines l.maximum_entries (lines (text_in bytes)) l.entries).0 },
      if (load_lines l.maximum_entries (lines (text_in bytes)) l.entries).1
          then ok tt
          else err malformed,
    )
unfolding load
load_file env l bytes e r = ground arith

load_no_file : (env : LedgerEnv) (l : ReplayLedger) → l.file ≡ none → load env l ≡ (l, ok tt)
unfolding load
load_no_file env l e = ground arith

-- Where the file can be read, a restart of a ledger that agrees with its file finds the same
-- entries again, and no error.
pub load-Synced :
    (env : LedgerEnv) (l : ReplayLedger)
    → env.readable ≡ true
    → Synced l
    → load env (restarted l) ≡ (l, ok tt)
load-Synced env l r s = elim s.stored [
  | inl e ↦
      load_file env (restarted l) _ e r
      ∙ ap
          (λ (p : List Text × Bool).
            (record l { entries = p.0 }, if p.1 then ok tt else err malformed))
          (ap (λ ids. load_lines l.maximum_entries ids [])
              (ap lines (
                  text_in-text_out (ledger_text l.entries)
                    (NoCtrlZ-ledger_text [] l.entries s.fresh))
                ∙ lines-ledger_text [] l.entries s.fresh)
            ∙ load_lines-Fresh l.maximum_entries [] l.entries s.fresh (omega (arith, s.bounded)))
  | inr e ↦
      load_no_file env (restarted l) e.0 ∙ ap (λ ids. (record l { entries = ids }, ok tt)) (sym e.1)
]
