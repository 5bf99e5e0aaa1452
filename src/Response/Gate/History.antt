-- ===== src/Response/Gate/History.antt =====
-- No command is accepted twice, over any history of calls and restarts.
use panopticon_agent.Prelude.{
  ℕ, ◌≡◌, inr, refl, sym, ap, subst, ◌∙◌, true, none, some, List, [], ◌∷◌, ◌++◌, if◌then◌else◌,
  arith, Text, ℤ,
}
use panopticon_agent.Response.ReplayLedger.{ReplayLedger, LedgerEnv, mark_if_new, load}
use panopticon_agent.Response.ReplayLedger.Restart.{
  Fresh, Synced, accepted, mark_if_new_cases, mark_if_new-Synced, restarted, load-Synced,
}
use panopticon_agent.Response.Command.{Command, CommandReceipt, is_succeeded}
use panopticon_agent.Response.Gate.Admissible.{validate_and_mark_cases}
use panopticon_agent.Response.Gate.{CommandGate, after_mark, mark_durably, validate_and_mark}

-- The ids accepted so far, after a call.
abbrev pub noted : CommandReceipt → List Text → List Text
noted r ids = if is_succeeded r.code then ids ++ r.command_id ∷ [] else ids

-- A gate with a ledger, and the ids it has accepted: calls at any time in any order, writes that
-- are not cut short, and restarts.
pub data Reaches (agent_id host_id : Text) (maximum : ℕ) : CommandGate → List Text → Type 0 where
  started :
      Reaches agent_id host_id maximum
        (record {
          agent_id = agent_id;
          host_id = host_id;
          durable_ledger = some (record { maximum_entries = maximum; entries = []; file = none });
          seen = [];
        })
        []
  called :
      (now : ℤ) (env : LedgerEnv) (c : Command) (g : CommandGate) (ids : List Text)
      → env.flush_ok ≡ true
      → Reaches agent_id host_id maximum g ids
      → Reaches agent_id host_id maximum
          (validate_and_mark now env c g).0
          (noted (validate_and_mark now env c g).1 ids)
  reopened :
      (env : LedgerEnv) (g : CommandGate) (l : ReplayLedger) (ids : List Text)
      → env.readable ≡ true
      → g.durable_ledger ≡ some l
      → Reaches agent_id host_id maximum g ids
      → Reaches agent_id host_id maximum
          (record g { durable_ledger = some (load env (restarted l)).0; seen = [] })
          ids

record Tracked (r : CommandGate × List Text) : Type 0 where
  pub ledger : ReplayLedger
  pub held : r.0.durable_ledger ≡ some ledger
  pub synced : Synced ledger
  pub same : ledger.entries ≡ r.1

abbrev outcome : List Text → CommandGate × CommandReceipt → CommandGate × List Text
outcome ids (g, r) = (g, noted r ids)

mark_durably-some :
    (env : LedgerEnv) (c : Command) (g : CommandGate) (l : ReplayLedger)
    → g.durable_ledger ≡ some l
    → mark_durably env c g ≡ after_mark c g (mark_if_new env c.command_id l)
unfolding mark_durably
mark_durably-some env c g l e = ground arith

after_mark-Tracked :
    (env : LedgerEnv) (c : Command) (g : CommandGate) (l : ReplayLedger)
    → env.flush_ok ≡ true
    → Synced l
    → Tracked (outcome l.entries (after_mark c g (mark_if_new env c.command_id l)))
unfolding after_mark is_succeeded
after_mark-Tracked env c g l w s =
    mark_if_new_cases (λ r. Synced r.0 → Tracked (outcome l.entries (after_mark c g r))) env
      c.command_id l w (λ e k. record { ledger = l; held = refl; synced = k; same = refl })
      (λ _ k. record { ledger = l; held = refl; synced = k; same = refl })
      (λ v n f k. record { ledger = accepted c.command_id l; held = refl; synced = k; same = refl })
      (mark_if_new-Synced env c.command_id l w s)

validate_and_mark-Tracked :
    (now : ℤ) (env : LedgerEnv) (c : Command) (g : CommandGate) (ids : List Text)
    → env.flush_ok ≡ true
    → Tracked (g, ids)
    → Tracked (outcome ids (validate_and_mark now env c g))
validate_and_mark-Tracked now env c g ids w t =
    validate_and_mark_cases (λ r. Tracked (outcome ids r)) now env c g
      (λ code summary n _. record {
        ledger = t.ledger;
        held = t.held;
        synced = t.synced;
        same = t.same ∙ sym (rw n refl);
      })
      λ _.
        subst (λ r. Tracked (outcome ids r)) (sym (mark_durably-some env c g t.ledger t.held))
          (subst (λ l. Tracked (outcome l (after_mark c g (mark_if_new env c.command_id t.ledger))))
            t.same (after_mark-Tracked env c g t.ledger w t.synced))

Reaches-Tracked :
    (agent_id host_id : Text) (maximum : ℕ) (g : CommandGate) (ids : List Text)
    → Reaches agent_id host_id maximum g ids
    → Tracked (g, ids)
Reaches-Tracked agent_id host_id maximum g ids started = record {
  ledger = record { maximum_entries = maximum; entries = []; file = none };
  held = refl;
  synced = record { fresh = tt; bounded = omega arith; stored = inr (refl, refl) };
  same = refl;
}
Reaches-Tracked agent_id host_id maximum g ids (called now env c h old w r) =
    validate_and_mark-Tracked now env c h old w (Reaches-Tracked agent_id host_id maximum h old r)
Reaches-Tracked agent_id host_id maximum g ids (reopened env h l old q e r) =
    let t = Reaches-Tracked agent_id host_id maximum h old r in
    let same : l ≡ t.ledger = ground (arith, e, t.held) in
    record {
      ledger = t.ledger;
      held =
          ap (λ k. some k)
            (ap (λ k. (load env (restarted k)).0) same
              ∙ ap (λ p. p.0) (load-Synced env t.ledger q t.synced));
      synced = t.synced;
      same = t.same;
    }

-- Over any history of calls and restarts of a gate with a ledger, in which no write of the ledger
-- is cut short and its file can be read at each restart, the accepted command ids are valid and
-- each differs from those accepted before it.
pub accepted-Fresh :
    (agent_id host_id : Text) (maximum : ℕ) (g : CommandGate) (ids : List Text)
    → Reaches agent_id host_id maximum g ids
    → Fresh [] ids
accepted-Fresh agent_id host_id maximum g ids r =
    let t = Reaches-Tracked agent_id host_id maximum g ids r in
    subst (λ l. Fresh [] l) t.same t.synced.fresh
