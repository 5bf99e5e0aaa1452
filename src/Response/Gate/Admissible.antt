-- ===== src/Response/Gate/Admissible.antt =====
-- What `validate_and_mark` of src/response/command.cpp asks of a command, and the gate without a
-- ledger.
use panopticon_agent.Prelude.{
  ℕ, ◌≡◌, ◌⊎◌, inl, inr, refl, ap, subst, Bool, true, false, not, ◌&&◌, ◌||◌, ◌==◌, none, [], ◌∷◌,
  ◌++◌, if-both, arith, Text, codes, text_eq, text_eq→eq, text_eq_refl, contains, ℤ, leb_ℤ,
}
use panopticon_agent.Response.Identity.{is_valid_identifier}
use panopticon_agent.Response.ReplayLedger.{LedgerEnv}
use panopticon_agent.Response.Command.{
  ActionType, kill_process, collect_process_info, collect_network_connections, collect_file,
  quarantine_file, acquire_file, isolate_host, release_host_isolation, Command, ReceiptCode,
  CommandReceipt, is_succeeded, is_kill_process, invalid_command, expired, replay_detected,
  target_protected,
}
use panopticon_agent.Response.Gate.{
  CommandGate, is_protected_process, base_name, receipt, is_implemented, out_of_scope, accept,
  mark_durably, validate_and_mark,
}

-- The command is for this agent on this host, in a known schema, with ids that are identifiers.
pub record Addressed (c : Command) (g : CommandGate) : Type 0 where
  pub command_id : is_valid_identifier c.command_id ≡ true
  pub correlation_id : is_valid_identifier c.correlation_id ≡ true
  pub schema : (c.schema_version ≡ codes "1") ⊎ (c.schema_version ≡ codes "2")
  pub agent : c.agent_id ≡ g.agent_id
  pub host : c.host_id ≡ g.host_id
  pub target_host : c.process_target.host_id ≡ g.host_id

-- Addressed to the gate, not expired, not accepted before, and not the kill of a system process.
pub record Admissible (now : ℤ) (c : Command) (g : CommandGate) : Type 0 where
  pub addressed : Addressed c g
  pub alive : leb_ℤ c.expires_at_epoch_seconds now ≡ false
  pub unseen : contains g.seen c.command_id ≡ false
  pub unprotected :
      (¬ (c.action ≡ kill_process))
      ⊎ ((¬ (c.process_target.pid ≡ 0)) × (¬ (c.process_target.pid ≡ 4)))

eq→text_eq : {s t : Text} → s ≡ t → text_eq s t ≡ true
eq→text_eq {s} e = subst (λ t. text_eq s t ≡ true) e (text_eq_refl s)

in_scope-Addressed : (c : Command) (g : CommandGate) → out_of_scope c g ≡ false → Addressed c g
in_scope-Addressed c g h = record {
  command_id = ground (arith, h);
  correlation_id = ground (arith, h);
  schema = by_schema _ refl;
  agent = text_eq→eq _ _ (ground (arith, h));
  host = text_eq→eq _ _ (ground (arith, h));
  target_host = text_eq→eq _ _ (ground (arith, h));
}
  where
    by_schema :
        (one : Bool)
        → text_eq c.schema_version (codes "1") ≡ one
        → (c.schema_version ≡ codes "1") ⊎ (c.schema_version ≡ codes "2")
    by_schema true e = inl (text_eq→eq _ _ e)
    by_schema false e = inr (text_eq→eq _ _ (ground (arith, h, e)))

Addressed-in_scope : (c : Command) (g : CommandGate) → Addressed c g → out_of_scope c g ≡ false
Addressed-in_scope c g a = ground (
  arith,
  a.command_id,
  a.correlation_id,
  known,
  eq→text_eq a.agent,
  eq→text_eq a.host,
  eq→text_eq a.target_host,
)
  where
    known : (text_eq c.schema_version (codes "1") || text_eq c.schema_version (codes "2")) ≡ true
    known = elim a.schema [
      | inl e ↦ ground (arith, eq→text_eq e)
      | inr e ↦ ground (arith, eq→text_eq e)
    ]

every_action_implemented : (a : ActionType) → is_implemented a ≡ true
unfolding is_implemented
every_action_implemented kill_process = refl
every_action_implemented collect_process_info = refl
every_action_implemented collect_network_connections = refl
every_action_implemented collect_file = refl
every_action_implemented quarantine_file = refl
every_action_implemented acquire_file = refl
every_action_implemented isolate_host = refl
every_action_implemented release_host_isolation = refl

kills : (a : ActionType) → is_kill_process a ≡ true → a ≡ kill_process
unfolding is_kill_process
kills kill_process e = refl
kills collect_process_info e = absurd (ground (arith, e))
kills collect_network_connections e = absurd (ground (arith, e))
kills collect_file e = absurd (ground (arith, e))
kills quarantine_file e = absurd (ground (arith, e))
kills acquire_file e = absurd (ground (arith, e))
kills isolate_host e = absurd (ground (arith, e))
kills release_host_isolation e = absurd (ground (arith, e))

does_not_kill : (a : ActionType) → is_kill_process a ≡ false → ¬ (a ≡ kill_process)
unfolding is_kill_process
does_not_kill a f e = absurd (ground (arith, f, ap is_kill_process e))

unnamed_process : (pid : ℕ) → is_protected_process pid [] ≡ (pid == 0 || pid == 4)
unfolding is_protected_process base_name contains text_eq
unnamed_process pid = ground arith

unprotected-kill :
    (a : ActionType) (pid : ℕ)
    → (is_kill_process a && is_protected_process pid []) ≡ false
    → (¬ (a ≡ kill_process)) ⊎ ((¬ (pid ≡ 0)) × (¬ (pid ≡ 4)))
unprotected-kill a pid h = by_action _ refl
  where
    by_action :
        (kill : Bool)
        → is_kill_process a ≡ kill
        → (¬ (a ≡ kill_process)) ⊎ ((¬ (pid ≡ 0)) × (¬ (pid ≡ 4)))
    by_action false e = inl (does_not_kill a e)
    by_action true e = inr (
      (λ z. absurd (ground (arith, e, h, unnamed_process pid, z))),
      λ z. absurd (ground (arith, e, h, unnamed_process pid, z)),
    )

protected-kill :
    (a : ActionType) (pid : ℕ)
    → (is_kill_process a && is_protected_process pid []) ≡ true
    → ¬ ((¬ (a ≡ kill_process)) ⊎ ((¬ (pid ≡ 0)) × (¬ (pid ≡ 4))))
protected-kill a pid h (inl n) = n (kills a (ground (arith, h)))
protected-kill a pid h (inr (n, m)) = by_pid _ refl
  where
    by_pid : (zero_pid : Bool) → (pid == 0) ≡ zero_pid → ⊥
    by_pid true e = n (ground (arith, e))
    by_pid false e = m (ground (arith, h, e, unnamed_process pid))

-- A call of the gate, by whether the command is admissible.
pub validate_and_mark_cases {ℓ} :
    (P : CommandGate × CommandReceipt → Type ℓ) (now : ℤ) (env : LedgerEnv) (c : Command)
    (g : CommandGate)
    → ((code : ReceiptCode) (summary : Text)
        → is_succeeded code ≡ false
        → ¬ Admissible now c g
        → P (g, receipt c code summary))
    → (Admissible now c g → P (mark_durably env c g))
    → P (validate_and_mark now env c g)
unfolding validate_and_mark is_succeeded
validate_and_mark_cases P now env c g refused admitted =
    if-both P (out_of_scope c g) _ _
      (λ s.
        refused invalid_command _ refl
          λ a. absurd (ground (arith, s, Addressed-in_scope c g a.addressed)))
      λ s.
        if-both P (leb_ℤ c.expires_at_epoch_seconds now) _ _
          (λ e. refused expired _ refl λ a. absurd (ground (arith, e, a.alive)))
          λ alive.
            if-both P (contains g.seen c.command_id) _ _
              (λ e. refused replay_detected _ refl λ a. absurd (ground (arith, e, a.unseen)))
              λ u.
                if-both P (not (is_implemented c.action)) _ _
                  (λ e. absurd (ground (arith, e, every_action_implemented c.action)))
                  λ _.
                    if-both P
                      (is_kill_process c.action && is_protected_process c.process_target.pid []) _ _
                      (λ e.
                        refused target_protected _ refl
                          λ a. protected-kill c.action c.process_target.pid e a.unprotected)
                      λ p. admitted (record {
                        addressed = in_scope-Addressed c g s;
                        alive = alive;
                        unseen = u;
                        unprotected = unprotected-kill c.action c.process_target.pid p;
                      })

mark_durably-none :
    (env : LedgerEnv) (c : Command) (g : CommandGate)
    → g.durable_ledger ≡ none
    → mark_durably env c g ≡ accept c g
unfolding mark_durably
mark_durably-none env c g e = ground arith

-- Without a ledger, the gate either accepts, and then the command is admissible and the state has
-- its id added; or it refuses, and then the command is not admissible and the state is as before.
-- Admissible means: both ids are identifiers, the schema is 1 or 2, the agent, the host and the
-- target's host are those of the gate, the command expires later than now, its id was not accepted
-- before, and it is not the kill of process 0 or 4.
pub validate_and_mark-Admissible :
    (now : ℤ) (env : LedgerEnv) (c : Command) (g : CommandGate)
    → g.durable_ledger ≡ none
    → ((is_succeeded (validate_and_mark now env c g).1.code ≡ true)
        × Admissible now c g
        × ((validate_and_mark now env c g).0 ≡ record g { seen = g.seen ++ c.command_id ∷ [] }))
      ⊎ ((is_succeeded (validate_and_mark now env c g).1.code ≡ false)
          × (¬ Admissible now c g)
          × ((validate_and_mark now env c g).0 ≡ g))
unfolding is_succeeded
validate_and_mark-Admissible now env c g e =
    validate_and_mark_cases
      (λ r.
        ((is_succeeded r.1.code ≡ true)
          × Admissible now c g
          × (r.0 ≡ record g { seen = g.seen ++ c.command_id ∷ [] }))
        ⊎ ((is_succeeded r.1.code ≡ false) × (¬ Admissible now c g) × (r.0 ≡ g)))
      now env c g (λ code summary n a. inr (n, a, refl))
      λ a.
        inl (
          rw (mark_durably-none env c g e) refl,
          a,
          rw (mark_durably-none env c g e, a.unseen) refl,
        )
