-- ===== src/Delivery/Uploader/Worker.antt =====
-- The worker thread (run of src/delivery/uploader.cpp).
use panopticon_agent.Prelude.{
  ℕ, zero, suc, ◌+◌, ◌*◌, min, false, ◌||◌, some, ltb, if◌then◌else◌, ok, err,
}
use panopticon_agent.Delivery.Journal.Transact.{Platform, JournalError}
use panopticon_agent.Delivery.Uploader.{degraded, journal_failure, Uploader, DeliveryEnv}
use panopticon_agent.Delivery.Uploader.DeliverOne.{acknowledged, empty, retry, deliver_one}

-- The worker thread: the local variables of `run`.
pub record Worker : Type 0 where
  pub uploader : Uploader
  pub backoff : ℕ
  pub retry_at : ℕ

-- One turn of its loop: the clock when it looks, the clock after a failure, and what each
-- delivery meets, by the number of deliveries left.
pub record TurnEnv : Type 0 where
  pub now : ℕ
  pub failed_at : ℕ
  pub delivery : ℕ → DeliveryEnv

abbrev pub later_attempt : TurnEnv → Worker → Worker
later_attempt env w = record w {
  retry_at = env.failed_at + w.backoff;
  backoff = min w.uploader.config.spool_max_backoff_ms (w.backoff * 2);
}

abbrev pub thrown : TurnEnv → JournalError → Worker → Worker
thrown env e w = record w {
  uploader = record w.uploader {
    health = record w.uploader.health {
      durability_state = degraded;
      last_error = some (journal_failure e);
    };
  };
  retry_at = env.failed_at + w.uploader.config.spool_max_backoff_ms;
}

abbrev pub reset : Worker → Worker
reset w = record w { backoff = w.uploader.config.spool_base_backoff_ms }

-- The deliveries of one turn, `left` at most.
unfoldable pub deliveries : Platform → TurnEnv → ℕ → Worker → Worker
deliveries p env zero w = w
deliveries p env (suc left) w =
    if w.uploader.stop_requested
    then w
    else (let (u, result) = deliver_one p (env.delivery left) w.uploader in
        elim result [
          | err e ↦ thrown env e (record w { uploader = u })
          | ok outcome ↦ elim outcome [
            | empty ↦ record w { uploader = u }
            | retry ↦ later_attempt env (record w { uploader = u })
            | acknowledged ↦ deliveries p env left (reset (record w { uploader = u }))
          ]
        ])

-- One turn of `run`, after its wait.
unfoldable pub turn : Platform → TurnEnv → Worker → Worker
turn p env w =
    let awake = record w { uploader = record w.uploader { wake = false } } in
    if w.uploader.stop_requested || ltb env.now w.retry_at then awake else deliveries p env 64 awake
