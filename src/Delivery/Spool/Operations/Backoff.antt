-- ===== src/Delivery/Spool/Operations/Backoff.antt =====
-- The retry schedule of `report_outcome`.
use native.Mathlib.Nat.{pow-suc}
use panopticon_agent.Prelude.{
  ℕ, zero, suc, ◌+◌, ◌-◌, ◌*◌, ◌%◌, ◌^◌, ◌≤◌, ◌<◌, ◌≡◌, refl, ap, ◌∙◌, true, false, arith, min, ltb,
  if◌then◌else◌, Bool-cases, inl, inr, ltb→lt,
}
use panopticon_agent.Delivery.Spool.Format.{u32_mod, u64_mod}
use panopticon_agent.Delivery.Spool.Disk.{Env}
use panopticon_agent.Delivery.Spool.State.{SegmentSpool}
use panopticon_agent.Delivery.Spool.Operations.{
  backoff_loop, backoff_delay, retry_later, count_attempt, report_failure, report_outcome,
}

pow2_pos : (n : ℕ) → 1 ≤ 2 ^ n
pow2_pos zero = omega arith
pow2_pos (suc n) = omega (arith, pow-suc 2 n, pow2_pos n)

doubled : (d n : ℕ) → d * 2 < u64_mod → d * 2 % u64_mod * 2 ^ n ≡ d * 2 ^ suc n
doubled d n h = let e : d * 2 % u64_mod ≡ d * 2 = omega arith in rw (e, pow-suc) (grind arith)

min_absorbs : (limit d k : ℕ) → 1 ≤ k → limit ≤ d → min limit d ≡ min limit (d * k)
min_absorbs limit d k h e = grind arith

-- The loop doubles up to the first value that reaches the limit.
min-backoff_loop :
    (n limit d : ℕ) → limit < u32_mod → min limit (backoff_loop n limit d) ≡ min limit (d * 2 ^ n)
unfolding backoff_loop
min-backoff_loop zero limit d h = omega arith
min-backoff_loop (suc n) limit d h = elim (Bool-cases (ltb d limit)) [
  | inl e ↦
      rw e (min-backoff_loop n limit (d * 2 % u64_mod) h ∙ ap (min limit) (doubled d n (small e)))
  | inr e ↦ rw e (min_absorbs limit d (2 ^ suc n) (pow2_pos (suc n)) (ground arith))
]
  where
    small : ltb d limit ≡ true → d * 2 < u64_mod
    small e = omega (arith, ltb→lt d limit e)

min_right : (a b : ℕ) → b ≤ a → b ≡ min a b
min_right a b h = omega arith

if_min : (limit d : ℕ) → (if ltb limit d then limit else d) ≡ min limit d
if_min limit d = elim (Bool-cases (ltb limit d)) [
  | inl e ↦ rw e (omega (arith, ltb→lt limit d e))
  | inr e ↦ rw e (min_right limit d (ground arith))
]

-- After the n-th failed attempt the spool waits base * 2^(n-1) milliseconds, and never longer than
-- the limit.
pub backoff_delay-eq :
    (s : SegmentSpool) (n : ℕ)
    → s.config.max_backoff_ms < u32_mod
    → backoff_delay s (n + 1) ≡ min s.config.max_backoff_ms (s.config.base_backoff_ms * 2 ^ n)
unfolding backoff_delay
backoff_delay-eq s n h =
    let e : n + 1 - 1 ≡ n = omega arith in
    rw e (if_min _ _ ∙ min-backoff_loop n s.config.max_backoff_ms s.config.base_backoff_ms h)

report_outcome_retries :
    (env : Env) (s : SegmentSpool)
    → s.head.have_pending_read ≡ true
    → s.head.attempts + 1 < s.config.max_delivery_attempts
    → s.config.max_delivery_attempts < u32_mod
    → report_outcome env false s ≡ retry_later env (count_attempt s)
unfolding report_outcome report_failure count_attempt
report_outcome_retries env s b h m = ground arith

-- A failed delivery with attempts left, with attempts and the backoff limit of 32 bits, is due
-- again after base * 2 ^ n milliseconds for n earlier failures, or after the limit if that is less,
-- counted modulo 2 ^ 64; it counts one attempt, goes back to the position before the record and
-- leaves the disk alone.
pub report_outcome_failed :
    (env : Env) (s : SegmentSpool)
    → s.head.have_pending_read ≡ true
    → s.head.attempts + 1 < s.config.max_delivery_attempts
    → s.config.max_delivery_attempts < u32_mod
    → s.config.max_backoff_ms < u32_mod
    → let s' = report_outcome env false s in
      (s'.head.next_attempt_at_ms
        ≡ (env.now_ms
            + min s.config.max_backoff_ms (s.config.base_backoff_ms * 2 ^ s.head.attempts))
          % u64_mod)
      × (s'.head.attempts ≡ s.head.attempts + 1)
      × (s'.head.read_segment_index ≡ s.head.pre_peek_segment_index)
      × (s'.head.read_offset ≡ s.head.pre_peek_offset)
      × (s'.disk ≡ s.disk)
unfolding retry_later count_attempt
report_outcome_failed env s b h m l = rw (report_outcome_retries env s b h m) (
    let e : (s.head.attempts + 1) % u32_mod ≡ s.head.attempts + 1 = omega arith in
    (
      ap (λ d. (env.now_ms + d) % u64_mod)
          (rw e (backoff_delay-eq (count_attempt s) s.head.attempts l)),
      e,
      refl,
      refl,
      refl,
    ))
