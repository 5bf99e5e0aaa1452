-- ===== src/Response/Command/Sound.antt =====
-- What a command that the parser returns is known to satisfy.
use panopticon_agent.Prelude.{
  ℕ, ◌≤◌, ◌<◌, ◌≡◌, ◌⊎◌, inl, inr, refl, Bool, true, false, none, some, [], length, Result, ok, err,
  require-both, or_fail-both, Text, pos, negsuc, arith,
}
use panopticon_agent.Response.Command.{ProcessTarget}
use panopticon_agent.Response.Command.Json.{
  Json, null, boolean, integer, unsigned, float, string, array, object, Members, bounded_string,
  positive_integer, bounded_positive_u64, is_capture_id,
}
use panopticon_agent.Response.Command.Parser.{
  CommandError, TargetKind, process_kind, file_kind, acquire_kind, no_target, Target, no_process,
  is_boot_digest, canonical_ticks, schema_2_process, schema_1_process, parse_process,
}

-- If there is a result, it is as `P` says.
pub data Yields {A : Type 0} (P : A → Type 0) : Result CommandError A → Type 0 where
  yields : {a : A} → P a → Yields P (ok a)
  fails : {e : CommandError} → Yields P (err e)

pub Yields-map :
    {A : Type 0} (P Q : A → Type 0) (r : Result CommandError A)
    → Yields P r
    → ((a : A) → P a → Q a)
    → Yields Q r
Yields-map P Q (ok a) (yields h) k = yields (k a h)
Yields-map P Q (err e) fails k = fails

-- A process target of the command's host, with a boot digest in schema 2 only.
pub record IsProcessTarget (schema_2 : Bool) (host : Text) (p : ProcessTarget) : Type 0 where
  pub same_host : p.host_id ≡ host
  pub pid_low : 0 < p.pid
  pub pid_high : p.pid < 4294967296
  pub ticks_low : 0 < p.start_time_ticks
  pub ticks_high : p.start_time_ticks < 18446744073709551616
  pub boot :
      ((boot : Text) × (p.boot_id ≡ some boot) × (is_boot_digest boot ≡ true) × (schema_2 ≡ true))
      ⊎ ((p.boot_id ≡ none) × (schema_2 ≡ false))

pub record IsPath (path : Text) : Type 0 where
  pub path_low : 0 < length path
  pub path_high : length path ≤ 4096

-- The target has the shape that the kind of action asks for, and nothing else.
abbrev pub IsTarget : TargetKind → Bool → Text → Target → Type 0
IsTarget process_kind schema_2 host t =
    IsProcessTarget schema_2 host t.process
    × (t.path ≡ [])
    × (t.capture_id ≡ [])
    × (t.maximum_bytes ≡ 0)
IsTarget file_kind schema_2 host t =
    (schema_2 ≡ false)
    × (t.process ≡ no_process host)
    × IsPath t.path
    × (t.capture_id ≡ [])
    × (t.maximum_bytes ≡ 0)
IsTarget acquire_kind schema_2 host t =
    (schema_2 ≡ false)
    × (t.process ≡ no_process host)
    × IsPath t.path
    × (is_capture_id t.capture_id ≡ true)
    × (0 < t.maximum_bytes)
    × (t.maximum_bytes ≤ 4294967296)
IsTarget no_target schema_2 host t =
    (schema_2 ≡ false)
    × (t.process ≡ no_process host)
    × (t.path ≡ [])
    × (t.capture_id ≡ [])
    × (t.maximum_bytes ≡ 0)

positive_integer-bounds :
    (v : Json) (n : ℕ) → positive_integer v ≡ some n → (0 < n) × (n < 9223372036854775808)
unfolding positive_integer
positive_integer-bounds null n h = ground arith
positive_integer-bounds (boolean b) n h = ground arith
positive_integer-bounds (integer (pos k)) n h = ground arith
positive_integer-bounds (integer (negsuc k)) n h = ground arith
positive_integer-bounds (unsigned k) n h = ground arith
positive_integer-bounds (float t) n h = ground arith
positive_integer-bounds (string t) n h = ground arith
positive_integer-bounds (array es) n h = ground arith
positive_integer-bounds (object ms) n h = ground arith

pub bounded_positive_u64-bounds :
    (v : Json) (m n : ℕ) → bounded_positive_u64 v m ≡ some n → (0 < n) × (n ≤ m)
unfolding bounded_positive_u64
bounded_positive_u64-bounds null m n h = ground arith
bounded_positive_u64-bounds (boolean b) m n h = ground arith
bounded_positive_u64-bounds (integer (pos k)) m n h = ground arith
bounded_positive_u64-bounds (integer (negsuc k)) m n h = ground arith
bounded_positive_u64-bounds (unsigned k) m n h = ground arith
bounded_positive_u64-bounds (float t) m n h = ground arith
bounded_positive_u64-bounds (string t) m n h = ground arith
bounded_positive_u64-bounds (array es) m n h = ground arith
bounded_positive_u64-bounds (object ms) m n h = ground arith

pub bounded_string-bounds :
    (v : Json) (m : ℕ) (s : Text) → bounded_string m v ≡ some s → (0 < length s) × (length s ≤ m)
unfolding bounded_string
bounded_string-bounds null m s h = ground arith
bounded_string-bounds (boolean b) m s h = ground arith
bounded_string-bounds (integer z) m s h = ground arith
bounded_string-bounds (unsigned k) m s h = ground arith
bounded_string-bounds (float t) m s h = ground arith
bounded_string-bounds (string t) m s h = ground arith
bounded_string-bounds (array es) m s h = ground arith
bounded_string-bounds (object ms) m s h = ground arith

canonical_ticks-bounds :
    (token : Text) (n : ℕ) → canonical_ticks token ≡ some n → (0 < n) × (n < 18446744073709551616)
unfolding canonical_ticks
canonical_ticks-bounds token n h = ground arith

schema_2_process-IsProcessTarget :
    (host : Text) (pid : ℕ) (ms : Members)
    → 0 < pid
    → pid < 4294967296
    → Yields (IsProcessTarget true host) (schema_2_process host pid ms)
unfolding schema_2_process
schema_2_process-IsProcessTarget host pid ms low high =
    let P : Result CommandError ProcessTarget → Type 0 = Yields (IsProcessTarget true host) in
    or_fail-both P _ _ _ (λ _. fails)
      λ boot b.
        require-both P _ _ _ (λ _. fails)
          λ _.
            or_fail-both P _ _ _ (λ _. fails)
              λ token s.
                require-both P _ _ _ (λ _. fails)
                  λ d.
                    or_fail-both P _ _ _ (λ _. fails)
                      λ ticks t. yields (record {
                        same_host = refl;
                        pid_low = low;
                        pid_high = high;
                        ticks_low = (canonical_ticks-bounds token ticks t).0;
                        ticks_high = (canonical_ticks-bounds token ticks t).1;
                        boot = inl (boot, refl, d, refl);
                      })

schema_1_process-IsProcessTarget :
    (host : Text) (pid : ℕ) (ms : Members)
    → 0 < pid
    → pid < 4294967296
    → Yields (IsProcessTarget false host) (schema_1_process host pid ms)
unfolding schema_1_process
schema_1_process-IsProcessTarget host pid ms low high =
    let P : Result CommandError ProcessTarget → Type 0 = Yields (IsProcessTarget false host) in
    or_fail-both P _ _ _ (λ _. fails)
      λ ticks t. yields (record {
        same_host = refl;
        pid_low = low;
        pid_high = high;
        ticks_low = (positive_integer-bounds _ ticks t).0;
        ticks_high = omega (arith, positive_integer-bounds _ ticks t);
        boot = inr (refl, refl);
      })

pub parse_process-IsProcessTarget :
    (schema_2 : Bool) (host : Text) (ms : Members)
    → Yields (IsProcessTarget schema_2 host) (parse_process schema_2 host ms)
unfolding parse_process
parse_process-IsProcessTarget true host ms =
    let P : Result CommandError ProcessTarget → Type 0 = Yields (IsProcessTarget true host) in
    require-both P _ _ _ (λ _. fails)
      λ _.
        require-both P _ _ _ (λ _. fails)
          λ _.
            or_fail-both P _ _ _ (λ _. fails)
              λ pid p.
                require-both P _ _ _ (λ _. fails)
                  λ l.
                    schema_2_process-IsProcessTarget host pid ms (positive_integer-bounds _ pid p).0
                      (ground (arith, l))
parse_process-IsProcessTarget false host ms =
    let P : Result CommandError ProcessTarget → Type 0 = Yields (IsProcessTarget false host) in
    require-both P _ _ _ (λ _. fails)
      λ _.
        require-both P _ _ _ (λ _. fails)
          λ _.
            or_fail-both P _ _ _ (λ _. fails)
              λ pid p.
                require-both P _ _ _ (λ _. fails)
                  λ l.
                    schema_1_process-IsProcessTarget host pid ms (positive_integer-bounds _ pid p).0
                      (ground (arith, l))
