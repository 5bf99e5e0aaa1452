-- ===== src/Response/Command/Targets.antt =====
-- The target of a parsed command has the shape that its action asks for.
use panopticon_agent.Prelude.{
  refl, Bool, true, false, require-both, or_fail-both, bind-both, Text, arith,
}
use panopticon_agent.Response.Command.Json.{Members}
use panopticon_agent.Response.Command.Parser.{
  TargetKind, process_kind, file_kind, acquire_kind, no_target, parse_file, parse_acquisition,
  parse_kind,
}
use panopticon_agent.Response.Command.Sound.{
  Yields, yields, fails, IsProcessTarget, IsTarget, bounded_string-bounds,
  bounded_positive_u64-bounds, parse_process-IsProcessTarget,
}

parse_file-IsTarget :
    (host : Text) (ms : Members) → Yields (IsTarget file_kind false host) (parse_file host ms)
unfolding parse_file
parse_file-IsTarget host ms =
    let P = Yields (IsTarget file_kind false host) in
    require-both P _ _ _ (λ _. fails)
      λ _.
        or_fail-both P _ _ _ (λ _. fails)
          λ path p.
            let b = bounded_string-bounds _ 4096 path p in
            yields (refl, refl, record { path_low = b.0; path_high = b.1 }, refl, refl)

parse_acquisition-IsTarget :
    (host : Text) (ms : Members)
    → Yields (IsTarget acquire_kind false host) (parse_acquisition host ms)
unfolding parse_acquisition
parse_acquisition-IsTarget host ms =
    let P = Yields (IsTarget acquire_kind false host) in
    require-both P _ _ _ (λ _. fails)
      λ _.
        or_fail-both P _ _ _ (λ _. fails)
          λ path p.
            or_fail-both P _ _ _ (λ _. fails)
              λ capture _.
                require-both P _ _ _ (λ _. fails)
                  λ v.
                    or_fail-both P _ _ _ (λ _. fails)
                      λ bytes n.
                        let b = bounded_string-bounds _ 4096 path p in
                        let c = bounded_positive_u64-bounds _ 4294967296 bytes n in
                        yields (
                          refl,
                          refl,
                          record { path_low = b.0; path_high = b.1 },
                          ground (arith, v),
                          c.0,
                          c.1,
                        )

pub parse_kind-IsTarget :
    (k : TargetKind) (two : Bool) (host : Text) (ms : Members)
    → Yields (IsTarget k two host) (parse_kind k two host ms)
unfolding parse_kind
parse_kind-IsTarget process_kind two host ms =
    bind-both (Yields (IsProcessTarget two host)) (Yields (IsTarget process_kind two host)) _ _
      (parse_process-IsProcessTarget two host ms) (λ _. fails)
      (λ p y. elim y [ yields v ↦ yields (v, refl, refl, refl) ])
parse_kind-IsTarget file_kind true host ms =
    require-both (Yields (IsTarget file_kind true host)) _ _ _ (λ _. fails)
      λ f. absurd (ground (arith, f))
parse_kind-IsTarget file_kind false host ms =
    require-both (Yields (IsTarget file_kind false host)) _ _ _ (λ _. fails)
      λ _. parse_file-IsTarget host ms
parse_kind-IsTarget acquire_kind true host ms =
    require-both (Yields (IsTarget acquire_kind true host)) _ _ _ (λ _. fails)
      λ f. absurd (ground (arith, f))
parse_kind-IsTarget acquire_kind false host ms =
    require-both (Yields (IsTarget acquire_kind false host)) _ _ _ (λ _. fails)
      λ _. parse_acquisition-IsTarget host ms
parse_kind-IsTarget no_target true host ms =
    require-both (Yields (IsTarget no_target true host)) _ _ _ (λ _. fails)
      λ f. absurd (ground (arith, f))
parse_kind-IsTarget no_target false host ms =
    let P = Yields (IsTarget no_target false host) in
    require-both P _ _ _ (λ _. fails)
      λ _. require-both P _ _ _ (λ _. fails) λ _. yields (refl, refl, refl, refl, refl)
