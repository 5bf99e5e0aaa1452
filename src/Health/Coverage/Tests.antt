-- ===== src/Health/Coverage/Tests.antt =====
-- A failure reported twice.
use panopticon_agent.Prelude.{◌≡◌, refl, true, some, List, [], ◌∷◌, codes, text_eq}
use panopticon_agent.Health.Coverage.{Capability, Update, degraded, healthy, put_capability}
use panopticon_agent.Health.Coverage.Updates.{lookup}

abbrev update : Update
update = record {
  id = codes "N.network";
  state = degraded;
  reason = codes "r";
  scope = codes "s";
  failure = true;
  now = codes "t";
}

abbrev before : List Capability
before =
    record {
      id = codes "N.network";
      state = healthy;
      reason = [];
      scope = [];
      updated_at = [];
      failure_count = 1;
    }
    ∷ []

abbrev after : List Capability
after = put_capability update before

count_test :
    lookup (codes "N.network") after
    ≡ some (record {
      id = codes "N.network";
      state = degraded;
      reason = codes "r";
      scope = codes "s";
      updated_at = codes "t";
      failure_count = 2;
    })
unfolding lookup put_capability text_eq
count_test = refl
