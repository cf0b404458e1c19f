-- ===== src/Budget/Examples.antt =====
-- A host with room for two shards of a profile; the theorems at it.
use qarunner.Prelude.{[], is_blank, none, ok, refl, some, ℕ, ◌∷◌, ◌≡◌}
use qarunner.Budget.{
  ResourceProfileSpec, ResourceVector, ShardBudgetDecision, ShardPlanningBudget,
  admit_concurrent_shards, admitted, budget_post_init, find_profile, infeasible, reserve, scaled_by,
  spec_post_init,
}
use qarunner.Budget.Admission.{Verdict, admit_concurrent_shards-Verdict}

abbrev vector : ℕ → ℕ → ResourceVector
vector cpu memory = record {
  cpu_millis = cpu;
  memory_bytes = memory;
  pid_slots = 10;
  ephemeral_storage_bytes = 0;
  browser_slots = 1;
}

abbrev web : ResourceProfileSpec
web = record {
  profile_id = "web";
  name = "Web";
  profile_version = 1;
  framework = "pytest";
  requests = vector 500 100;
  limits = vector 900 200;
  internal_workers = 2;
  security_profile_id = "std";
}

abbrev host : ShardPlanningBudget
host = record {
  target_shard_duration_ms = 1000;
  min_shards = 1;
  max_shards = 8;
  host_capacity = record {
    cpu_millis = 2500;
    memory_bytes = 4000;
    pid_slots = 100;
    ephemeral_storage_bytes = 0;
    browser_slots = 16;
  };
  profiles = web ∷ [];
}

program : Unit {0}
unfolding admit_concurrent_shards reserve find_profile scaled_by is_blank spec_post_init
    budget_post_init
program = tt

web-accepted : spec_post_init web ≡ ok web
unfolding program
web-accepted = refl

host-accepted : budget_post_init host ≡ ok host
unfolding program
host-accepted = refl

abbrev whole : ℕ → ShardBudgetDecision
whole n = record {
  kind = admitted;
  desired_shard_count = n;
  allowed_shard_count = n;
  limiting_dimension = none;
  reason = none;
}

two-admitted : admit_concurrent_shards host ("web" ∷ "web" ∷ []) ≡ ok (whole 2)
unfolding program
two-admitted = refl

three-refused :
    admit_concurrent_shards host ("web" ∷ "web" ∷ "web" ∷ [])
    ≡ ok (record {
      kind = infeasible;
      desired_shard_count = 3;
      allowed_shard_count = 0;
      limiting_dimension = some qarunner.Budget.Dimension.cpu_millis;
      reason = some "oversell";
    })
unfolding program
three-refused = refl

admit_concurrent_shards-Verdict_example :
    ((whole 2).desired_shard_count ≡ 2) × Verdict host ("web" ∷ "web" ∷ []) (whole 2) none
admit_concurrent_shards-Verdict_example =
    admit_concurrent_shards-Verdict host ("web" ∷ "web" ∷ []) (whole 2) two-admitted
