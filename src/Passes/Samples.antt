-- ===== src/Passes/Samples.antt =====
-- A world with one validated case, for
-- packages/pipeline/eastmed_pipeline/reconciliation_dispatch.py.
use mari_time_system.Prelude.{ℕ, ◌+◌, some, [], ◌∷◌, false, Result, ok, err}
use mari_time_system.Runtime.State.{WorkflowStage, TaskClaim}
use mari_time_system.Publication.State.{Portal}
use mari_time_system.Cases.Build.{ResultJson}
use mari_time_system.Cases.Samples.{reading, sources, burned, plan, job, hashes, platform, case_row}
use mari_time_system.Passes.State.{World, PassArguments, Services, StepKeys, RunKeys}

abbrev pub services : Services
services = record {
  platform = record platform { parse_uuid = λ text. some 20 };
  reading = reading;
  hashes = hashes;
  task_locked = λ id. false;
  outbox_locked = λ id. false;
}

abbrev pub arguments : PassArguments
arguments = record {
  account_id = 7;
  principal_subject = "svc";
  system_fingerprint = "f1";
  moment = 1000;
}

abbrev pub keys : ℕ → StepKeys
keys n = record {
  attempt_id = 100 + n;
  next_task_id = 200 + n;
  version_id = 300 + n;
  verdict_id = 400 + n;
  proposal = record { attestation_id = 500 + n; intent_id = 600 + n; outbox_id = 700 + n };
  publication_id = 800 + n;
}

abbrev pub run_keys : ℕ → RunKeys
run_keys case_id = record { run_id = 1000 + case_id; task_id = 2000 + case_id }

abbrev pub empty_portal : Portal ResultJson
empty_portal = record {
  authority = record { principals = []; grants = []; attestations = [] };
  cases = case_row ∷ [];
  versions = [];
  verdicts = [];
  intents = [];
  outbox = [];
  publications = [];
}

abbrev pub arrived : World
arrived = record {
  runtime = record { runs = []; tasks = []; attempts = [] };
  portal = empty_portal;
  jobs = job ∷ [];
  sources = sources (burned ∷ plan ∷ []);
}

-- What a call returned, if it returned.
abbrev pub value_or : {A : Type 0} → A → Result A → A
value_or other (err e) = other
value_or other (ok value) = value

abbrev pub claim_for : ℕ → ℕ → WorkflowStage → TaskClaim
claim_for task_id attempt_id stage = record {
  task_id = task_id;
  run_id = 1020;
  attempt_id = attempt_id;
  attempt_no = 1;
  lease_epoch = 1;
  stage = stage;
}
