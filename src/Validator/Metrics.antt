-- ===== src/Validator/Metrics.antt =====
-- crates/validator/src/metrics.rs: the counter, which is a u64 that wraps, and what each histogram observed, the newest last.
-- Buckets and the registration are not modelled. A latency is in nanoseconds.
use Prim.Native.String.{String}
use blockchain_validator.Prelude.{ℕ, ◌+◌, ◌%◌, ◌^◌, List, [], ◌∷◌, ◌++◌}

abbrev pub submitted_transactions_name : String
submitted_transactions_name = "validator_submitted_transactions"

abbrev pub subdag_execution_latency_s_name : String
subdag_execution_latency_s_name = "subdag_execution_latency_s"

abbrev pub checkpoint_certification_latency_s_name : String
checkpoint_certification_latency_s_name = "checkpoint_certification_latency_s"

abbrev pub end_to_end_latency_s_name : String
end_to_end_latency_s_name = "end_to_end_latency_s"

pub record ValidatorMetrics : Type 0 where
  pub submitted_transactions : ℕ
  pub subdag_execution_latency : List ℕ
  pub checkpoint_certification_latency : List ℕ
  pub end_to_end_latency : List ℕ

abbrev pub new_metrics : ValidatorMetrics
new_metrics = record {
  submitted_transactions = 0;
  subdag_execution_latency = [];
  checkpoint_certification_latency = [];
  end_to_end_latency = [];
}

abbrev pub inc_submitted_transactions : ValidatorMetrics → ℕ → ValidatorMetrics
inc_submitted_transactions m count = record m {
  submitted_transactions = (m.submitted_transactions + count) % 2 ^ 64;
}

abbrev pub observe_subdag_execution_latency : ValidatorMetrics → ℕ → ValidatorMetrics
observe_subdag_execution_latency m latency = record m {
  subdag_execution_latency = m.subdag_execution_latency ++ (latency ∷ []);
}

abbrev pub observe_checkpoint_certification_latency : ValidatorMetrics → ℕ → ValidatorMetrics
observe_checkpoint_certification_latency m latency = record m {
  checkpoint_certification_latency = m.checkpoint_certification_latency ++ (latency ∷ []);
}

abbrev pub observe_end_to_end_latency : ValidatorMetrics → ℕ → ValidatorMetrics
observe_end_to_end_latency m latency = record m {
  end_to_end_latency = m.end_to_end_latency ++ (latency ∷ []);
}
