-- ===== src/Ops/Costs/Totals.antt =====
-- src/alfabetizacao_pipeline/ops/costs.py: the subtotals and the total of an estimate.
use tech_challenge_fase2_alf.Prelude.Ensures.{Ensures, ok-Ensures, >>=-Ensures, err-Ensures}
use tech_challenge_fase2_alf.Prelude.Dict.{get}
use tech_challenge_fase2_alf.Ops.Costs.Subtotals.{
  bigquery_costs-Ensures, dataflow_costs-Ensures, storage_costs-Ensures, pubsub_costs-Ensures,
  service_costs-Ensures, build_costs-Ensures, network_costs-Ensures,
}
use tech_challenge_fase2_alf.Prelude.Results.{ok, err}
use tech_challenge_fase2_alf.Ops.Costs.Groups.{
  cost_groups, CostGroups, total_of, report_of, estimate_profile, estimate_request,
}
use tech_challenge_fase2_alf.Ops.Decimal.{Decimal, money, profile_not_found}
use tech_challenge_fase2_alf.Ops.Decimal.Money.{cents}
use tech_challenge_fase2_alf.Ops.Costs.{UnitRates, Decimal, CostRequest, money, ok}
use tech_challenge_fase2_alf.Ops.Models.{CostReport, UnitRates, CostRequest, CostCatalog}
use tech_challenge_fase2_alf.Prelude.{
  ◌≡◌, List, ℕ, ◌+◌, ◌∷◌, [], ◌<◌, ◌^◌, String, arith, Option, some, none, string_eq, ap, ◌∙◌,
}
use tech_challenge_fase2_alf.Ops.Costs.Rules.{sum, money-added}

abbrev pub dataflow_parts : CostReport → List Decimal
dataflow_parts r =
    r.dataflow_vcpu ∷ r.dataflow_memory ∷ r.dataflow_persistent_disk ∷ r.dataflow_streaming_engine
    ∷ []

abbrev pub storage_parts : CostReport → List Decimal
storage_parts r =
    r.gcs_storage ∷ r.gcs_replication ∷ r.gcs_class_a_operations ∷ r.gcs_class_b_operations ∷ []

abbrev pub pubsub_parts : CostReport → List Decimal
pubsub_parts r = r.pubsub_publish_delivery ∷ r.pubsub_gcs_export ∷ r.pubsub_retention ∷ []

abbrev pub build_parts : CostReport → List Decimal
build_parts r = r.cloud_build_build_images ∷ r.cloud_build_verify_images ∷ []

-- The components that are no subtotals.
abbrev pub other_parts : CostReport → List Decimal
other_parts r =
    r.bigquery ∷ r.bigquery_storage_write_api ∷ r.bigquery_active_storage ∷ r.cloud_run
    ∷ r.workflows ∷ r.scheduler ∷ r.artifact_registry ∷ r.logging ∷ r.monitoring ∷ r.network_egress
    ∷ r.cross_region_data_transfer ∷ []

-- Every priced component of a report, in cents.
abbrev pub priced : CostReport → ℕ
priced r =
    sum (dataflow_parts r)
    + sum (storage_parts r)
    + sum (pubsub_parts r)
    + sum (build_parts r)
    + sum (other_parts r)

-- Each subtotal is the sum of its components, and the total is the sum of all.
abbrev pub IsSummed : CostReport → Type 0
IsSummed r =
    (r.dataflow ≡ cents (sum (dataflow_parts r)))
    × (r.storage ≡ cents (sum (storage_parts r)))
    × (r.pubsub ≡ cents (sum (pubsub_parts r)))
    × (r.cloud_build ≡ cents (sum (build_parts r)))
    × (r.total ≡ cents (priced r))

total-IsSummed :
    (catalog : CostCatalog) (profile_name : String) (request : CostRequest) (rates : UnitRates)
    → Ensures
        (λ (groups : CostGroups).
          (total : Decimal)
          → money (total_of groups) ≡ ok total
          → let report = report_of catalog profile_name request groups total in
            priced report < 10 ^ 28 → IsSummed report)
        (cost_groups rates request)
unfolding cost_groups
total-IsSummed catalog profile_name request rates = >>=-Ensures _ _ _ (λ q h₁.
    >>=-Ensures _ _ _ (λ flow h₂. >>=-Ensures _ _ _ (λ stored h₃. >>=-Ensures _ _ _ (λ messages h₄.
      >>=-Ensures _ _ _ (λ services h₅. >>=-Ensures _ _ _ (λ builds h₆.
        >>=-Ensures _ _ _ (λ network h₇. ok-Ensures _ _ (λ total h small.
          let (q₁, (q₂, (q₃, _))) = bigquery_costs-Ensures rates request q h₁ in
          let (_, flow_cents, flow_sum) = dataflow_costs-Ensures rates request flow h₂ in
          let (_, stored_cents, stored_sum) = storage_costs-Ensures rates request stored h₃ in
          let (_, messages_cents, messages_sum) = pubsub_costs-Ensures rates request messages h₄ in
          let (s₁, (s₂, (s₃, (s₄, _)))) = service_costs-Ensures rates request services h₅ in
          let (_, builds_cents, builds_sum) = build_costs-Ensures rates request builds h₆ in
          let (n₁, (n₂, (n₃, (n₄, _)))) = network_costs-Ensures rates request network h₇ in
          let flow_total = flow_sum (omega arith) in
          let stored_total = stored_sum (omega arith) in
          let messages_total = messages_sum (omega arith) in
          let builds_total = builds_sum (omega arith) in
          let flow_n = ap (λ d. d.coefficient) flow_total in
          let stored_n = ap (λ d. d.coefficient) stored_total in
          let messages_n = ap (λ d. d.coefficient) messages_total in
          let builds_n = ap (λ d. d.coefficient) builds_total in
          (
            flow_total,
            stored_total,
            messages_total,
            builds_total,
            money-added q.bigquery total
                  (q.bigquery_storage_write_api ∷ q.bigquery_active_storage ∷ flow.dataflow
                    ∷ stored.storage ∷ messages.pubsub ∷ services.cloud_run ∷ services.workflows
                    ∷ services.scheduler ∷ services.artifact_registry ∷ builds.cloud_build
                    ∷ network.logging ∷ network.monitoring ∷ network.network_egress
                    ∷ network.cross_region_data_transfer ∷ [])
                  (
                    q₁,
                    (
                      q₂,
                      (
                        q₃,
                        (
                          flow_cents,
                          (
                            stored_cents,
                            (
                              messages_cents,
                              (s₁, (s₂, (s₃, (s₄, (builds_cents, (n₁, (n₂, (n₃, (n₄, tt))))))))),
                            ),
                          ),
                        ),
                      ),
                    ),
                  )
                  (omega arith) h
                ∙ ap cents (omega arith),
          )))))))))

-- Where a report is made and all its components together are below 10 ^ 28 cents, each subtotal is
-- exactly the sum of its components, and the total is exactly the sum of all components.
pub estimate_profile-IsSummed :
    (catalog : CostCatalog) (profile_name : String) (report : CostReport)
    → estimate_profile catalog profile_name ≡ ok report
    → priced report < 10 ^ 28
    → IsSummed report
unfolding estimate_profile estimate_request
estimate_profile-IsSummed catalog profile_name report =
    found (get profile_name catalog.profiles) report
  where
    found :
        (request : Option CostRequest)
        → Ensures
            (λ r. priced r < 10 ^ 28 → IsSummed r)
            (elim request [
              | some request ↦ estimate_request catalog profile_name request
              | none ↦ err (profile_not_found profile_name)
            ])
    found none = err-Ensures _ _
    found (some request) = >>=-Ensures _ _ _ (λ groups h. >>=-Ensures _ _ _ (λ total q.
        ok-Ensures _ _
          (total-IsSummed catalog profile_name request catalog.rates groups h total q)))
