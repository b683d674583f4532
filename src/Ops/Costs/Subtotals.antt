-- ===== src/Ops/Costs/Subtotals.antt =====
-- src/alfabetizacao_pipeline/ops/costs.py: what each group of components ensures.
use tech_challenge_fase2_alf.Prelude.Ensures.{Ensures, ok-Ensures}
use tech_challenge_fase2_alf.Ops.Models.{UnitRates, CostRequest}
use tech_challenge_fase2_alf.Ops.Costs.{
  bigquery_costs, dataflow_costs, storage_costs, pubsub_costs, service_costs, build_costs,
  network_costs, UnitRates, CostRequest, BigQueryCosts, DataflowCosts, StorageCosts, PubsubCosts,
  ServiceCosts, BuildCosts, NetworkCosts,
}
use tech_challenge_fase2_alf.Prelude.{◌≡◌, All, ◌∷◌, [], ◌<◌, ◌^◌, refl}
use tech_challenge_fase2_alf.Ops.Costs.Rules.{sum, money-Ensures, money-added}
use tech_challenge_fase2_alf.Ops.Decimal.Money.{cents, IsCents}

pub bigquery_costs-Ensures :
    (rates : UnitRates) (request : CostRequest)
    → Ensures
        (λ (g : BigQueryCosts).
          All IsCents (g.bigquery ∷ g.bigquery_storage_write_api ∷ g.bigquery_active_storage ∷ []))
        (bigquery_costs rates request)
unfolding bigquery_costs
bigquery_costs-Ensures rates request = money-Ensures _ _ _ (λ n₁ h₁.
    money-Ensures _ _ _
      (λ n₂ h₂. money-Ensures _ _ _ (λ n₃ h₃. ok-Ensures _ _ (refl, (refl, (refl, tt))))))

pub dataflow_costs-Ensures :
    (rates : UnitRates) (request : CostRequest)
    → Ensures
        (λ (g : DataflowCosts).
          All IsCents (
            g.dataflow_vcpu ∷ g.dataflow_memory ∷ g.dataflow_persistent_disk
            ∷ g.dataflow_streaming_engine ∷ [])
          × IsCents g.dataflow
          × (sum (
                  g.dataflow_vcpu ∷ g.dataflow_memory ∷ g.dataflow_persistent_disk
                  ∷ g.dataflow_streaming_engine ∷ [])
                < 10 ^ 28
              → g.dataflow
                ≡ cents (
                    sum (
                      g.dataflow_vcpu ∷ g.dataflow_memory ∷ g.dataflow_persistent_disk
                      ∷ g.dataflow_streaming_engine ∷ []))))
        (dataflow_costs rates request)
unfolding dataflow_costs
dataflow_costs-Ensures rates request = money-Ensures _ _ _ (λ n₁ h₁. money-Ensures _ _ _ (λ n₂ h₂.
    money-Ensures _ _ _ (λ n₃ h₃. money-Ensures _ _ _ (λ n₄ h₄. money-Ensures _ _ _ (λ n h.
      ok-Ensures _ _ (
        (refl, (refl, (refl, (refl, tt)))),
        refl,
        λ small.
            money-added (cents n₁) (cents n) (cents n₂ ∷ cents n₃ ∷ cents n₄ ∷ [])
              (refl, (refl, (refl, (refl, tt)))) small h,
      ))))))

pub storage_costs-Ensures :
    (rates : UnitRates) (request : CostRequest)
    → Ensures
        (λ (g : StorageCosts).
          All IsCents (
            g.gcs_storage ∷ g.gcs_replication ∷ g.gcs_class_a_operations ∷ g.gcs_class_b_operations
            ∷ [])
          × IsCents g.storage
          × (sum (
                  g.gcs_storage ∷ g.gcs_replication ∷ g.gcs_class_a_operations
                  ∷ g.gcs_class_b_operations ∷ [])
                < 10 ^ 28
              → g.storage
                ≡ cents (
                    sum (
                      g.gcs_storage ∷ g.gcs_replication ∷ g.gcs_class_a_operations
                      ∷ g.gcs_class_b_operations ∷ []))))
        (storage_costs rates request)
unfolding storage_costs
storage_costs-Ensures rates request = money-Ensures _ _ _ (λ n₁ h₁. money-Ensures _ _ _ (λ n₂ h₂.
    money-Ensures _ _ _ (λ n₃ h₃. money-Ensures _ _ _ (λ n₄ h₄. money-Ensures _ _ _ (λ n h.
      ok-Ensures _ _ (
        (refl, (refl, (refl, (refl, tt)))),
        refl,
        λ small.
            money-added (cents n₁) (cents n) (cents n₂ ∷ cents n₃ ∷ cents n₄ ∷ [])
              (refl, (refl, (refl, (refl, tt)))) small h,
      ))))))

pub pubsub_costs-Ensures :
    (rates : UnitRates) (request : CostRequest)
    → Ensures
        (λ (g : PubsubCosts).
          All IsCents (g.pubsub_publish_delivery ∷ g.pubsub_gcs_export ∷ g.pubsub_retention ∷ [])
          × IsCents g.pubsub
          × (sum (g.pubsub_publish_delivery ∷ g.pubsub_gcs_export ∷ g.pubsub_retention ∷ [])
                < 10 ^ 28
              → g.pubsub
                ≡ cents (
                    sum
                      (g.pubsub_publish_delivery ∷ g.pubsub_gcs_export ∷ g.pubsub_retention ∷ []))))
        (pubsub_costs rates request)
unfolding pubsub_costs
pubsub_costs-Ensures rates request = money-Ensures _ _ _ (λ n₁ h₁. money-Ensures _ _ _ (λ n₂ h₂.
    money-Ensures _ _ _ (λ n₃ h₃. money-Ensures _ _ _ (λ n h. ok-Ensures _ _ (
      (refl, (refl, (refl, tt))),
      refl,
      λ small.
          money-added (cents n₁) (cents n) (cents n₂ ∷ cents n₃ ∷ []) (refl, (refl, (refl, tt)))
            small h,
    )))))

pub service_costs-Ensures :
    (rates : UnitRates) (request : CostRequest)
    → Ensures
        (λ (g : ServiceCosts).
          All IsCents (g.cloud_run ∷ g.workflows ∷ g.scheduler ∷ g.artifact_registry ∷ []))
        (service_costs rates request)
unfolding service_costs
service_costs-Ensures rates request = money-Ensures _ _ _ (λ n₁ h₁. money-Ensures _ _ _ (λ n₂ h₂.
    money-Ensures _ _ _
      (λ n₃ h₃. money-Ensures _ _ _ (λ n₄ h₄. ok-Ensures _ _ (refl, (refl, (refl, (refl, tt))))))))

pub build_costs-Ensures :
    (rates : UnitRates) (request : CostRequest)
    → Ensures
        (λ (g : BuildCosts).
          All IsCents (g.cloud_build_build_images ∷ g.cloud_build_verify_images ∷ [])
          × IsCents g.cloud_build
          × (sum (g.cloud_build_build_images ∷ g.cloud_build_verify_images ∷ []) < 10 ^ 28
              → g.cloud_build
                ≡ cents (sum (g.cloud_build_build_images ∷ g.cloud_build_verify_images ∷ []))))
        (build_costs rates request)
unfolding build_costs
build_costs-Ensures rates request = money-Ensures _ _ _ (λ n₁ h₁. money-Ensures _ _ _ (λ n₂ h₂.
    money-Ensures _ _ _ (λ n h. ok-Ensures _ _ (
      (refl, (refl, tt)),
      refl,
      λ small. money-added (cents n₁) (cents n) (cents n₂ ∷ []) (refl, (refl, tt)) small h,
    ))))

pub network_costs-Ensures :
    (rates : UnitRates) (request : CostRequest)
    → Ensures
        (λ (g : NetworkCosts).
          All IsCents
            (g.logging ∷ g.monitoring ∷ g.network_egress ∷ g.cross_region_data_transfer ∷ []))
        (network_costs rates request)
unfolding network_costs
network_costs-Ensures rates request = money-Ensures _ _ _ (λ n₁ h₁. money-Ensures _ _ _ (λ n₂ h₂.
    money-Ensures _ _ _
      (λ n₃ h₃. money-Ensures _ _ _ (λ n₄ h₄. ok-Ensures _ _ (refl, (refl, (refl, (refl, tt))))))))
