-- ===== src/Batch/Planner/Price.antt =====
-- The price of a partition: an estimate that is given stays under the limit of the request.
use tech_challenge_fase2_alf.Prelude.Results.{ok}
use tech_challenge_fase2_alf.Batch.Ports.{BigQueryPort}
use tech_challenge_fase2_alf.Batch.Planner.{estimate_batch, BigQueryPort, ok}
use tech_challenge_fase2_alf.Prelude.{Option, ◌≡◌, ◌≤◌, arith, some, none}
use tech_challenge_fase2_alf.Batch.Models.{BatchRequest, SourceInspection, BatchEstimate}

-- An estimate that is returned costs at most what the request allows, and carries that limit, the
-- source and the year of the request and the hashes of the query.
pub estimate_batch-IsWithin :
    {W : Type 0} (query : BigQueryPort W) (request : BatchRequest)
    (inspection : Option SourceInspection) (w w' : W) (estimate : BatchEstimate)
    → estimate_batch query request inspection w ≡ (ok estimate, w')
    → (estimate.estimated_bytes ≤ request.maximum_bytes_billed)
      × (estimate.maximum_bytes_billed ≡ request.maximum_bytes_billed)
      × (estimate.source ≡ request.source)
      × (estimate.year ≡ request.year)
      × (estimate.query_hash ≡ query.query_hash)
      × (estimate.schema_hash ≡ query.schema_hash)
unfolding estimate_batch
estimate_batch-IsWithin query request none w w' estimate h = ground arith
estimate_batch-IsWithin query request (some i) w w' estimate h = ground arith
