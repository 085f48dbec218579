-- ===== src/Examples/Owners.antt =====
-- Ownership at concrete claims (src/localplane/backend/domain/provenance.py).
use local_plane.Prelude.{◌≡◌, ◌↔◌, true, none, some, [], ◌∷◌}
use local_plane.Provenance.{
  OwnershipRelation, created_by, configured_by, OwnershipClaim, Provenance, assemble,
  ownership_block, observed, derive_adoption_eligibility,
}
use local_plane.Provenance.Conflicts.{OneProvider}
use local_plane.Provenance.Blocks.{
  Uncontested, ownership_block-Uncontested_iff, derive_adoption_eligibility-Uncontested_iff,
}

abbrev docker_claim : OwnershipRelation → OwnershipClaim
docker_claim r = record {
  relation = r;
  owner = record { provider = "docker"; instance_id = some "c1" };
  reason = "docker_created_this_container";
}

abbrev container : Provenance
container = assemble (docker_claim created_by ∷ docker_claim configured_by ∷ []) []

ownership_block-Uncontested_iff_example :
    (ownership_block container (some "docker") ≡ none)
    ↔ (OneProvider container.claims × Uncontested (some "docker") container.claims)
ownership_block-Uncontested_iff_example = ownership_block-Uncontested_iff container (some "docker")

derive_adoption_eligibility-Uncontested_iff_example :
    ((derive_adoption_eligibility observed container).eligible ≡ true)
    ↔ ((observed ≡ observed) × OneProvider container.claims × Uncontested none container.claims)
derive_adoption_eligibility-Uncontested_iff_example =
    derive_adoption_eligibility-Uncontested_iff observed container
