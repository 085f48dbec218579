-- ===== src/Provenance.antt =====
-- src/localplane/backend/domain/provenance.py: who owns an object, and what that forbids. The gate of
-- src/localplane/backend/domain/policy.py on an operation. Evidence, labels and moments are left out.
pub mod Conflicts
pub mod Blocks
use local_plane.Prelude.{
  String, Bool, true, false, not, ◌&&◌, ◌||◌, Option, none, some, List, [], ◌∷◌, ◌++◌, any, select,
  str_eq, if◌then◌else◌,
}
use local_plane.Policy.{OperationDefinition}

pub data OwnershipRelation : Type 0 where
  created_by configured_by : OwnershipRelation

pub data OwnershipState : Type 0 where
  attributed unknown : OwnershipState

pub record OwnerIdentity : Type 0 where
  pub provider : String
  pub instance_id : Option String

-- `OwnerIdentity.external`
abbrev pub external : OwnerIdentity → Bool
external o = not (str_eq o.provider "kernel" || str_eq o.provider "localplane")

pub record OwnershipClaim : Type 0 where
  pub relation : OwnershipRelation
  pub owner : OwnerIdentity
  pub reason : String

pub record ConsultedSource : Type 0 where
  pub source : String
  pub outcome : String
  pub gap : Bool

pub record Provenance : Type 0 where
  pub state : OwnershipState
  pub reason : String
  pub claims : List OwnershipClaim
  pub sources : List ConsultedSource

abbrev pub gaps_of : List ConsultedSource → List String
gaps_of [] = []
gaps_of (s ∷ ss) = if s.gap then s.source ∷ gaps_of ss else gaps_of ss

abbrev pub is_relation : OwnershipRelation → OwnershipRelation → Bool
is_relation created_by created_by = true
is_relation configured_by configured_by = true
is_relation _ _ = false

-- `Provenance.claims_for`, of its claims
abbrev pub claims_for : OwnershipRelation → List OwnershipClaim → List OwnershipClaim
claims_for r cs = select (λ (c : OwnershipClaim). is_relation r c.relation) cs

-- Whether the set of the claims' providers has more than one element.
abbrev pub several_providers : List OwnershipClaim → Bool
several_providers [] = false
several_providers (c ∷ cs) =
    any (λ (d : OwnershipClaim). not (str_eq c.owner.provider d.owner.provider)) cs

abbrev pub conflict_in : OwnershipRelation → List OwnershipClaim → List OwnershipRelation
conflict_in r claims = if several_providers (claims_for r claims) then r ∷ [] else []

-- `Provenance.conflicting_relations`
unfoldable pub conflicting_relations : List OwnershipClaim → List OwnershipRelation
conflicting_relations claims = conflict_in created_by claims ++ conflict_in configured_by claims

abbrev pub is_nothing : List OwnershipRelation → Bool
is_nothing [] = true
is_nothing (r ∷ rs) = false

abbrev pub no_strings : List String → Bool
no_strings [] = true
no_strings (s ∷ ss) = false

abbrev pub made_as :
    OwnershipState → String → List OwnershipClaim → List ConsultedSource → Provenance
made_as state reason claims sources = record {
  state = state;
  reason = reason;
  claims = claims;
  sources = sources;
}

abbrev pub external_claim : OwnershipClaim → Bool
external_claim c = external c.owner

abbrev pub unclaimed : List OwnershipClaim → List ConsultedSource → Provenance
unclaimed [] sources =
    if no_strings (gaps_of sources)
    then made_as unknown "no_provider_claim" [] sources
    else made_as unknown "evidence_incomplete" [] sources
unclaimed (c ∷ cs) sources = made_as attributed "host_kernel_only" (c ∷ cs) sources

-- `_assemble`
unfoldable pub assemble : List OwnershipClaim → List ConsultedSource → Provenance
assemble claims sources =
    if not (is_nothing (conflicting_relations claims))
    then made_as attributed "conflicting_claims" claims sources
    else if any external_claim (claims_for configured_by claims)
    then made_as attributed "externally_configured" claims sources
    else if any external_claim claims
    then made_as attributed "externally_created" claims sources
    else unclaimed claims sources

abbrev pub is_ignored : Option String → String → Bool
is_ignored none provider = false
is_ignored (some ignoring) provider = str_eq provider ignoring

-- The owner is another system, and not the one that is acted through.
abbrev pub competes : Option String → OwnershipClaim → Bool
competes ignoring c = external c.owner && not (is_ignored ignoring c.owner.provider)

abbrev pub first_competing : Option String → List OwnershipClaim → Option OwnershipClaim
first_competing ignoring [] = none
first_competing ignoring (c ∷ cs) =
    if competes ignoring c then some c else first_competing ignoring cs

abbrev pub or_claim : Option OwnershipClaim → Option OwnershipClaim → Option OwnershipClaim
or_claim (some c) other = some c
or_claim none other = other

unfoldable pub external_owner : Provenance → Option String → Option OwnershipClaim
external_owner p ignoring =
    or_claim (first_competing ignoring (claims_for configured_by p.claims))
      (first_competing ignoring (claims_for created_by p.claims))

abbrev pub owned_reason : OwnershipRelation → String
owned_reason configured_by = "externally_configured"
owned_reason created_by = "externally_created"

abbrev pub block_of : Option OwnershipClaim → Option (String × Option OwnerIdentity)
block_of none = none
block_of (some c) = some (owned_reason c.relation, some c.owner)

unfoldable pub ownership_block : Provenance → Option String → Option (String × Option OwnerIdentity)
ownership_block p acting_through =
    if is_nothing (conflicting_relations p.claims)
    then block_of (external_owner p acting_through)
    else some ("conflicting_ownership_claims", none)

pub data ManagementState : Type 0 where
  observe_only observed managed : ManagementState

pub record AdoptionEligibility : Type 0 where
  pub eligible : Bool
  pub reason : String
  pub blocked_by : Option OwnerIdentity
  pub evidence_gaps : List String

abbrev pub refused_adoption : String → Option OwnerIdentity → List String → AdoptionEligibility
refused_adoption reason owner gaps = record {
  eligible = false;
  reason = reason;
  blocked_by = owner;
  evidence_gaps = gaps;
}

abbrev pub unless_blocked :
    Option (String × Option OwnerIdentity) → List String → AdoptionEligibility
unless_blocked (some (reason, owner)) gaps = refused_adoption reason owner gaps
unless_blocked none gaps = record {
  eligible = true;
  reason = "no_external_owner_proven";
  blocked_by = none;
  evidence_gaps = gaps;
}

unfoldable pub derive_adoption_eligibility : ManagementState → Provenance → AdoptionEligibility
derive_adoption_eligibility observe_only p =
    refused_adoption "object_observe_only" none (gaps_of p.sources)
derive_adoption_eligibility managed p = refused_adoption "already_managed" none (gaps_of p.sources)
derive_adoption_eligibility observed p = unless_blocked (ownership_block p none) (gaps_of p.sources)

-- `_split`
abbrev pub split : Option (String × Option OwnerIdentity) → Option String × Option OwnerIdentity
split none = (none, none)
split (some (reason, owner)) = (some reason, owner)

-- src/localplane/backend/domain/policy.py
unfoldable pub ownership_gate :
    OperationDefinition → Provenance → Option String × Option OwnerIdentity
ownership_gate definition p = split (ownership_block p definition.acts_through_provider)
