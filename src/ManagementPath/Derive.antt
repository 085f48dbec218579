-- ===== src/ManagementPath/Derive.antt =====
-- src/localplane/backend/domain/management_path.py (`derive_management_path`) and
-- src/localplane/backend/domain/states.py (`derive_freshness`): the verdict on the management path.
use local_plane.Prelude.{
  ℕ, ◌-◌, String, Bool, true, false, not, ◌&&◌, Option, none, some, List, [], ◌∷◌, leb, ◌==◌,
  if◌then◌else◌, str_eq, contains, ℤ, pos, negsuc,
}
use local_plane.Prelude.Dict.{Dict, lookup}
use local_plane.Protection.{ManagementPathVerdict}
use local_plane.ManagementPath.{
  PathReason, confirmed, unobserved, context_mismatch, evidence_stale, endpoint_unmapped,
  endpoint_ambiguous, interface_stale, lookup_unavailable, lookup_failed, unreachable,
  egress_unspecified, interface_unmapped, interface_ambiguous, conflicts_with_endpoint, reason_text,
  TransportEvidence,
}

pub data Freshness : Type 0 where
  current stale never_observed : Freshness

-- `(now - observed_at).total_seconds()`
abbrev pub age_of : ℕ → ℕ → ℤ
age_of now observed_at =
    if leb observed_at now then pos (now - observed_at) else negsuc (observed_at - now - 1)

-- `age <= ttl_s`
abbrev pub at_most : ℤ → ℕ → Bool
at_most (pos n) ttl = leb n ttl
at_most (negsuc n) ttl = true

unfoldable pub derive_freshness : Option ℕ → ℕ → ℕ → Freshness × Option ℤ
derive_freshness none ttl now = (never_observed, none)
derive_freshness (some observed_at) ttl now =
    let age = age_of now observed_at in (if at_most age ttl then current else stale, some age)

abbrev pub is_current : Freshness → Bool
is_current current = true
is_current _ = false

pub record RouteEvidence : Type 0 where
  pub status : String
  pub oif_index : Option ℕ

pub record PathObservation : Type 0 where
  pub observation_id : String
  pub host_id : String
  pub observed_at : String
  pub transport_peer_address : String
  pub transport_peer_family : String
  pub local_endpoint_address : String
  pub local_endpoint_family : String
  pub route : RouteEvidence

-- What the host's interfaces were seen to carry: their resources by address and by index, and the stale ones
pub record ObservedAddresses : Type 0 where
  pub by_address : Dict (List String)
  pub by_index : List (ℕ × List String)
  pub stale_resources : List String

abbrev pub is_optional : String → Option String → Bool
is_optional s none = false
is_optional s (some t) = str_eq s t

-- `ManagementPathObservation.matches`
unfoldable pub matches : PathObservation → TransportEvidence → String → Bool
matches o transport host_id =
    str_eq o.host_id host_id
    && is_optional o.transport_peer_address transport.peer_address
    && is_optional o.local_endpoint_address transport.local_address
    && is_optional o.transport_peer_family transport.peer_family
    && is_optional o.local_endpoint_family transport.local_family

abbrev pub or_empty : Option (List String) → List String
or_empty none = []
or_empty (some xs) = xs

unfoldable pub indexed : ℕ → List (ℕ × List String) → Option (List String)
indexed i [] = none
indexed i ((j, xs) ∷ rest) = if j == i then some xs else indexed i rest

abbrev pub missing : List String
missing = "session.peer" ∷ "route.observe" ∷ []

-- `_unresolved`
abbrev pub unresolved_by : String → Option String → Option String → ManagementPathVerdict
unresolved_by reason evidence_id observed_at = record {
  resource_id = none;
  reason = reason;
  evidence_id = evidence_id;
  observed_at = observed_at;
  missing_evidence = missing;
}

-- The inner `unresolved`
abbrev pub unresolved : PathObservation → PathReason → ManagementPathVerdict
unresolved o reason =
    unresolved_by (reason_text reason) (some o.observation_id) (some o.observed_at)

-- `_ROUTE_FAILURE_REASONS.get(status, ROUTE_LOOKUP_FAILED)`
abbrev pub failure_reason : String → PathReason
failure_reason status =
    if str_eq status "unreachable"
    then unreachable
    else if str_eq status "unavailable"
    then lookup_unavailable
    else lookup_failed

abbrev pub agreed :
    PathObservation → ObservedAddresses → String → List String → ManagementPathVerdict
agreed o observed endpoint [] = unresolved o interface_unmapped
agreed o observed endpoint (egress ∷ _ ∷ _) = unresolved o interface_ambiguous
agreed o observed endpoint (egress ∷ []) =
    if not (str_eq egress endpoint)
    then unresolved o conflicts_with_endpoint
    else if contains observed.stale_resources endpoint
    then unresolved o interface_stale
    else record {
      resource_id = some endpoint;
      reason = reason_text confirmed;
      evidence_id = some o.observation_id;
      observed_at = some o.observed_at;
      missing_evidence = [];
    }

abbrev pub leaving : PathObservation → ObservedAddresses → String → Option ℕ → ManagementPathVerdict
leaving o observed endpoint none = unresolved o egress_unspecified
leaving o observed endpoint (some index) =
    agreed o observed endpoint (or_empty (indexed index observed.by_index))

abbrev pub carried_by : PathObservation → ObservedAddresses → List String → ManagementPathVerdict
carried_by o observed [] = unresolved o endpoint_unmapped
carried_by o observed (endpoint ∷ _ ∷ _) = unresolved o endpoint_ambiguous
carried_by o observed (endpoint ∷ []) =
    if not (str_eq o.route.status "resolved")
    then unresolved o (failure_reason o.route.status)
    else leaving o observed endpoint o.route.oif_index

module _ (read_moment : String → Option ℕ) where
  abbrev pub judge_observed :
      TransportEvidence
      → String
      → Option PathObservation
      → ObservedAddresses
      → ℕ
      → ℕ
      → ManagementPathVerdict
  judge_observed transport host_id none observed now ttl =
      unresolved_by (reason_text unobserved) none none
  judge_observed transport host_id (some o) observed now ttl =
      if not (matches o transport host_id)
      then unresolved_by (reason_text context_mismatch) none none
      else if not (is_current (derive_freshness (read_moment o.observed_at) ttl now).0)
      then unresolved o evidence_stale
      else carried_by o observed (or_empty (lookup o.local_endpoint_address observed.by_address))

  abbrev pub judge_transport :
      TransportEvidence
      → Option String
      → String
      → Option PathObservation
      → ObservedAddresses
      → ℕ
      → ℕ
      → ManagementPathVerdict
  judge_transport transport (some reason) host_id observation observed now ttl =
      unresolved_by reason none none
  judge_transport transport none host_id observation observed now ttl =
      judge_observed transport host_id observation observed now ttl

  unfoldable pub derive_management_path :
      TransportEvidence
      → String
      → Option PathObservation
      → ObservedAddresses
      → ℕ
      → ℕ
      → ManagementPathVerdict
  derive_management_path transport host_id observation observed now ttl =
      judge_transport transport transport.unusable_reason host_id observation observed now ttl
