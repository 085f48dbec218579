-- ===== src/ManagementPath.antt =====
-- src/localplane/backend/domain/management_path.py: which interface carries the operator's connection, and
-- src/localplane/backend/domain/states.py (`derive_freshness`). Python's `ipaddress` and `datetime` are parameters: how a
-- text is read as an address and as a moment. A moment is a number of microseconds. Of a route the fields are
-- left out that are only shown.
pub mod Derive
pub mod Observed
pub mod Matching
pub mod Carried
pub mod Proven
pub mod Transport
use local_plane.Prelude.{
  ℕ, ◌-◌, String, Bool, true, false, not, ◌&&◌, Option, none, some, List, [], ◌∷◌, leb, ltb, ◌==◌,
  if◌then◌else◌, str_eq, contains, ℤ, pos, negsuc,
}
use local_plane.Prelude.Dict.{Dict, lookup}
use local_plane.Protection.{ManagementPathVerdict}

pub data PathReason : Type 0 where
  confirmed : PathReason
  peer_unavailable peer_unparseable peer_local peer_link_local peer_unspecified : PathReason
  endpoint_unavailable endpoint_unparseable endpoint_local endpoint_link_local : PathReason
  endpoint_unspecified family_mismatch unobserved context_mismatch evidence_stale : PathReason
  endpoint_unmapped endpoint_ambiguous interface_stale : PathReason
  lookup_unavailable lookup_failed unreachable egress_unspecified : PathReason
  interface_unmapped interface_ambiguous conflicts_with_endpoint : PathReason

-- `str(reason)`
unfoldable pub reason_text : PathReason → String
reason_text confirmed = "management_path_confirmed"
reason_text peer_unavailable = "transport_peer_unavailable"
reason_text peer_unparseable = "transport_peer_unparseable"
reason_text peer_local = "transport_peer_local"
reason_text peer_link_local = "transport_peer_link_local"
reason_text peer_unspecified = "transport_peer_unspecified"
reason_text endpoint_unavailable = "local_endpoint_unavailable"
reason_text endpoint_unparseable = "local_endpoint_unparseable"
reason_text endpoint_local = "local_endpoint_local"
reason_text endpoint_link_local = "local_endpoint_link_local"
reason_text endpoint_unspecified = "local_endpoint_unspecified"
reason_text family_mismatch = "address_family_mismatch"
reason_text unobserved = "management_path_unobserved"
reason_text context_mismatch = "request_context_mismatch"
reason_text evidence_stale = "evidence_stale"
reason_text endpoint_unmapped = "local_endpoint_unmapped"
reason_text endpoint_ambiguous = "local_endpoint_ambiguous"
reason_text interface_stale = "interface_observation_stale"
reason_text lookup_unavailable = "route_lookup_unavailable"
reason_text lookup_failed = "route_lookup_failed"
reason_text unreachable = "route_unreachable"
reason_text egress_unspecified = "route_egress_unspecified"
reason_text interface_unmapped = "route_interface_unmapped"
reason_text interface_ambiguous = "route_interface_ambiguous"
reason_text conflicts_with_endpoint = "route_conflicts_with_local_endpoint"

pub record IpAddress : Type 0 where
  pub written : String
  pub is_version_4 : Bool
  pub is_loopback : Bool
  pub is_unspecified : Bool
  pub is_link_local : Bool

-- An address, with the IPv4 address it maps if it maps one
pub record ParsedIp : Type 0 where
  pub address : IpAddress
  pub ipv4_mapped : Option IpAddress

pub record TransportEvidence : Type 0 where
  pub peer_address : Option String
  pub peer_family : Option String
  pub local_address : Option String
  pub local_family : Option String
  pub unusable_reason : Option String
  pub raw_peer : Option String
  pub raw_local : Option String

-- What `_classify` says in each case
pub record Cases : Type 0 where
  pub unavailable : PathReason
  pub unparseable : PathReason
  pub loopback : PathReason
  pub link_local : PathReason
  pub unspecified : PathReason

abbrev pub peer_cases : Cases
peer_cases = record {
  unavailable = peer_unavailable;
  unparseable = peer_unparseable;
  loopback = peer_local;
  link_local = peer_link_local;
  unspecified = peer_unspecified;
}

abbrev pub endpoint_cases : Cases
endpoint_cases = record {
  unavailable = endpoint_unavailable;
  unparseable = endpoint_unparseable;
  loopback = endpoint_local;
  link_local = endpoint_link_local;
  unspecified = endpoint_unspecified;
}

abbrev pub classify_address : Cases → IpAddress → Option IpAddress × Option PathReason
classify_address c a =
    if a.is_loopback
    then (some a, some c.loopback)
    else if a.is_unspecified
    then (some a, some c.unspecified)
    else if a.is_link_local
    then (some a, some c.link_local)
    else (some a, none)

abbrev pub unmapped : ParsedIp → Option IpAddress → IpAddress
unmapped p none = p.address
unmapped p (some mapped) = mapped

abbrev pub classify_parsed : Cases → Option ParsedIp → Option IpAddress × Option PathReason
classify_parsed c none = (none, some c.unparseable)
classify_parsed c (some p) = classify_address c (unmapped p p.ipv4_mapped)

-- `_family_of`
abbrev pub family_of : Option IpAddress → Option String
family_of none = none
family_of (some a) = if a.is_version_4 then some "inet" else some "inet6"

abbrev pub written_of : Option IpAddress → Option String
written_of none = none
written_of (some a) = some a.written

-- `a.version != b.version`, where both are there
abbrev pub other_version : Option IpAddress → Option IpAddress → Bool
other_version (some a) (some b) = if a.is_version_4 then not b.is_version_4 else b.is_version_4
other_version _ _ = false

-- `peer_reason or local_reason`, and then the versions
abbrev pub transport_reason :
    Option IpAddress × Option PathReason → Option IpAddress × Option PathReason → Option PathReason
transport_reason (peer, some reason) _ = some reason
transport_reason (peer, none) (endpoint, some reason) = some reason
transport_reason (peer, none) (endpoint, none) =
    if other_version peer endpoint then some family_mismatch else none

abbrev pub text_of : Option PathReason → Option String
text_of none = none
text_of (some reason) = some (reason_text reason)

module _ (parse_ip : String → Option ParsedIp) where
  -- `_classify`
  unfoldable pub classify : Cases → Option String → Option IpAddress × Option PathReason
  classify c none = (none, some c.unavailable)
  classify c (some value) =
      if str_eq value "" then (none, some c.unavailable) else classify_parsed c (parse_ip value)

  unfoldable pub read_transport : Option String → Option String → TransportEvidence
  read_transport peer endpoint =
      let from = classify peer_cases peer in
      let to = classify endpoint_cases endpoint in
      record {
        peer_address = written_of from.0;
        peer_family = family_of from.0;
        local_address = written_of to.0;
        local_family = family_of to.0;
        unusable_reason = text_of (transport_reason from to);
        raw_peer = peer;
        raw_local = endpoint;
      }
