-- ===== src/Examples/Paths.antt =====
-- The management path at concrete evidence (src/localplane/backend/domain/management_path.py).
use local_plane.Prelude.{
  ℕ, ◌≡◌, ◌≢◌, ◌↔◌, String, true, false, Option, none, some, List, [], ◌∷◌, if◌then◌else◌, str_eq,
  sorted, from_keys, contains, refl,
}
use local_plane.Prelude.Dict.{lookup, insert}
use local_plane.Prelude.Ascending.{Ascending}
use local_plane.Protection.{path_relation, not_on_management_path}
use local_plane.ManagementPath.{IpAddress, ParsedIp, TransportEvidence, read_transport}
use local_plane.ManagementPath.Derive.{
  PathObservation, ObservedAddresses, or_empty, indexed, matches, derive_freshness,
  derive_management_path,
}
use local_plane.ManagementPath.Observed.{
  InterfaceRow, add_addresses, append_index, by_address_of, by_index_of, stale_of,
  observed_addresses, carriers, observed_addresses-carriers,
}
use local_plane.ManagementPath.Proven.{
  Proves, derive_management_path-Proves_iff, derive_management_path-off_iff,
}
use local_plane.ManagementPath.Transport.{Reaches, read_transport-Reaches_iff}

abbrev lan : String → IpAddress
lan s = record {
  written = s;
  is_version_4 = true;
  is_loopback = false;
  is_unspecified = false;
  is_link_local = false;
}

-- Texts that are read as they are written
abbrev read_ip : String → Option ParsedIp
read_ip s = if str_eq s "bad" then none else some (record { address = lan s; ipv4_mapped = none })

abbrev read_clock : String → Option ℕ
read_clock s = some 100

abbrev laptop_link : TransportEvidence
laptop_link = record {
  peer_address = some "10.0.0.9";
  peer_family = some "inet";
  local_address = some "10.0.0.1";
  local_family = some "inet";
  unusable_reason = none;
  raw_peer = some "10.0.0.9";
  raw_local = some "10.0.0.1";
}

abbrev laptop_seen : PathObservation
laptop_seen = record {
  observation_id = "mpo_1";
  host_id = "h1";
  observed_at = "t";
  transport_peer_address = "10.0.0.9";
  transport_peer_family = "inet";
  local_endpoint_address = "10.0.0.1";
  local_endpoint_family = "inet";
  route = record { status = "resolved"; oif_index = some 2 };
}

abbrev two_rows : List InterfaceRow
two_rows =
    record {
      object_id = "eth0";
      observation =
          some
            (record { observed_at = "t"; ifindex = some 2; addresses = "10.0.0.1" ∷ "bad" ∷ [] });
    }
    ∷ record {
      object_id = "eth1";
      observation =
          some (record { observed_at = "t"; ifindex = some 3; addresses = "10.0.1.1" ∷ [] });
    }
    ∷ []

abbrev two_observed : ObservedAddresses
two_observed = observed_addresses read_clock 120 60 read_ip two_rows

observed_addresses-carriers_example :
    Ascending (or_empty (lookup "10.0.0.1" two_observed.by_address))
    × ((id : String)
        → contains (or_empty (lookup "10.0.0.1" two_observed.by_address)) id
          ≡ contains (carriers read_ip "10.0.0.1" two_rows) id)
observed_addresses-carriers_example =
    observed_addresses-carriers read_ip "10.0.0.1" read_clock 120 60 two_rows

derive_management_path-Proves_iff_example :
    ((derive_management_path read_clock laptop_link "h1"
        (some laptop_seen)
        two_observed
        120
        60).resource_id
      ≡ some "eth0")
    ↔ Proves read_clock laptop_link "h1" (some laptop_seen) two_observed 120 60 "eth0"
derive_management_path-Proves_iff_example =
    derive_management_path-Proves_iff read_clock laptop_link "h1" (some laptop_seen) two_observed
      120 60 "eth0"

derive_management_path-off_iff_example :
    (path_relation
        (derive_management_path read_clock laptop_link "h1" (some laptop_seen) two_observed 120 60)
        "eth1"
      ≡ not_on_management_path)
    ↔ ((r : String) × (r ≢ "eth1")
        × Proves read_clock laptop_link "h1" (some laptop_seen) two_observed 120 60 r)
derive_management_path-off_iff_example =
    derive_management_path-off_iff read_clock laptop_link "h1" (some laptop_seen) two_observed 120
      60 "eth1"

read_transport-Reaches_iff_example :
    ((read_transport read_ip (some "10.0.0.9") (some "10.0.0.1")).unusable_reason ≡ none) ↔ (
      (a : IpAddress) × (b : IpAddress) × Reaches read_ip (some "10.0.0.9") a
      × Reaches read_ip (some "10.0.0.1") b
      × (a.is_version_4 ≡ b.is_version_4))
read_transport-Reaches_iff_example =
    read_transport-Reaches_iff read_ip (some "10.0.0.9") (some "10.0.0.1")

laptop_path :
    (derive_management_path read_clock laptop_link "h1"
      (some laptop_seen)
      two_observed
      120
      60).resource_id
    ≡ some "eth0"
unfolding derive_management_path matches derive_freshness indexed observed_addresses by_address_of
    by_index_of stale_of add_addresses append_index lookup insert sorted from_keys contains
laptop_path = refl
