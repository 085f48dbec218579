-- ===== src/Lifecycle.antt =====
-- src/localplane/backend/domain/systemd_lifecycle.py: what is known about a service, what acting on it
-- may reach, and whether it may be acted on at all.
-- `evidence` mappings, kept for display, are left out. `facts` and its `service` mapping hold `Fact`s: a
-- missing key is `null`, and a value that is neither a flag nor a text is known by its truth value.
pub mod Protects
pub mod Applicable
use local_plane.Prelude.{
  ℕ, String, Bool, true, false, not, ◌&&◌, ◌||◌, Option, none, some, List, [], ◌∷◌, ◌++◌, any,
  select, str_eq, contains, from_keys, sorted, if◌then◌else◌,
}
use local_plane.Prelude.Dict.{Dict, lookup}
use local_plane.Protection.{
  ProtectionStatus, protected, clear, management_path, localplane_agent, ManagementPathRelation,
  ReasonAssessment, ProtectionAssessment, status_eq, roll_up_protection,
}

pub data Action : Type 0 where
  start stop restart : Action

pub data Fact : Type 0 where
  null : Fact
  flag : Bool → Fact
  text : String → Fact
  other : Bool → Fact

pub data OwnerStatus : Type 0 where
  resolved incomplete : OwnerStatus

pub record RuntimeOwner : Type 0 where
  pub contract_version : String
  pub method_version : ℕ
  pub provider : String
  pub status : OwnerStatus
  pub owner_unit_id : Option String
  pub gaps : List String

pub record Context : Type 0 where
  pub status : String
  pub observed_at : String
  pub target_unit : String
  pub action : Action
  pub target_facts : Dict Fact
  pub service_facts : Dict Fact
  pub effect_units : List String
  pub effect_complete : Bool
  pub active_activation_sources : List String
  pub active_upholding_sources : List String
  pub management_units : List String
  pub management_complete : Bool
  pub connection_unit : Option String
  pub connection_unit_type : Option String
  pub agent_unit : Option String
  pub agent_complete : Bool
  pub agent_unit_type : Option String
  pub gaps : List String
  pub runtime_owner : Option RuntimeOwner
  pub observation_id : Option String

abbrev pub fact : Dict Fact → String → Fact
fact facts key = elim (lookup key facts) [ none ↦ null | some f ↦ f ]

-- `fact is True`, `fact is False`, `fact is None`
abbrev pub is_flag : Bool → Fact → Bool
is_flag true (flag true) = true
is_flag false (flag false) = true
is_flag _ _ = false

abbrev pub is_null : Fact → Bool
is_null null = true
is_null _ = false

-- `fact == name`, `fact in names`
abbrev pub is_text : String → Fact → Bool
is_text name f = elim f [ text t ↦ str_eq t name | _ ↦ false ]

abbrev pub is_one_of : List String → Fact → Bool
is_one_of names f = elim f [ text t ↦ contains names t | _ ↦ false ]

-- `bool(fact)`
abbrev pub is_truthy : Fact → Bool
is_truthy null = false
is_truthy (flag b) = b
is_truthy (text t) = not (str_eq t "")
is_truthy (other b) = b

-- `value == name`, `name in names` and `bool(value)` for an optional text
abbrev pub is_name : Option String → String → Bool
is_name none name = false
is_name (some n) name = str_eq n name

abbrev pub is_member : List String → Option String → Bool
is_member names none = false
is_member names (some n) = contains names n

abbrev pub is_named : Option String → Bool
is_named none = false
is_named (some n) = not (str_eq n "")

-- The closure meets the management path's units.
unfoldable pub touches_management : Context → Bool
touches_management c = any (contains c.effect_units) c.management_units

unfoldable pub management_status : Context → ProtectionStatus
unfolding touches_management
management_status c =
    if touches_management c
    then protected
    else if c.management_complete && c.effect_complete
    then clear
    else ProtectionStatus.unknown

unfoldable pub agent_status : Context → ProtectionStatus
agent_status c =
    if is_member c.effect_units c.agent_unit
    then protected
    else if c.agent_complete && c.effect_complete && is_named c.agent_unit
    then clear
    else ProtectionStatus.unknown

abbrev management_detail : ProtectionStatus → String
management_detail protected = "effect_closure_contains_management_path_unit"
management_detail clear = "effect_closure_disjoint_from_management_path_units"
management_detail ProtectionStatus.unknown = "management_path_effect_correlation_incomplete"

abbrev agent_detail : ProtectionStatus → String
agent_detail protected = "effect_closure_contains_localplane_agent_unit"
agent_detail clear = "effect_closure_disjoint_from_localplane_agent_unit"
agent_detail ProtectionStatus.unknown = "localplane_agent_effect_correlation_incomplete"

-- `() if status is not UNKNOWN else tuple(sorted(gaps or (unit,)))`
missing_for : ProtectionStatus → List String → String → List String
missing_for ProtectionStatus.unknown [] unit = unit ∷ []
missing_for ProtectionStatus.unknown (g ∷ gs) unit = sorted (g ∷ gs)
missing_for _ gaps unit = []

unfoldable pub management_reason : Context → ReasonAssessment
unfolding missing_for
management_reason c = record {
  reason = management_path;
  status = management_status c;
  detail = management_detail (management_status c);
  evidence_id = c.observation_id;
  observed_at = some c.observed_at;
  missing_evidence = missing_for (management_status c) c.gaps "management_path_unit";
}

unfoldable pub agent_reason : Context → ReasonAssessment
unfolding missing_for
agent_reason c = record {
  reason = localplane_agent;
  status = agent_status c;
  detail = agent_detail (agent_status c);
  evidence_id = c.observation_id;
  observed_at = some c.observed_at;
  missing_evidence = missing_for (agent_status c) c.gaps "localplane_agent_unit";
}

unfoldable pub assess_lifecycle_protection : Context → Option ProtectionAssessment
assess_lifecycle_protection c =
    let m = management_reason c in
    let a = agent_reason c in
    roll_up_protection (m ∷ a ∷ []) ManagementPathRelation.unknown
      (sorted (from_keys (m.missing_evidence ++ a.missing_evidence)))
