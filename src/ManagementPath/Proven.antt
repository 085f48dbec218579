-- ===== src/ManagementPath/Proven.antt =====
-- src/localplane/backend/domain/management_path.py: a resource carries the management path where the evidence proves it.
use mathlib.Core.Path.{subst}
use local_plane.Prelude.{
  ℕ, ◌≡◌, ◌≢◌, ◌↔◌, inl, inr, refl, sym, ap, ◌∙◌, String, true, not, Option, none, some, List,
  if◌then◌else◌, str_eq, eq_iff, eq_refl, Bool-cases, Option-cases, arith,
}
use local_plane.Prelude.Dict.{lookup}
use local_plane.Protection.{path_relation, not_on_management_path}
use local_plane.ManagementPath.{TransportEvidence, reason_text, context_mismatch, evidence_stale}
use local_plane.ManagementPath.Matching.{
  OfConnection, IsRecent, matches-OfConnection_iff, derive_freshness-IsRecent_iff,
}
use local_plane.ManagementPath.Derive.{
  Freshness, current, stale, never_observed, derive_freshness, is_current, PathObservation,
  ObservedAddresses, matches, or_empty, unresolved_by, unresolved, carried_by, judge_observed,
  judge_transport, derive_management_path,
}
use local_plane.ManagementPath.Carried.{Carries, carried_by_iff}

is_current-eq : (age : Freshness) → is_current age ≡ true → age ≡ current
is_current-eq current h = refl
is_current-eq stale h = absurd (ground (arith, h))
is_current-eq never_observed h = absurd (ground (arith, h))

judged_by :
    (o : PathObservation) (transport : TransportEvidence) (host_id : String)
    (observed : ObservedAddresses) (age : Freshness) (endpoints : List String)
    → matches o transport host_id ≡ true
    → is_current age ≡ true
    → (if not (matches o transport host_id)
        then unresolved_by (reason_text context_mismatch) none none
        else if not (is_current age)
        then unresolved o evidence_stale
        else carried_by o observed endpoints).resource_id
      ≡ (carried_by o observed endpoints).resource_id
judged_by o transport host_id observed age endpoints h k = ground (arith, h, k)

module _ (read_moment : String → Option ℕ) (transport : TransportEvidence) (host_id : String)
    (observation : Option PathObservation) (observed : ObservedAddresses) (now ttl : ℕ) where
  -- The evidence proves that a resource carries the connection of the request.
  abbrev pub Proves : String → Type 0
  Proves r =
      (transport.unusable_reason ≡ none)
      × ((o : PathObservation) × (observation ≡ some o)
          × OfConnection o transport host_id
          × IsRecent (read_moment o.observed_at) ttl now
          × Carries o observed r)

  judge_observed_iff :
      (r : String) (seen : Option PathObservation)
      → ((judge_observed read_moment transport host_id seen observed now ttl).resource_id ≡ some r)
        ↔ ((o : PathObservation) × (seen ≡ some o)
            × (matches o transport host_id ≡ true)
            × ((derive_freshness (read_moment o.observed_at) ttl now).0 ≡ current)
            × Carries o observed r)
  judge_observed_iff r none = (λ h. absurd (ground (arith, h)), λ h. absurd (ground (arith, h.1)))
  judge_observed_iff r (some o) =
      let age = (derive_freshness (read_moment o.observed_at) ttl now).0 in
      let endpoints = or_empty (lookup o.local_endpoint_address observed.by_address) in
      let (to, from) = carried_by_iff o observed r endpoints in
      (
        λ h. elim (Bool-cases (matches o transport host_id)) [
          | inr e ↦ absurd (ground (arith, h, e))
          | inl e ↦ elim (Bool-cases (is_current age)) [
            | inr e' ↦ absurd (ground (arith, h, e, e'))
            | inl e' ↦ (
              o,
              refl,
              e,
              is_current-eq age e',
              to (sym (judged_by o transport host_id observed age endpoints e e') ∙ h),
            )
          ]
        ],
        λ h.
            let (o', same, matched, fresh, carries) = h in
            let one : o' ≡ o = ground (arith, same) in
            let matched' = subst (λ p. matches p transport host_id ≡ true) one matched in
            let fresh' =
              subst (λ p. (derive_freshness (read_moment p.observed_at) ttl now).0 ≡ current) one
                fresh in
            judged_by o transport host_id observed age endpoints matched' (ap is_current fresh')
            ∙ from (subst (λ p. Carries p observed r) one carries),
      )

  judge_transport_iff :
      (r : String) (reason : Option String)
      → ((judge_transport read_moment transport reason host_id observation observed now
            ttl).resource_id
          ≡ some r)
        ↔ ((reason ≡ none)
            × ((judge_observed read_moment transport host_id observation observed now
                  ttl).resource_id
                ≡ some r))
  judge_transport_iff r (some reason) =
      (λ h. absurd (ground (arith, h)), λ h. absurd (ground (arith, h.0)))
  judge_transport_iff r none = (λ h. (refl, h), λ h. h.1)

  -- The verdict names a resource exactly when the evidence proves it: the connection's ends are usable, the observation is
  -- of the same connection on the same host and is current, the connection's own end is carried by that resource
  -- alone, the route back was resolved and leaves by that resource alone, and the resource was not seen too long ago.
  pub derive_management_path-Proves_iff :
      (r : String)
      → ((derive_management_path read_moment transport host_id observation observed now
            ttl).resource_id
          ≡ some r)
        ↔ Proves r
  unfolding derive_management_path
  derive_management_path-Proves_iff r =
      let (to, from) = judge_transport_iff r transport.unusable_reason in
      let (to', from') = judge_observed_iff r observation in
      (
        λ h.
            let (usable, found) = to h in
            let (o, same, matched, fresh, carries) = to' found in
            (
              usable,
              (
                o,
                same,
                (matches-OfConnection_iff o transport host_id).0 matched,
                (derive_freshness-IsRecent_iff (read_moment o.observed_at) ttl now).0 fresh,
                carries,
              ),
            ),
        λ h.
            let (o, same, of_connection, recent, carries) = h.1 in
            from (
              h.0,
              from' (
                o,
                same,
                (matches-OfConnection_iff o transport host_id).1 of_connection,
                (derive_freshness-IsRecent_iff (read_moment o.observed_at) ttl now).1 recent,
                carries,
              ),
            ),
      )

  -- A resource is said to be off the management path exactly when the evidence proves that another resource carries it: a
  -- path that is not proven makes no resource safe to change.
  pub derive_management_path-off_iff :
      (id : String)
      → (path_relation
            (derive_management_path read_moment transport host_id observation observed now ttl)
            id
          ≡ not_on_management_path)
        ↔ ((r : String) × (r ≢ id) × Proves r)
  unfolding path_relation
  derive_management_path-off_iff id =
      let verdict =
        derive_management_path read_moment transport host_id observation observed now ttl in
      (
        λ h. elim (Option-cases verdict.resource_id) [
          | inl e ↦ absurd (ground (arith, h, e))
          | inr (r, e) ↦ (
            r,
            λ same. ground (arith, h, e, ap (str_eq r) same, eq_refl r, same),
            (derive_management_path-Proves_iff r).0 e,
          )
        ],
        λ h.
            let (r, other, proved) = h in
            let e = (derive_management_path-Proves_iff r).1 proved in
            ground (arith, e, other, eq_iff r id),
      )
