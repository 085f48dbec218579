-- ===== src/ManagementPath/Observed.antt =====
-- src/localplane/backend/management_path.py (`observed_addresses`, `_canonical`): what the host's interfaces were seen to
-- carry. The rows of the database are an argument, in their order.
use local_plane.Prelude.{
  ℕ, ◌≡◌, refl, sym, ap, ◌∙◌, String, Bool, false, Option, none, some, List, [], ◌∷◌, ◌++◌, ◌==◌,
  if◌then◌else◌, str_eq, contains, sorted, from_keys, append-nil, append-append, eq_iff, Bool-cases,
  inl, inr, arith,
}
use local_plane.Prelude.Dict.{Dict, lookup, insert, lookup-insert}
use local_plane.Prelude.Ascending.{Ascending, sorted-from_keys-Ascending, contains-sorted-from_keys}
use local_plane.ManagementPath.{ParsedIp, unmapped}
use local_plane.ManagementPath.Derive.{derive_freshness, is_current, ObservedAddresses, or_empty}

-- `facts.get("ifindex")` where it is an `int`, and the addresses that are texts
pub record InterfaceFacts : Type 0 where
  pub observed_at : String
  pub ifindex : Option ℕ
  pub addresses : List String

pub record InterfaceRow : Type 0 where
  pub object_id : String
  pub observation : Option InterfaceFacts

-- `by_address.setdefault(canonical, []).append(object_id)`
abbrev pub append_at : String → String → Dict (List String) → Dict (List String)
append_at key id d = insert key (or_empty (lookup key d) ++ (id ∷ [])) d

unfoldable pub append_index : ℕ → String → List (ℕ × List String) → List (ℕ × List String)
append_index i id [] = (i, id ∷ []) ∷ []
append_index i id ((j, ids) ∷ rest) =
    if j == i then (j, ids ++ (id ∷ [])) ∷ rest else (j, ids) ∷ append_index i id rest

-- `tuple(sorted(set(ids)))`
abbrev pub sorted_set : List String → List String
sorted_set ids = sorted (from_keys ids)

abbrev pub sorted_sets : Dict (List String) → Dict (List String)
sorted_sets [] = []
sorted_sets ((key, ids) ∷ d) = (key, sorted_set ids) ∷ sorted_sets d

abbrev pub sorted_index_sets : List (ℕ × List String) → List (ℕ × List String)
sorted_index_sets [] = []
sorted_index_sets ((i, ids) ∷ d) = (i, sorted_set ids) ∷ sorted_index_sets d

module _ (parse_ip : String → Option ParsedIp) where
  abbrev pub canonical_of : Option ParsedIp → Option String
  canonical_of none = none
  canonical_of (some p) = some (unmapped p p.ipv4_mapped).written

  abbrev pub add_canonical : String → Option String → Dict (List String) → Dict (List String)
  add_canonical id none d = d
  add_canonical id (some key) d = append_at key id d

  unfoldable pub add_addresses : String → List String → Dict (List String) → Dict (List String)
  add_addresses id [] d = d
  add_addresses id (a ∷ as') d =
      add_addresses id as' (add_canonical id (canonical_of (parse_ip a)) d)

  abbrev pub add_row_addresses :
      String → Option InterfaceFacts → Dict (List String) → Dict (List String)
  add_row_addresses id none d = d
  add_row_addresses id (some facts) d = add_addresses id facts.addresses d

  unfoldable pub by_address_of : List InterfaceRow → Dict (List String) → Dict (List String)
  by_address_of [] d = d
  by_address_of (row ∷ rows) d =
      by_address_of rows (add_row_addresses row.object_id row.observation d)

abbrev pub add_index : String → Option ℕ → List (ℕ × List String) → List (ℕ × List String)
add_index id none d = d
add_index id (some i) d = append_index i id d

abbrev pub add_row_index :
    String → Option InterfaceFacts → List (ℕ × List String) → List (ℕ × List String)
add_row_index id none d = d
add_row_index id (some facts) d = add_index id facts.ifindex d

unfoldable pub by_index_of : List InterfaceRow → List (ℕ × List String) → List (ℕ × List String)
by_index_of [] d = d
by_index_of (row ∷ rows) d = by_index_of rows (add_row_index row.object_id row.observation d)

module _ (read_moment : String → Option ℕ) (now ttl : ℕ) where
  abbrev pub stale_row : String → Option InterfaceFacts → List String → List String
  stale_row id none rest = rest
  stale_row id (some facts) rest =
      if is_current (derive_freshness (read_moment facts.observed_at) ttl now).0
      then rest
      else id ∷ rest

  unfoldable pub stale_of : List InterfaceRow → List String
  stale_of [] = []
  stale_of (row ∷ rows) = stale_row row.object_id row.observation (stale_of rows)

  unfoldable pub observed_addresses :
      (String → Option ParsedIp) → List InterfaceRow → ObservedAddresses
  observed_addresses parse_ip rows = record {
    by_address = sorted_sets (by_address_of parse_ip rows []);
    by_index = sorted_index_sets (by_index_of rows []);
    stale_resources = stale_of rows;
  }

-- The interfaces whose addresses say so, once for each time
module _ (parse_ip : String → Option ParsedIp) (key : String) where
  abbrev is_key : Option String → Bool
  is_key none = false
  is_key (some k) = str_eq k key

  abbrev pub mentions : String → List String → List String
  mentions id [] = []
  mentions id (a ∷ as') =
      (if is_key (canonical_of parse_ip (parse_ip a)) then id ∷ [] else []) ++ mentions id as'

  abbrev pub row_mentions : String → Option InterfaceFacts → List String
  row_mentions id none = []
  row_mentions id (some facts) = mentions id facts.addresses

  unfoldable pub carriers : List InterfaceRow → List String
  carriers [] = []
  carriers (row ∷ rows) = row_mentions row.object_id row.observation ++ carriers rows

  -- The interfaces under a key so far
  abbrev under : Dict (List String) → List String
  under d = or_empty (lookup key d)

  under-append_at :
      (k id : String) (d : Dict (List String))
      → under (append_at k id d) ≡ under d ++ (if str_eq k key then id ∷ [] else [])
  under-append_at k id d =
      ap or_empty (lookup-insert k key (or_empty (lookup k d) ++ (id ∷ [])) d)
      ∙ elim (Bool-cases (str_eq k key)) [
        | inl e ↦
            let same : k ≡ key = ground (arith, e, eq_iff k key) in
            ap
              (λ b.
                or_empty (if b then some (or_empty (lookup k d) ++ (id ∷ [])) else lookup key d))
              e
            ∙ ap (λ j. or_empty (lookup j d) ++ (id ∷ [])) same
            ∙ ap (λ b. under d ++ (if b then id ∷ [] else [])) (sym e)
        | inr e ↦
            ap
              (λ b.
                or_empty (if b then some (or_empty (lookup k d) ++ (id ∷ [])) else lookup key d))
              e
            ∙ sym (append-nil (under d))
            ∙ ap (λ b. under d ++ (if b then id ∷ [] else [])) (sym e)
      ]

  under-add_canonical :
      (id : String) (o : Option String) (d : Dict (List String))
      → under (add_canonical parse_ip id o d) ≡ under d ++ (if is_key o then id ∷ [] else [])
  under-add_canonical id none d = sym (append-nil (under d))
  under-add_canonical id (some k) d = under-append_at k id d

  under-add_addresses :
      (id : String) (as' : List String) (d : Dict (List String))
      → under (add_addresses parse_ip id as' d) ≡ under d ++ mentions id as'
  unfolding add_addresses
  under-add_addresses id [] d = sym (append-nil (under d))
  under-add_addresses id (a ∷ as') d =
      under-add_addresses id as' (add_canonical parse_ip id (canonical_of parse_ip (parse_ip a)) d)
      ∙ ap (λ ids. ids ++ mentions id as')
          (under-add_canonical id (canonical_of parse_ip (parse_ip a)) d)
      ∙ append-append (under d) _ (mentions id as')

  under-add_row :
      (id : String) (o : Option InterfaceFacts) (d : Dict (List String))
      → under (add_row_addresses parse_ip id o d) ≡ under d ++ row_mentions id o
  under-add_row id none d = sym (append-nil (under d))
  under-add_row id (some facts) d = under-add_addresses id facts.addresses d

  under-by_address_of :
      (rows : List InterfaceRow) (d : Dict (List String))
      → under (by_address_of parse_ip rows d) ≡ under d ++ carriers rows
  unfolding by_address_of carriers
  under-by_address_of [] d = sym (append-nil (under d))
  under-by_address_of (row ∷ rows) d =
      under-by_address_of rows (add_row_addresses parse_ip row.object_id row.observation d)
      ∙ ap (λ ids. ids ++ carriers rows) (under-add_row row.object_id row.observation d)
      ∙ append-append (under d) _ (carriers rows)

  under-sorted_sets : (d : Dict (List String)) → under (sorted_sets d) ≡ sorted_set (under d)
  unfolding lookup sorted from_keys
  under-sorted_sets [] = refl
  under-sorted_sets ((k, ids) ∷ d) = elim (Bool-cases (str_eq k key)) [
    | inl e ↦ ground (arith, e)
    | inr e ↦ ground (arith, e, under-sorted_sets d)
  ]

  -- Under an address stand, in strictly ascending order and so once each, exactly the interfaces that were seen with a
  -- text that is read as that address.
  pub observed_addresses-carriers :
      (read_moment : String → Option ℕ) (now ttl : ℕ) (rows : List InterfaceRow)
      → Ascending
          (or_empty (lookup key (observed_addresses read_moment now ttl parse_ip rows).by_address))
        × ((id : String)
            → contains
                (or_empty
                  (lookup key (observed_addresses read_moment now ttl parse_ip rows).by_address))
                id
              ≡ contains (carriers rows) id)
  unfolding observed_addresses lookup
  observed_addresses-carriers read_moment now ttl rows =
      let same =
        under-sorted_sets (by_address_of parse_ip rows [])
        ∙ ap sorted_set (under-by_address_of rows []) in
      (
        rw same (sorted-from_keys-Ascending (carriers rows)),
        λ id. ap (λ ids. contains ids id) same ∙ contains-sorted-from_keys id (carriers rows),
      )
