-- ===== src/Helper/Service/Once.antt =====
-- src/localplane/helper/service.py: which message sends a mutating frame.
use local_plane.Prelude.{
  ◌≡◌, refl, ap, ◌∙◌, ◌⊎◌, inl, inr, String, Bool, true, false, Option, none, some, List, ◌∷◌,
  str_eq, if◌then◌else◌, arith, eq_iff,
}
use local_plane.Prelude.Dict.{Dict, lookup}
use local_plane.Helper.{
  MtuRequest, HelperService, Return, returned, raised, answer_call, answer_attempt,
  set_interface_mtu,
}
use local_plane.Helper.Struct.{Bytes}
use local_plane.Helper.Netlink.{Platform}
use local_plane.Helper.Setter.{MutationResult, Exchange, Setter, set_mtu}
use local_plane.Helper.Setter.Outcomes.{Mutated, set_mtu-Did}
use local_plane.Helper.Params.{Param, Checked, accepted, rejected, read_params}
use local_plane.Helper.Service.{
  hello, unsupported_method, call_of, call_set_mtu, handle_checked, handle_message, set_mtu_method,
}

module _ (platform : Platform) {W : Type 0} (socket : Bytes → W → Exchange × W) where
  -- A mutating exchange of a request whose attempt is not remembered.
  abbrev pub FirstSent :
      MtuRequest → HelperService MutationResult (Setter W) → List (Bytes × Exchange) → Type 0
  FirstSent q s mutations =
      (lookup q.attempt_id s.attempts ≡ none)
      × ((request : Bytes) × (run : Exchange) × (mutations ≡ (request, run) ∷ s.setter.mutations)
          × Mutated platform socket q s.setter request run)

  answer_call-same :
      (q : MtuRequest) (c : Return MutationResult) (s : HelperService MutationResult (Setter W))
      → (answer_call q c s).1.setter ≡ s.setter
  answer_call-same q (returned r) s = refl
  answer_call-same q raised s = refl

  attempted :
      (q : MtuRequest) (s : HelperService MutationResult (Setter W)) (o : Option MutationResult)
      → lookup q.attempt_id s.attempts ≡ o
      → let s' = (answer_attempt (call_set_mtu platform socket) q s o).1 in
        (s'.setter.mutations ≡ s.setter.mutations) ⊎ FirstSent q s s'.setter.mutations
  unfolding call_set_mtu
  attempted q s (some r) e = inl refl
  attempted q s none e =
      let setter = (set_mtu platform socket q s.setter).1 in
      let same =
        ap (λ t. t.mutations)
          (answer_call-same q (call_of (set_mtu platform socket q s.setter).0)
            record s { setter = setter }) in
      elim (set_mtu-Did platform socket q s.setter) [
        | inl (kept, _) ↦ inl (same ∙ kept)
        | inr (request, run, made, mutated, _) ↦ inr (e, (request, run, same ∙ made, mutated))
      ]

  checked :
      (p : Checked MtuRequest) (s : HelperService MutationResult (Setter W))
      → let s' = (handle_checked platform socket p s).1 in
        (s'.setter.mutations ≡ s.setter.mutations)
        ⊎ ((q : MtuRequest) × (p ≡ accepted q) × FirstSent q s s'.setter.mutations)
  unfolding set_interface_mtu
  checked (rejected r) s = inl refl
  checked (accepted q) s = elim (attempted q s (lookup q.attempt_id s.attempts) refl) [
    | inl kept ↦ inl kept
    | inr sent ↦ inr (q, refl, sent)
  ]

  by_method :
      (method : String) (params : Dict Param) (s : HelperService MutationResult (Setter W))
      (b c : Bool)
      → (c ≡ true → method ≡ set_mtu_method)
      → let s' =
          (if b
            then (hello, s)
            else if c
            then handle_checked platform socket (read_params params) s
            else (unsupported_method, s)).1 in
        (s'.setter.mutations ≡ s.setter.mutations)
        ⊎ ((q : MtuRequest) × (method ≡ set_mtu_method)
            × (read_params params ≡ accepted q)
            × FirstSent q s s'.setter.mutations)
  by_method method params s true c e = inl refl
  by_method method params s false false e = inl refl
  by_method method params s false true e = elim (checked (read_params params) s) [
    | inl kept ↦ inl kept
    | inr (q, accepted_as, sent) ↦ inr (q, e refl, accepted_as, sent)
  ]

  -- A message to the helper either sends no mutating frame, or it is a `network.interface.set_mtu` whose parameters are
  -- accepted, whose attempt the helper does not remember, and it sends exactly one, under the setter's conditions.
  pub handle_message-FirstSent :
      (method : String) (params : Dict Param) (s : HelperService MutationResult (Setter W))
      → let s' = (handle_message platform socket method params s).1 in
        (s'.setter.mutations ≡ s.setter.mutations)
        ⊎ ((q : MtuRequest) × (method ≡ set_mtu_method)
            × (read_params params ≡ accepted q)
            × FirstSent q s s'.setter.mutations)
  unfolding handle_message
  handle_message-FirstSent method params s =
      by_method method params s (str_eq method "helper.hello") (str_eq method set_mtu_method)
        (λ h. ground (arith, h, eq_iff method set_mtu_method))
