-- ===== src/Helper/Attempts.antt =====
-- src/localplane/helper/service.py: an attempt is made once, and the memory of attempts is bounded.
use local_plane.Prelude.{
  ◌≤◌, ◌≡◌, refl, ap, ◌∙◌, true, Option, none, some, List, [], ◌∷◌, length, arith,
}
use local_plane.Prelude.Dict.{lookup, insert}
use local_plane.Prelude.Dict.Keys
use local_plane.Helper.{
  attempt_memory, MtuRequest, MtuAnswer, HelperService, Return, returned, raised, answer_call,
  answer_attempt, set_interface_mtu, serve_requests,
}

module _ {R S : Type 0} (set_mtu : MtuRequest → S → Return R × S) where
  called_bounded :
      (q : MtuRequest) (called : Return R) (s : HelperService R S)
      → length s.attempts ≤ attempt_memory
      → length (answer_call q called s).1.attempts ≤ attempt_memory
  called_bounded q (returned r) s h =
      Keys.length-trim attempt_memory (insert q.attempt_id r s.attempts)
  called_bounded q raised s h = h

  answered_bounded :
      (q : MtuRequest) (s : HelperService R S) (o : Option R)
      → length s.attempts ≤ attempt_memory
      → length (answer_attempt set_mtu q s o).1.attempts ≤ attempt_memory
  answered_bounded q s (some r) h = h
  answered_bounded q s none h =
      let (called, setter) = set_mtu q s.setter in
      called_bounded q called record s { setter = setter } h

  -- From a helper that remembers at most 256 attempts, whatever is asked of it, it never remembers more.
  pub serve_requests-bounded :
      (qs : List MtuRequest) (s : HelperService R S)
      → length s.attempts ≤ attempt_memory
      → length (serve_requests set_mtu qs s).attempts ≤ attempt_memory
  unfolding serve_requests set_interface_mtu
  serve_requests-bounded [] s h = h
  serve_requests-bounded (q ∷ qs) s h =
      serve_requests-bounded qs (answer_attempt set_mtu q s (lookup q.attempt_id s.attempts)).1
        (answered_bounded q s (lookup q.attempt_id s.attempts) h)

  stored :
      (q : MtuRequest) (called : Return R) (s : HelperService R S) (a : MtuAnswer R)
      → lookup q.attempt_id s.attempts ≡ none
      → (answer_call q called s).0 ≡ returned a
      → lookup q.attempt_id (answer_call q called s).1.attempts ≡ some a.result
  stored q (returned r) s a e h =
      Keys.lookup-trim-insert q.attempt_id r 255 s.attempts
        (Keys.Absent-lookup q.attempt_id s.attempts e)
      ∙ ground (arith, h)
  stored q raised s a e h = absurd (ground (arith, h))

  remembered :
      (q : MtuRequest) (s : HelperService R S) (o : Option R) (a : MtuAnswer R)
      → lookup q.attempt_id s.attempts ≡ o
      → (answer_attempt set_mtu q s o).0 ≡ returned a
      → lookup q.attempt_id (answer_attempt set_mtu q s o).1.attempts ≡ some a.result
  remembered q s (some r) a e h = e ∙ ground (arith, h)
  remembered q s none a e h =
      let (called, setter) = set_mtu q s.setter in
      stored q called record s { setter = setter } a e h

  -- A request that is answered, followed by one with the same attempt, whatever else that one says, has the second
  -- answered with the first one's result, as replayed, and the helper is left as it is: the setter is not called again.
  pub set_interface_mtu-replays :
      (q q' : MtuRequest) (s : HelperService R S) (a : MtuAnswer R)
      → q'.attempt_id ≡ q.attempt_id
      → (set_interface_mtu set_mtu q s).0 ≡ returned a
      → set_interface_mtu set_mtu q' (set_interface_mtu set_mtu q s).1 ≡ (
        returned (record { result = a.result; replayed = true }),
        (set_interface_mtu set_mtu q s).1,
      )
  unfolding set_interface_mtu
  set_interface_mtu-replays q q' s a e h =
      let s' = (answer_attempt set_mtu q s (lookup q.attempt_id s.attempts)).1 in
      ap (answer_attempt set_mtu q' s') (
        ap (λ i. lookup i s'.attempts) e ∙ remembered q s (lookup q.attempt_id s.attempts) a refl h)
