-- ===== src/Examples/Helpers.antt =====
-- The privileged helper at concrete requests (src/localplane/helper/service.py).
use local_plane.Prelude.{ℕ, ◌+◌, ◌≤◌, ◌≡◌, refl, true, false, none, [], ◌∷◌, length, arith}
use local_plane.Prelude.Dict.{lookup}
use local_plane.Helper.{
  attempt_memory, MtuRequest, HelperService, Return, returned, set_interface_mtu, serve_requests,
}
use local_plane.Helper.Attempts.{serve_requests-bounded, set_interface_mtu-replays}

-- The setter answers with the number of its call.
abbrev count_calls : MtuRequest → ℕ → Return ℕ × ℕ
count_calls q n = (returned n, n + 1)

abbrev jumbo : MtuRequest
jumbo = record {
  attempt_id = "a1";
  ifindex = 2;
  expected_current_mtu = 1500;
  desired_mtu = 9000;
  expected_interface_name = none;
}

abbrev new_helper : HelperService ℕ ℕ
new_helper = record { attempts = []; setter = 0 }

serve_requests-bounded_example :
    length (serve_requests count_calls (jumbo ∷ jumbo ∷ []) new_helper).attempts ≤ attempt_memory
serve_requests-bounded_example =
    serve_requests-bounded count_calls (jumbo ∷ jumbo ∷ []) new_helper (omega arith)

set_interface_mtu-replays_example :
    set_interface_mtu count_calls jumbo (set_interface_mtu count_calls jumbo new_helper).1 ≡ (
      returned (record { result = 0; replayed = true }),
      (set_interface_mtu count_calls jumbo new_helper).1,
    )
unfolding set_interface_mtu lookup
set_interface_mtu-replays_example =
    set_interface_mtu-replays count_calls jumbo jumbo new_helper
      (record { result = 0; replayed = false }) refl refl
