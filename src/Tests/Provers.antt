-- ===== src/Tests/Provers.antt =====
-- Connections of the toy server.
use aleo_pool_server.Prelude.{◌≡◌, refl, none, some, arith, true, false, ite}
use native.Mathlib.Decide.{ℕ_discrete as dec}
use aleo_pool_server.Map.{get, contains}
use aleo_pool_server.Server.Connections.{authenticate, disconnect}
use aleo_pool_server.Server.Connections.Listing.{is_listed, has_address}
use aleo_pool_server.Server.Connections.Consistency.{
  IsConsistent, disconnect_lem, authenticate_again_leak,
}
use aleo_pool_server.Tests.Toy.{toy, server, prover}

server-IsConsistent : IsConsistent toy server
unfolding get is_listed has_address contains
server-IsConsistent = record {
  paired = λ p. ground arith;
  grouped = λ a p. ground arith;
  occupied = λ a. ground arith;
}

-- the third peer is new
third_new : get dec 3 server.prover_states ≡ none
unfolding get dec
third_new = refl

disconnect_lem_example :
    let t = disconnect toy server 1 in
    (contains dec 2 t.connected_provers
      ≡ ite (dec 1 2) false (contains dec 2 server.connected_provers))
    × (get dec 2 t.authenticated_provers
        ≡ ite (dec 1 2) none (get dec 2 server.authenticated_provers))
    × (get dec 2 t.prover_states ≡ ite (dec 1 2) none (get dec 2 server.prover_states))
    × (is_listed toy t.prover_address_connections 70 2
        ≡ ite (dec 1 2) false (is_listed toy server.prover_address_connections 70 2))
disconnect_lem_example = disconnect_lem toy server 1 2 70 server-IsConsistent

first_known : get dec 1 server.prover_states ≡ some (prover 1 70)
unfolding get dec
first_known = refl

authenticate_again_leak_example :
    let t = disconnect toy (authenticate toy 100 server 1 71 11).0 1 in
    (get dec 1 t.prover_states ≡ none) × (is_listed toy t.prover_address_connections 70 1 ≡ true)
authenticate_again_leak_example =
    authenticate_again_leak toy server 100 1 71 11 (prover 1 70) server-IsConsistent first_known
      (omega arith)
