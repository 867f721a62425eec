-- ===== src/Tests/Networks.antt =====
-- The toy server and its connections.
use aleo_pool_server.Prelude.{
  ◌≡◌, refl, List, [], ◌∷◌, none, some, true, false, done, split, ◌%◌, u32_mod, length,
}
use native.Mathlib.Decide.{ℕ_discrete as dec}
use aleo_pool_server.Map.{get, insert, remove, contains, set_insert}
use aleo_pool_server.Server.{Server, Effect, init, prover_authenticated, prover_disconnected}
use aleo_pool_server.Server.Connections.{connect, authenticate, disconnect, add_connection}
use aleo_pool_server.Server.Connections.Listing.{is_some}
use aleo_pool_server.Server.Connections.Consistency.{IsConsistent}
use aleo_pool_server.Server.Dispatch.{process_message, address_prover_count, online_provers}
use aleo_pool_server.Server.Dispatch.Reachable.{Reaches}
use aleo_pool_server.Server.Dispatch.Counts.{peers_at, Reaches-counts}
use aleo_pool_server.Server.Dispatch.Reachable
use aleo_pool_server.Connection.{
  run, handshake, protocol, is_unsupported, subscribed, authorize_peer, loop, step,
}
use aleo_pool_server.Connection.Session.{requests}
use aleo_pool_server.Network.{Connections, advance, Serves, starts, accepts, handles}
use aleo_pool_server.Network.Invariant.{IsGone, Serves-handles, Serves-IsGone}
use aleo_pool_server.Network.Reordered.{stays, reordered_leak}
use aleo_pool_server.Tests.Sessions.{hello, login, happenings}
use aleo_pool_server.Tests.Submissions.{toy-IsSized}
use aleo_pool_server.Tests.Toy.{toy, wire}

abbrev accepted : Server toy
accepted = (connect toy (init toy 0 7) 1).0

abbrev connections : Connections toy
connections =
    insert dec 1 (requests toy (run toy wire 1 "pool" 11 true hello true login 100 happenings)) []

accepted-Serves : Serves toy wire accepted connections
unfolding process_message get
accepted-Serves =
    accepts 50 100 (init toy 0 7) accepted [] 1 "pool" 11 true true hello login happenings
      (connect toy (init toy 0 7) 1).1 (starts 0 7) refl refl

next_message :
    get dec 1 connections ≡ some (prover_authenticated 1 70 11 ∷ prover_disconnected 1 ∷ [])
unfolding get insert run handshake protocol is_unsupported subscribed authorize_peer loop step dec
    split
next_message = refl

Serves-handles_example :
    IsConsistent toy accepted
    × (t : Server toy) × (es : List (Effect toy)) × (process_message toy 200 accepted
          (prover_authenticated 1 70 11)
        ≡ done (t, es))
    × Serves toy wire t
        (advance toy 1 (prover_authenticated 1 70 11) (prover_disconnected 1 ∷ []) connections)
Serves-handles_example =
    Serves-handles toy wire 200 accepted connections 1 (prover_authenticated 1 70 11)
      (prover_disconnected 1 ∷ []) toy-IsSized accepted-Serves next_message tt

-- the connection of the peer 1 is authenticated and ends
abbrev entered : Server toy
entered = (authenticate toy 200 accepted 1 70 11).0

abbrev closing : Connections toy
closing = advance toy 1 (prover_authenticated 1 70 11) (prover_disconnected 1 ∷ []) connections

abbrev ended : Connections toy
ended = advance toy 1 (prover_disconnected 1) [] closing

last_message : get dec 1 closing ≡ some (prover_disconnected 1 ∷ [])
unfolding get insert advance dec
last_message = refl

ended-Serves : Serves toy wire (disconnect toy entered 1) ended
unfolding process_message
ended-Serves =
    handles 300 entered (disconnect toy entered 1) closing 1 (prover_disconnected 1) [] []
      (handles 200 accepted entered connections 1 (prover_authenticated 1 70 11)
        (prover_disconnected 1 ∷ []) (authenticate toy 200 accepted 1 70 11).1 accepted-Serves
        next_message tt refl)
      last_message tt refl

none_open : get dec 1 ended ≡ none
unfolding get advance remove insert dec
none_open = refl

Serves-IsGone_example : IsGone toy (disconnect toy entered 1) 1
Serves-IsGone_example =
    Serves-IsGone toy wire (disconnect toy entered 1) ended 1 toy-IsSized ended-Serves none_open

reordered_leak_example :
    let u = (authenticate toy 100 (disconnect toy (init toy 0 7) 1) 1 70 11).0 in
    (is_some (get dec 1 u.authenticated_provers) ≡ true)
    × (is_some (get dec 1 u.prover_states) ≡ true)
    × (contains dec 1 u.connected_provers ≡ false)
reordered_leak_example =
    reordered_leak toy 100 (init toy 0 7)
      (authenticate toy 100 (disconnect toy (init toy 0 7) 1) 1 70 11).0 1 70 11 toy-IsSized
      (Reachable.starts 0 7) stays

-- two provers of one address
abbrev one : Server toy
one = (authenticate toy 100 (init toy 0 7) 1 70 11).0

abbrev both : Server toy
both = (authenticate toy 200 one 2 70 12).0

both-Reaches : Reaches toy both
unfolding process_message authenticate get insert init dec
both-Reaches =
    Reachable.handles 200 one both (prover_authenticated 2 70 12)
      (authenticate toy 200 one 2 70 12).1
      (Reachable.handles 100 (init toy 0 7) one (prover_authenticated 1 70 11)
        (authenticate toy 100 (init toy 0 7) 1 70 11).1 (Reachable.starts 0 7) refl refl)
      refl refl

-- so there are two provers of the address
both_count : address_prover_count toy both 70 ≡ 2
unfolding address_prover_count authenticate add_connection get insert set_insert init dec
both_count = refl

Reaches-counts_example :
    (address_prover_count toy both 70 ≡ length (peers_at toy 70 both.prover_states) % u32_mod)
    × (online_provers toy both ≡ length both.prover_states % u32_mod)
Reaches-counts_example = Reaches-counts toy both 70 toy-IsSized both-Reaches
