-- ===== src/Server/Dispatch/Reachable.antt =====
-- The states that the server reaches, by messages in any order and by the clearing of the nonces.
use aleo_pool_server.Prelude.{ℕ, ◌≡◌, refl, List, arith, done, subst}
use aleo_pool_server.Map.{get}
use aleo_pool_server.Speedometer
use aleo_pool_server.World.{World}
use aleo_pool_server.Server.{Server, ServerMessage, Effect, init}
use aleo_pool_server.Server.Pool
use aleo_pool_server.Server.Connections.Listing.{is_listed, has_address}
use aleo_pool_server.Server.Connections.Consistency.{IsConsistent}
use aleo_pool_server.Server.Submit.{clear_nonce}
use aleo_pool_server.Server.Submit.Cases.{Runs-unique}
use aleo_pool_server.Server.Submit.Totality.{IsSized}
use aleo_pool_server.Server.Dispatch.{process_message}
use aleo_pool_server.Server.Dispatch.Invariant.{
  IsServing, IsExpected, process_message-IsServing, Keeps-IsServing,
}

module _ (w : World) where
  open w use {Address}

  pub data Reaches : Server w → Type 0 where
    starts : (now : ℕ) (address : Address) → Reaches (init w now address)
    handles :
        (now : ℕ) (s t : Server w) (request : ServerMessage w) (es : List (Effect w))
        → Reaches s
        → IsExpected w s request
        → process_message w now s request ≡ done (t, es)
        → Reaches t
    clears : (s : Server w) → Reaches s → Reaches (clear_nonce s)

  init-IsServing : (now : ℕ) (address : Address) → IsServing w (init w now address)
  unfolding init Pool.new Speedometer.init get is_listed has_address
  init-IsServing now address = record {
    consistent = record {
      paired = λ p. refl;
      grouped = λ a p. refl;
      occupied = λ a h. ground arith;
    };
    metered = λ p state e. ground arith;
    pool_metered = refl;
  }

  pub Reaches-IsServing : {s : Server w} → IsSized w → Reaches s → IsServing w s
  unfolding clear_nonce
  Reaches-IsServing z (starts now address) = init-IsServing now address
  Reaches-IsServing z (handles now s t request es r x run) =
      let (t', es', e, v) = process_message-IsServing w now s request z (Reaches-IsServing z r) x in
      subst (IsServing w) (Runs-unique w _ t' t es' es e run).0 v
  Reaches-IsServing z (clears s r) =
      Keeps-IsServing w s _ (Reaches-IsServing z r) refl refl refl (λ q. refl)

  -- If block hashes, addresses and digests have 32 bytes, then in every state that the server reaches
  -- from its start, by messages in any order and by clearing the nonces, where no peer that has a state
  -- was authenticated again and no submitted commitment hashed to 0, the tables are consistent, and the
  -- next such message does not panic.
  pub Reaches-process_message :
      (now : ℕ) (s : Server w) (request : ServerMessage w)
      → IsSized w
      → Reaches s
      → IsExpected w s request
      → IsConsistent w s
        × (t : Server w) × (es : List (Effect w)) × (process_message w now s request ≡ done (t, es))
        × Reaches t
  Reaches-process_message now s request z r x =
      let v = Reaches-IsServing z r in
      let (t, es, e, _) = process_message-IsServing w now s request z v x in
      (v.consistent, t, es, e, handles now s t request es r x e)
