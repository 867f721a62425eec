-- ===== src/Server/Dispatch/Invariant.antt =====
-- What every message to the server keeps: consistent tables, and speedometers that can be read.
use aleo_pool_server.Prelude.{
  ℕ, ◌≡◌, refl, sym, ap, ◌∙◌, Bool, false, List, [], ◌∷◌, Option, none, some, arith, done,
  Option-cases, inl, inr, subst,
}
use aleo_pool_server.Map.{Map, get, insert}
use aleo_pool_server.Map.Laws.{get-insert, get-remove}
use aleo_pool_server.Speedometer
use aleo_pool_server.World.{World}
use aleo_pool_server.Server.{
  Server, ServerMessage, prover_connected, prover_authenticated, prover_disconnected, prover_submit,
  new_epoch_challenge, exit, Effect,
}
use aleo_pool_server.Server.Pool
use aleo_pool_server.Server.Prover
use aleo_pool_server.Server.Prover.{ProverState}
use aleo_pool_server.Server.Connections.{connect, authenticate, disconnect}
use aleo_pool_server.Server.Connections.Listing.{is_some, is_listed, has_address}
use aleo_pool_server.Server.Connections.Consistency.{
  IsConsistent, authenticate-IsConsistent, disconnect-IsConsistent,
}
use aleo_pool_server.Server.Epoch.{inform, inform_all, replace_challenge, update_target, new_epoch}
use aleo_pool_server.Server.Submit.{Submission}
use aleo_pool_server.Server.Submit.Cases.{Handled, ignored, refused, credited}
use aleo_pool_server.Server.Submit.Totality.{IsSized, IsDivisible, submit-Handled}
use aleo_pool_server.Server.Dispatch.{process_message}

module _ (w : World) where
  open w use {f64, Peer, Address, Sender, EpochChallenge, dec_peer, dec_address}

  -- What no share and no challenge changes of a prover's state.
  abbrev pub shape : Option (ProverState w) → Option (Address × Bool)
  shape none = none
  shape (some state) = some (state.address, state.speed_2m.cached)

  abbrev pub Keeps : Map Peer (ProverState w) → Map Peer (ProverState w) → Type 0
  Keeps before after = (q : Peer) → shape (get dec_peer q after) ≡ shape (get dec_peer q before)

  -- Consistent tables, and no cache where the speed is read when a share is added.
  pub record IsServing (s : Server w) : Type 0 where
    pub consistent : IsConsistent w s
    pub metered :
        (p : Peer) (state : ProverState w)
        → get dec_peer p s.prover_states ≡ some state
        → state.speed_2m.cached ≡ false
    pub pool_metered : s.pool_state.speed_1m.cached ≡ false

  Keeps-insert :
      (p : Peer) (state state' : ProverState w) (states : Map Peer (ProverState w))
      → get dec_peer p states ≡ some state
      → state'.address ≡ state.address
      → state'.speed_2m.cached ≡ state.speed_2m.cached
      → Keeps states (insert dec_peer p state' states)
  Keeps-insert p state state' states e a c q = ground (arith, get-insert dec_peer p q state' states)

  pub inform_all-Keeps :
      (challenge : EpochChallenge) (proof_target : ℕ) (modifier : f64.Float)
      (provers : List (Peer × Sender)) (states : Map Peer (ProverState w))
      → Keeps states (inform_all w challenge proof_target modifier provers states).0
  unfolding inform_all inform Prover.next_target
  inform_all-Keeps challenge proof_target modifier [] states q = refl
  inform_all-Keeps challenge proof_target modifier ((p, sender) ∷ provers) states q =
      elim (Option-cases (get dec_peer p states)) [
        | inl e ↦
            rw (e, inform_all) (inform_all-Keeps challenge proof_target modifier provers states q)
        | inr (state, e) ↦
            let state' = (inform w challenge proof_target modifier sender state).0 in
            rw (e, inform_all)
              (inform_all-Keeps challenge proof_target modifier provers
                  (insert dec_peer p state' states) q
                ∙ Keeps-insert p state state' states e refl refl q)
      ]

  pub is_some-shape : (o : Option (ProverState w)) → is_some o ≡ is_some (shape o)
  is_some-shape none = refl
  is_some-shape (some state) = refl

  has_address-shape :
      (o o' : Option (ProverState w)) (a : Address)
      → shape o ≡ shape o'
      → has_address w o a ≡ has_address w o' a
  unfolding has_address
  has_address-shape none none a h = refl
  has_address-shape none (some state) a h = ground arith
  has_address-shape (some state) none a h = ground arith
  has_address-shape (some state) (some state') a h = ground arith

  pub Keeps-IsServing :
      (s t : Server w)
      → IsServing s
      → t.authenticated_provers ≡ s.authenticated_provers
      → t.prover_address_connections ≡ s.prover_address_connections
      → t.pool_state.speed_1m.cached ≡ s.pool_state.speed_1m.cached
      → Keeps s.prover_states t.prover_states
      → IsServing t
  Keeps-IsServing s t v e₁ e₂ e₃ k = record {
    consistent = record {
      paired = λ p.
          ap (λ m. is_some (get dec_peer p m)) e₁
          ∙ (v.consistent.paired p
              ∙ (is_some-shape _ ∙ (ap is_some (sym (k p)) ∙ sym (is_some-shape _))));
      grouped = λ a p.
          ap (λ m. is_listed w m a p) e₂
          ∙ (v.consistent.grouped a p ∙ has_address-shape _ _ a (sym (k p)));
      occupied = λ a h. v.consistent.occupied a (ap (λ m. get dec_address a m) (sym e₂) ∙ h);
    };
    metered = λ p state e. elim (Option-cases (get dec_peer p s.prover_states)) [
      | inl e' ↦ absurd (ground (arith, k p, e, e'))
      | inr (old, e') ↦ ground (arith, k p, e, e', v.metered p old e')
    ];
    pool_metered = e₃ ∙ v.pool_metered;
  }

  -- A peer that is authenticated has no state yet, and what a submission is hashed from has the
  -- lengths and the hash that rule out a panic.
  abbrev pub IsExpected : Server w → ServerMessage w → Type 0
  IsExpected s (prover_authenticated p a sender) = get dec_peer p s.prover_states ≡ none
  IsExpected s (prover_submit id p epoch nonce commitment proof) = IsDivisible w commitment
  IsExpected s message = Unit {0}

  authenticate-IsServing :
      (s : Server w) (now : ℕ) (p : Peer) (a : Address) (sender : Sender)
      → IsServing s
      → get dec_peer p s.prover_states ≡ none
      → IsServing (authenticate w now s p a sender).0
  unfolding authenticate Prover.new Speedometer.init
  authenticate-IsServing s now p a sender v fresh = record {
    consistent = authenticate-IsConsistent w s now p a sender v.consistent fresh;
    metered = λ q state e. ground (
      arith,
      e,
      v.metered q state,
      get-insert dec_peer p q (Prover.new w now p a) s.prover_states,
    );
    pool_metered = v.pool_metered;
  }

  disconnect-IsServing : (s : Server w) (p : Peer) → IsServing s → IsServing (disconnect w s p)
  unfolding disconnect
  disconnect-IsServing s p v = record {
    consistent = disconnect-IsConsistent w s p v.consistent;
    metered =
        λ q state e. ground (arith, e, v.metered q state, get-remove dec_peer p q s.prover_states);
    pool_metered = v.pool_metered;
  }

  new_epoch-IsServing :
      (s : Server w) (challenge : EpochChallenge) (proof_target : ℕ)
      → IsServing s
      → IsServing (new_epoch w s challenge proof_target).0
  unfolding new_epoch replace_challenge update_target Pool.next_global_target_modifier
  new_epoch-IsServing s challenge proof_target v =
      let kept =
        inform_all-Keeps challenge proof_target s.pool_state.next_global_target_modifier
          s.authenticated_provers s.prover_states in
      Keeps-IsServing s _ v (ground arith) (ground arith) (ground arith)
        (λ q. ground (arith, kept q))

  Handled-IsServing :
      {now : ℕ} (s t : Server w) (m : Submission w) (es : List (Effect w))
      → IsServing s
      → Handled w now s m t es
      → IsServing t
  Handled-IsServing s t m es v (ignored e u n) = subst IsServing (sym u) v
  Handled-IsServing s t m es v (refused sender code desc e (inl u) n) = subst IsServing (sym u) v
  Handled-IsServing s t m es v (refused sender code desc e (inr u) n) =
      subst IsServing (sym u) (Keeps-IsServing s _ v refl refl refl (λ q. refl))
  Handled-IsServing s t m es v (credited sender state challenge bytes difficulty a fresh c n) =
      subst IsServing (sym c.after) (
        Keeps-IsServing s _ v refl refl (c.metered.pool_uncached ∙ sym v.pool_metered) (
          Keeps-insert m.peer_addr state c.state' s.prover_states a.stated c.address_kept
            (c.metered.prover_uncached ∙ sym (v.metered m.peer_addr state a.stated))))

  -- If block hashes, addresses and digests have 32 bytes, the tables of the server are consistent, the
  -- speedometers that count shares have no cache, a peer that is authenticated has no state yet and a
  -- submitted commitment does not hash to 0, then no message makes the server panic, and all of this
  -- still holds of the tables and the speedometers afterwards.
  pub process_message-IsServing :
      (now : ℕ) (s : Server w) (request : ServerMessage w)
      → IsSized w
      → IsServing s
      → IsExpected s request
      → (t : Server w) × (es : List (Effect w)) × (process_message w now s request ≡ done (t, es))
        × IsServing t
  unfolding process_message connect
  process_message-IsServing now s (prover_connected p) z v x =
      (_, _, refl, Keeps-IsServing s _ v refl refl refl (λ q. refl))
  process_message-IsServing now s (prover_authenticated p a sender) z v x =
      (_, _, refl, authenticate-IsServing s now p a sender v x)
  process_message-IsServing now s (prover_disconnected p) z v x =
      (_, _, refl, disconnect-IsServing s p v)
  process_message-IsServing now s (prover_submit id p epoch nonce commitment proof) z v x =
      let m : Submission w = record {
        id = id;
        peer_addr = p;
        epoch_number = epoch;
        nonce = nonce;
        commitment = commitment;
        proof = proof;
      } in
      let (t, es, e, h) =
        submit-Handled w now s m
          (λ state stated. record {
            prover_uncached = v.metered p state stated;
            pool_uncached = v.pool_metered;
          })
          z x in
      (t, es, e, Handled-IsServing s t m es v h)
  process_message-IsServing now s (new_epoch_challenge challenge proof_target) z v x =
      (_, _, refl, new_epoch-IsServing s challenge proof_target v)
  process_message-IsServing now s exit z v x = (s, [], refl, v)
