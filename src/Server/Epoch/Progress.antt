-- ===== src/Server/Epoch/Progress.antt =====
-- How the epoch and the seen nonces change with a challenge.
use aleo_pool_server.Prelude.{
  ℕ, ◌<◌, ◌≡◌, [], none, some, arith, max, ltb, leb, ◌&&◌, if◌then◌else◌,
}
use aleo_pool_server.World.{World}
use aleo_pool_server.Server.{Server}
use aleo_pool_server.Server.Epoch.{is_new, replace_challenge, update_target, new_epoch}

module _ (w : World) where
  open w use {EpochChallenge, epoch_number}

  -- The number of the latest epoch is that of the latest challenge, if there is one, and 0 before.
  abbrev pub IsCurrent : Server w → Type 0
  IsCurrent s = elim s.latest_epoch_challenge [
    | none ↦ s.latest_epoch_number ≡ 0
    | some challenge ↦ s.latest_epoch_number ≡ epoch_number challenge
  ]

  -- If the number of the epoch is that of the stored challenge, and 0 with none, then after a
  -- challenge it is the maximum of its former value and the number of the new challenge, and again
  -- that of the stored challenge.
  new_epoch-IsCurrent :
      (s : Server w) (challenge : EpochChallenge) (target : ℕ)
      → IsCurrent s
      → let t = (new_epoch w s challenge target).0 in
        (t.latest_epoch_number ≡ max s.latest_epoch_number (epoch_number challenge)) × IsCurrent t
  unfolding new_epoch replace_challenge is_new update_target
  new_epoch-IsCurrent s challenge target c = ground arith

  -- A challenge of an older epoch changes nothing and is told to nobody.
  pub new_epoch_stale :
      (s : Server w) (challenge : EpochChallenge) (target : ℕ)
      → epoch_number challenge < s.latest_epoch_number
      → new_epoch w s challenge target ≡ (s, [])
  unfolding new_epoch replace_challenge is_new
  new_epoch_stale s challenge target h = ground arith

  -- The seen nonces are kept exactly when the challenge is not of a newer epoch and the epoch is not 0. So
  -- in epoch 0 every challenge, also the same one again, makes the server forget them.
  pub new_epoch_nonces :
      (s : Server w) (challenge : EpochChallenge) (target : ℕ)
      → (new_epoch w s challenge target).0.nonce_seen ≡ (
          if leb (epoch_number challenge) s.latest_epoch_number && ltb 0 s.latest_epoch_number
          then s.nonce_seen
          else [])
  unfolding new_epoch replace_challenge is_new update_target
  new_epoch_nonces s challenge target = ground arith
