-- ===== src/Ledger/Posts.antt =====
-- What the handlers and the tasks send to accounting.
use Prim.Native.String.{String}
use aleo_pool_server.Prelude.{
  Outcome, ℕ, ◌<◌, ◌^◌, ◌==◌, ◌≡◌, refl, sym, ap, List, [], ◌∷◌, ◌++◌, arith, done, All, mul64,
  mul64_exact, ltb, inl, inr, min, subst, Bool-cases, Option-cases, Outcome-cases,
}
use aleo_pool_server.Map
use aleo_pool_server.Map.{Map}
use aleo_pool_server.Accounting.{new_share, set_n, new_solution}
use aleo_pool_server.World.{World}
use aleo_pool_server.Server.{Server, Effect, to_accounting}
use aleo_pool_server.Server.Prover
use aleo_pool_server.Server.Prover.{ProverState}
use aleo_pool_server.Server.Pool
use aleo_pool_server.Server.Epoch.{told_target, inform, inform_all, update_target}
use aleo_pool_server.Server.Submit.{
  Snapshot, Submission, judge, settle, credit, share_target, seen_nonce, send_ok, send_error,
  report_solution, Verdict, accept, reject,
}
use aleo_pool_server.Server.Submit.Cases.{Runs-unique}
use aleo_pool_server.Server.Submit.Parts.{Progress, answered, passed, check, check_nonce, go_on}
use aleo_pool_server.Ledger.{posted, answers}

module _ (w : World) where
  open w use {f64, Peer, Sender, EpochChallenge, dec_peer}

  -- What a task of a submission may send: a share of a bounded value, or a solution.
  abbrev pub IsCredit : Effect w → Type 0
  IsCredit (to_accounting (new_share owner value)) = value < 2 ^ 63
  IsCredit (to_accounting (new_solution commitment)) = Unit {0}
  IsCredit (to_accounting m) = ⊥
  IsCredit effect = Unit {0}

  -- What a task of a submission does not change, and what it sends.
  pub record IsPosted (s t : Server w) (es : List (Effect w)) : Type 0 where
    pub target : t.latest_proof_target ≡ s.latest_proof_target
    pub challenge : t.latest_epoch_challenge ≡ s.latest_epoch_challenge
    pub number : t.latest_epoch_number ≡ s.latest_epoch_number
    pub sent : All IsCredit es

  report_solution-IsCredit :
      (c : Snapshot w) (address : w.Address) (m : Submission w) (difficulty : ℕ)
      → All IsCredit (report_solution w c address m difficulty)
  unfolding report_solution
  report_solution-IsCredit c address m difficulty =
      elim (Bool-cases (ltb difficulty c.global_proof_target)) [
        | inl e ↦ rw e tt
        | inr e ↦ rw e (tt, (tt, tt))
      ]

  -- The same with the state and the effects of another account of the run.
  pub run-IsPosted :
      (o : Outcome (Server w × List (Effect w))) (s s' t : Server w) (fs es : List (Effect w))
      → IsPosted s s' fs
      → o ≡ done (s', fs)
      → o ≡ done (t, es)
      → IsPosted s t es
  run-IsPosted o s s' t fs es p e run =
      let (same, sent) = Runs-unique w o s' t fs es e run in
      subst (λ r. IsPosted s r es) same (subst (λ fs. IsPosted s s' fs) sent p)

  -- Nothing but the nonces is changed, and nothing is sent to accounting.
  unposted :
      (s : Server w) (nonces : List ℕ) (es : List (Effect w))
      → All IsCredit es
      → IsPosted s (record s { nonce_seen = nonces }) es
  unposted s nonces es h = record { target = refl; challenge = refl; number = refl; sent = h }

  settle-IsPosted :
      (now : ℕ) (c : Snapshot w) (s : Server w) (sender : Sender) (state : ProverState w)
      (m : Submission w) (v : Verdict) (t : Server w) (es : List (Effect w))
      → c.global_proof_target < 2 ^ 60
      → settle w now c s sender state m v ≡ done (t, es)
      → IsPosted s t es
  unfolding settle credit send_ok send_error
  settle-IsPosted now c s sender state m (accept difficulty) t es low run =
      let target = share_target w c state in
      let exact = mul64_exact c.global_proof_target 2 (omega (arith, low)) in
      elim (Outcome-cases (Prover.add_share w now state target)) [
        | inl e ↦ absurd (ground arith)
        | inr (state', e) ↦ elim (Outcome-cases (Pool.add_share w now s.pool_state target)) [
          | inl f ↦ absurd (ground arith)
          | inr (pool, f) ↦
              let t' : Server w = record s {
                prover_states = Map.insert dec_peer m.peer_addr state' s.prover_states;
                pool_state = pool;
              } in
              let value = min difficulty (mul64 c.global_proof_target 2) in
              let es' =
                to_accounting (new_share (w.address_text state'.address) value)
                ∷ send_ok w sender m.id
                ∷ report_solution w c s.pool_address m difficulty in
              run-IsPosted _ s t' t es' es
                (record {
                  target = refl;
                  challenge = refl;
                  number = refl;
                  sent = (
                    omega (arith, exact, low),
                    (tt, report_solution-IsCredit c s.pool_address m difficulty),
                  );
                })
                (rw (e, f) refl) run
        ]
      ]
  settle-IsPosted now c s sender state m (reject code desc) t es low run =
      run-IsPosted _ s s t _ es (unposted s s.nonce_seen _ (tt, tt)) refl run

  -- The second part of a task.
  pub go_on-IsCredit :
      (now : ℕ) (c : Snapshot w) (s : Server w) (sender : Sender) (challenge : EpochChallenge)
      (state : ProverState w) (m : Submission w) (t : Server w) (es : List (Effect w))
      → c.global_proof_target < 2 ^ 60
      → go_on w now c s sender challenge state m ≡ done (t, es)
      → All IsCredit es
  unfolding go_on
  go_on-IsCredit now c s sender challenge state m t es low run =
      elim (Outcome-cases (judge w c challenge s.pool_address state m)) [
        | inl e ↦ absurd (ground arith)
        | inr (v, e) ↦ (settle-IsPosted now c s sender state m v t es low (ground arith)).sent
      ]

  answers-IsCredit :
      (p : Progress w) (es : List (Effect w))
      → p ≡ answered es
      → All IsCredit es
      → All IsCredit (answers w p)
  answers-IsCredit p es e h = subst (λ p. All IsCredit (answers w p)) (sym e) h

  -- The first part answers at most.
  pub check-IsCredit :
      (c : Snapshot w) (s : Server w) (m : Submission w)
      → All IsCredit (answers w (check w c s m).1)
  unfolding check check_nonce send_error
  check-IsCredit c s m =
      let p = (check w c s m).1 in
      elim (Option-cases (Map.get dec_peer m.peer_addr s.authenticated_provers)) [
        | inl e ↦ answers-IsCredit p [] (ground arith) tt
        | inr (sender, known) ↦
            let refused : (code : ℕ) (desc : String)
                → p ≡ answered (send_error w sender m.id code desc ∷ [])
                → All IsCredit (answers w p) =
              λ code desc e. answers-IsCredit p _ e (tt, tt) in
            elim (Option-cases (Map.get dec_peer m.peer_addr s.prover_states)) [
              | inl e ↦ refused 24 "Unknown prover" (ground arith)
              | inr (state, stated) ↦ elim (Option-cases s.latest_epoch_challenge) [
                | inl e ↦ refused 21 "No epoch challenge" (ground arith)
                | inr (challenge, challenged) ↦
                    elim (Bool-cases (m.epoch_number == c.latest_epoch_number)) [
                      | inl e ↦ elim (Bool-cases (seen_nonce s.nonce_seen m.nonce).0) [
                        | inl old ↦ refused 22 "Duplicate nonce" (ground arith)
                        | inr fresh ↦
                            let same : p ≡ passed sender challenge = ground arith in
                            subst (λ p. All IsCredit (answers w p)) (sym same) tt
                      ]
                      | inr e ↦ refused 21 "Stale solution" (ground arith)
                    ]
              ]
            ]
      ]

  posted-append : (es fs : List (Effect w)) → posted w (es ++ fs) ≡ posted w es ++ posted w fs
  posted-append [] fs = refl
  posted-append (to_accounting m ∷ es) fs = ap (λ ms. m ∷ ms) (posted-append es fs)
  posted-append (e ∷ es) fs = posted-append es fs

  posted-inform :
      (challenge : EpochChallenge) (proof_target : ℕ) (modifier : f64.Float) (sender : Sender)
      (state : ProverState w)
      → posted w (inform w challenge proof_target modifier sender state).1 ≡ []
  unfolding inform
  posted-inform challenge proof_target modifier sender state =
      let told = told_target w modifier proof_target (Prover.next_target w state).0 in
      elim (Bool-cases (state.current_target == told)) [ inl e ↦ rw e refl | inr e ↦ rw e refl ]

  -- Neither the target that a prover is told nor its job is sent to accounting.
  posted-inform_all :
      (challenge : EpochChallenge) (proof_target : ℕ) (modifier : f64.Float)
      (provers : List (Peer × Sender)) (states : Map Peer (ProverState w))
      → posted w (inform_all w challenge proof_target modifier provers states).1 ≡ []
  unfolding inform_all
  posted-inform_all challenge proof_target modifier [] states = refl
  posted-inform_all challenge proof_target modifier ((p, sender) ∷ provers) states =
      elim (Option-cases (Map.get dec_peer p states)) [
        | inl e ↦
            rw (e, inform_all) (posted-inform_all challenge proof_target modifier provers states)
        | inr (state, e) ↦
            let (state', sent) = inform w challenge proof_target modifier sender state in
            let states' = Map.insert dec_peer p state' states in
            rw
              (
                e,
                inform_all,
                posted-append sent (inform_all w challenge proof_target modifier provers states').1,
                posted-inform challenge proof_target modifier sender state,
              )
              (posted-inform_all challenge proof_target modifier provers states')
      ]

  -- A challenge that is not of an older epoch is followed by the size of the window.
  pub posted-update_target :
      (s : Server w) (challenge : EpochChallenge) (proof_target : ℕ)
      → posted w (update_target w s challenge proof_target).1 ≡ set_n (mul64 proof_target 5) ∷ []
  unfolding update_target Pool.next_global_target_modifier
  posted-update_target s challenge proof_target =
      ap (λ ms. set_n (mul64 proof_target 5) ∷ ms)
        (posted-inform_all challenge proof_target s.pool_state.next_global_target_modifier
          s.authenticated_provers s.prover_states)
