-- ===== src/Server/Dispatch/Interleaving.antt =====
-- The nonces that the tasks of submissions credit, in whatever order the parts of the tasks run.
use aleo_pool_server.Prelude.{
  subst, ℕ, ◌≡◌, ◌≢◌, refl, sym, ap, ◌∙◌, Bool, Bool-cases, false, true, List, [], ◌∷◌, ◌++◌, map,
  ℕ_discrete, if_pos, inl, inr, All, if◌then◌else◌, ite,
}
use aleo_pool_server.Map
use aleo_pool_server.Map.Laws.{contains-set_insert}
use aleo_pool_server.World.{World}
use aleo_pool_server.Server.{Server, Effect, ServerMessage}
use aleo_pool_server.Server.Dispatch.Nonces.{is_clearing, process_message_nonces}
use aleo_pool_server.Server.Submit.{Snapshot, Submission, clear_nonce}
use aleo_pool_server.Server.Submit.Replay.{credits}
use aleo_pool_server.Server.Submit.Parts.{
  Progress, answered, passed, check, check_nonces, go_on_nonces,
}
use aleo_pool_server.Server.Dispatch.Tasks.{
  CheckedTask, waiting, finished, nonce_of, logged, Interleaves, starts, spawns, checks, goes_on,
  goes_on_late, handles, clears,
}

module _ (w : World) where
  open w use {Sender, EpochChallenge, dec_peer}

  -- The nonces that were credited.
  abbrev pub credited_nonces : List (CheckedTask w) → List ℕ
  credited_nonces [] = []
  credited_nonces (finished nonce true ∷ log) = nonce ∷ credited_nonces log
  credited_nonces (entry ∷ log) = credited_nonces log

  -- No number twice.
  abbrev pub AllDistinct : List ℕ → Type 0
  AllDistinct [] = Unit {0}
  AllDistinct (n ∷ ns) = All (λ k. n ≢ k) ns × AllDistinct ns

  All-credited_nonces :
      (P : ℕ → Type 0) (log : List (CheckedTask w))
      → All P (map (nonce_of w) log)
      → All P (credited_nonces log)
  All-credited_nonces P [] h = tt
  All-credited_nonces P (waiting c m sender challenge ∷ log) h = All-credited_nonces P log h.1
  All-credited_nonces P (finished n true ∷ log) h = (h.0, All-credited_nonces P log h.1)
  All-credited_nonces P (finished n false ∷ log) h = All-credited_nonces P log h.1

  AllDistinct-credited_nonces :
      (log : List (CheckedTask w))
      → AllDistinct (map (nonce_of w) log)
      → AllDistinct (credited_nonces log)
  AllDistinct-credited_nonces [] h = tt
  AllDistinct-credited_nonces (waiting c m sender challenge ∷ log) h =
      AllDistinct-credited_nonces log h.1
  AllDistinct-credited_nonces (finished n true ∷ log) h =
      (All-credited_nonces (λ k. n ≢ k) log h.0, AllDistinct-credited_nonces log h.1)
  AllDistinct-credited_nonces (finished n false ∷ log) h = AllDistinct-credited_nonces log h.1

  AllSeen : List ℕ → List ℕ → Type 0
  AllSeen seen = All (λ n. Map.contains ℕ_discrete n seen ≡ true)

  seen_either : {P : Type 0} (d : Dec P) {b : Bool} → b ≡ true → ite d true b ≡ true
  seen_either (yes p) h = refl
  seen_either (no n) h = h

  AllSeen-insert :
      (seen : List ℕ) (n : ℕ) (ns : List ℕ)
      → AllSeen seen ns
      → AllSeen (Map.set_insert ℕ_discrete n seen) ns
  unfolding AllSeen
  AllSeen-insert seen n [] h = tt
  AllSeen-insert seen n (k ∷ ns) h = (
    contains-set_insert ℕ_discrete n k seen ∙ seen_either (ℕ_discrete n k) h.0,
    AllSeen-insert seen n ns h.1,
  )

  seen_self :
      (seen : List ℕ) (n : ℕ) → Map.contains ℕ_discrete n (Map.set_insert ℕ_discrete n seen) ≡ true
  seen_self seen n = contains-set_insert ℕ_discrete n n seen ∙ if_pos (ℕ_discrete n n) refl _ _

  unseen_differs :
      (seen : List ℕ) (n : ℕ) (ns : List ℕ)
      → Map.contains ℕ_discrete n seen ≡ false
      → AllSeen seen ns
      → All (λ k. n ≢ k) ns
  unfolding AllSeen
  unseen_differs seen n [] e h = tt
  unseen_differs seen n (k ∷ ns) e h = (
    λ same. absurd (cc (e, h.0, ap (λ n. Map.contains ℕ_discrete n seen) same)),
    unseen_differs seen n ns e h.1,
  )

  -- The nonces that passed since the table was cleared are distinct, and in the table.
  record IsOnce (s : Server w) (ns : List ℕ) : Type 0 where
    distinct : AllDistinct ns
    seen : AllSeen s.nonce_seen ns

  forgets-IsOnce : (s : Server w) → IsOnce s []
  unfolding AllSeen
  forgets-IsOnce s = record { distinct = tt; seen = tt }

  same-IsOnce :
      (s t : Server w) (ns : List ℕ) → t.nonce_seen ≡ s.nonce_seen → IsOnce s ns → IsOnce t ns
  same-IsOnce s t ns e i = record {
    distinct = i.distinct;
    seen = subst (λ seen. AllSeen seen ns) (sym e) i.seen;
  }

  inserted-IsOnce :
      (s t : Server w) (m : Submission w) (ns : List ℕ)
      → t.nonce_seen ≡ Map.set_insert ℕ_discrete m.nonce s.nonce_seen
      → IsOnce s ns
      → IsOnce t ns
  inserted-IsOnce s t m ns e i = record {
    distinct = i.distinct;
    seen = subst (λ seen. AllSeen seen ns) (sym e) (AllSeen-insert s.nonce_seen m.nonce ns i.seen);
  }

  logged-IsOnce :
      (s t : Server w) (c : Snapshot w) (m : Submission w) (p : Progress w)
      (log : List (CheckedTask w))
      → t.nonce_seen ≡ Map.set_insert ℕ_discrete m.nonce s.nonce_seen
      → Map.contains ℕ_discrete m.nonce s.nonce_seen ≡ false
      → IsOnce s (map (nonce_of w) log)
      → IsOnce t (map (nonce_of w) (logged w c m p log))
  logged-IsOnce s t c m (answered es) log e fresh i =
      inserted-IsOnce s t m (map (nonce_of w) log) e i
  logged-IsOnce s t c m (passed sender challenge) log e fresh i = record {
    distinct =
        (unseen_differs s.nonce_seen m.nonce (map (nonce_of w) log) fresh i.seen, i.distinct);
    seen =
        unfold AllSeen in
        (
          ap (Map.contains ℕ_discrete m.nonce) e ∙ seen_self s.nonce_seen m.nonce,
          (inserted-IsOnce s t m (map (nonce_of w) log) e i).seen,
        );
  }

  check-IsOnce :
      (s : Server w) (c : Snapshot w) (m : Submission w) (log : List (CheckedTask w))
      → IsOnce s (map (nonce_of w) log)
      → IsOnce (check w c s m).0 (map (nonce_of w) (logged w c m (check w c s m).1 log))
  check-IsOnce s c m log i =
      let (t, p) = check w c s m in
      let unlogged : (es : List (Effect w))
          → p ≡ answered es
          → IsOnce t (map (nonce_of w) log)
          → IsOnce t (map (nonce_of w) (logged w c m p log)) =
        λ es e. subst (λ p. IsOnce t (map (nonce_of w) (logged w c m p log))) (sym e) in
      elim (check_nonces w c s m) [
        | inl (same, es, e) ↦ unlogged es e (same-IsOnce s t (map (nonce_of w) log) same i)
        | inr (added, inl (es, e)) ↦
            unlogged es e (inserted-IsOnce s t m (map (nonce_of w) log) added i)
        | inr (added, inr fresh) ↦ logged-IsOnce s t c m p log added fresh i
      ]

  -- A task that goes on keeps its nonce.
  map-finished :
      (before after : List (CheckedTask w)) (c : Snapshot w) (m : Submission w) (sender : Sender)
      (challenge : EpochChallenge) (credited : Bool)
      → map (nonce_of w) (before ++ waiting c m sender challenge ∷ after)
        ≡ map (nonce_of w) (before ++ finished m.nonce credited ∷ after)
  map-finished [] after c m sender challenge credited = refl
  map-finished (e ∷ before) after c m sender challenge credited =
      ap (λ ns. nonce_of w e ∷ ns) (map-finished before after c m sender challenge credited)

  request-IsOnce :
      (s t : Server w) (request : ServerMessage w) (log : List (CheckedTask w))
      → t.nonce_seen ≡ (if is_clearing w s request then [] else s.nonce_seen)
      → IsOnce s (map (nonce_of w) log)
      → IsOnce t (map (nonce_of w) (if is_clearing w s request then [] else log))
  request-IsOnce s t request log e i = elim (Bool-cases (is_clearing w s request)) [
    | inl new ↦ rw new (forgets-IsOnce t)
    | inr same ↦ rw same (same-IsOnce s t (map (nonce_of w) log) (e ∙ rw same refl) i)
  ]

  -- However the two parts of the tasks of submissions run after their handlers, with what these had read,
  -- among each other and between other messages, from any state of the server: the nonces that passed the
  -- check since that state, and since the table of nonces was last cleared, by its ticker or by a new
  -- challenge, and were credited then, are all distinct.
  pub Interleaves-AllDistinct :
      (s : Server w) (tasks : List (Snapshot w × Submission w)) (log old : List (CheckedTask w))
      → Interleaves w s tasks log old
      → AllDistinct (credited_nonces log)
  Interleaves-AllDistinct s tasks log old r =
      AllDistinct-credited_nonces log (reaches s tasks log old r).distinct
    where
      reaches :
          (s : Server w) (tasks : List (Snapshot w × Submission w)) (log old : List (CheckedTask w))
          → Interleaves w s tasks log old
          → IsOnce s (map (nonce_of w) log)
      reaches _ _ _ _ (starts s) = forgets-IsOnce s
      reaches s _ log old (spawns _ tasks _ _ m r) = reaches s tasks log old r
      reaches _ _ _ old (checks s before after log _ c m r) =
          check-IsOnce s c m log (reaches s (before ++ (c, m) ∷ after) log old r)
      reaches t tasks _ old
            (goes_on now s _ _ before after _ c m sender challenge state es r known run) =
          same-IsOnce s t _ (go_on_nonces w now c s sender challenge state m t es run) (
            subst (IsOnce s) (map-finished before after c m sender challenge (credits w es))
              (reaches s tasks (before ++ waiting c m sender challenge ∷ after) old r))
      reaches t tasks log _
            (goes_on_late now s _ _ _ before after c m sender challenge state es r known run) =
          same-IsOnce s t _ (go_on_nonces w now c s sender challenge state m t es run)
            (reaches s tasks log (before ++ waiting c m sender challenge ∷ after) r)
      reaches t tasks _ _ (handles now s _ _ log old request es r o run) =
          request-IsOnce s t request log (process_message_nonces w now s t request es o run)
            (reaches s tasks log old r)
      reaches _ tasks _ _ (clears s _ log old r) = forgets-IsOnce (clear_nonce s)
