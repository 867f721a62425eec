-- ===== src/Validator/Stuck.antt =====
-- The task waits for room in the channel that it alone empties.
use aleo_pool_server.Prelude.{
  ℕ, zero, suc, ◌+◌, ◌≡◌, refl, sym, ◌∙◌, ap, true, false, if◌then◌else◌, List, [], ◌∷◌, ◌++◌,
  subst, if_pos, lt→ltb, le→ltb_false, length, length-append, arith,
}
use mathlib.Core.List.{append_assoc}
use aleo_pool_server.World.{World}
use aleo_pool_server.Validator.{
  Router, capacity, running, waiting, Message, puzzle_request, challenge_request,
  challenge_response, leave, Node, Action, Step, Steps, has_room, enqueue, greet, handle, started,
  send, connects, takes, reads, ends, resumes, asks, asked, pings, pinged, submits, stays, goes,
}

module _ (w : World) (r : Router w) where
  open r use {current_version, prover, Nonce, Signature, genesis_header, dec_header, Other}

  -- The task waits, and the channel is full.
  abbrev pub IsBlocked : Node w r → Type 0
  IsBlocked n = (n.session ≡ waiting) × (has_room w r n ≡ false)

  step-IsBlocked :
      (n k : Node w r) (sent : List (Action w r))
      → Step w r n sent k
      → IsBlocked n
      → (sent ≡ []) × (k.queue ≡ n.queue) × IsBlocked k
  unfolding has_room
  step-IsBlocked n k sent (connects _ sendable nonce e) b = absurd (cc (e, b.0))
  step-IsBlocked n k sent (takes _ sendable m ms e q) b = absurd (cc (e, b.0))
  step-IsBlocked n k sent (reads _ first second m e) b = absurd (cc (e, b.0))
  step-IsBlocked n k sent (ends _ e) b = absurd (cc (e, b.0))
  step-IsBlocked n k sent (resumes _ e room) b = absurd (cc (room, b.1))
  step-IsBlocked n k sent (asks _ c a) b = (refl, refl, b)
  step-IsBlocked n k sent (asked _ a room) b = absurd (cc (room, b.1))
  step-IsBlocked n k sent (pings _ c p) b = (refl, refl, b)
  step-IsBlocked n k sent (pinged _ p room) b = absurd (cc (room, b.1))
  step-IsBlocked n k sent (submits _ m room) b = absurd (cc (room, b.1))

  -- Once the task waits for room in a full channel, nothing that happens later sends a message, takes one
  -- out of the channel, or ends the waiting.
  pub steps-IsBlocked :
      (n k : Node w r) (sent : List (Action w r))
      → Steps w r n sent k
      → IsBlocked n
      → (sent ≡ []) × (k.queue ≡ n.queue) × IsBlocked k
  steps-IsBlocked n k sent (stays _) b = (refl, refl, b)
  steps-IsBlocked n k sent (goes _ m _ first rest s ss) b =
      let (e, q, b') = step-IsBlocked n m first s b in
      let (f, q', b'') = steps-IsBlocked m k rest ss b' in (rw (e, f) refl, q' ∙ q, b'')

  -- So many messages of the server fill the channel.
  fill :
      (d : ℕ) (o : Other) (n : Node w r)
      → length n.queue + d ≡ capacity
      → (queue : List (Message w r)) × (length queue ≡ capacity)
        × Steps w r n [] (record n { queue = queue })
  unfolding has_room enqueue
  fill zero o n e = (n.queue, omega arith, stays n)
  fill (suc d) o n e =
      let (queue, full, ss) =
        fill d o (enqueue w r (Message.other o) n)
          (omega (arith, length-append n.queue (Message.other o ∷ []))) in
      (queue, full, goes n _ _ [] [] (submits n o (lt→ltb _ _ (omega arith))) ss)

  pub steps-append :
      (n m k : Node w r) (first rest : List (Action w r))
      → Steps w r n first m
      → Steps w r m rest k
      → Steps w r n (first ++ rest) k
  steps-append n m k _ rest (stays _) ss = ss
  steps-append n m k _ rest (goes _ l _ sent sent' s ss') ss =
      subst (λ sent. Steps w r n sent k) (sym (append_assoc sent sent' rest))
        (goes n l k sent (sent' ++ rest) s (steps-append l m k sent' rest ss' ss))

  -- An answer to the challenge finds the channel full.
  greet-IsBlocked :
      (n : Node w r) (signature : Signature)
      → n.session ≡ running
      → n.connected ≡ false
      → length n.queue ≡ capacity
      → (k : Node w r) × Step w r n [] k × IsBlocked k
  unfolding handle greet has_room
  greet-IsBlocked n signature e c full =
      let room = le→ltb_false (length n.queue) capacity (omega (arith, full)) in
      let queued = enqueue w r puzzle_request (record n { connected = true }) in
      let blocked = record n { connected = true; session = waiting } in
      let met =
        ap (λ b. if b then n else if has_room w r n then queued else blocked) c
        ∙ ap (λ b. if b then queued else blocked) room in
      let handled =
        if_pos (dec_header genesis_header genesis_header) refl (greet w r n, []) (leave w r n, [])
        ∙ ap (λ k. (k, [])) met in
      (
        blocked,
        subst (λ (p : Node w r × List (Action w r)). Step w r n p.1 p.0) handled
            (reads n true true (challenge_response genesis_header signature) e),
        (refl, room),
      )

  -- From the start, messages of the server can fill the channel before a validator answers the challenge;
  -- the task then waits for room, and nothing that happens later sends a message, takes one out of the
  -- channel, or ends the waiting.
  pub can_block :
      (o : Other) (nonce : Nonce) (signature : Signature)
      → (n : Node w r) × (sent : List (Action w r)) × Steps w r (started w r) sent n
        × ((k : Node w r) (later : List (Action w r))
            → Steps w r n later k
            → (later ≡ []) × (k.queue ≡ n.queue) × (k.session ≡ waiting))
  unfolding started
  can_block o nonce signature =
      let (queue, full, filling) = fill capacity o (started w r) refl in
      let n = record (started w r) { queue = queue } in
      let m = record n { session = running } in
      let (k, s, b) = greet-IsBlocked m signature refl refl full in
      let sent = send w r true (challenge_request current_version prover nonce) in
      (
        k,
        sent ++ [],
        steps-append (started w r) n k [] _ filling
            (goes n m k sent _ (connects n true nonce refl) (goes m k k [] [] s (stays k))),
        λ l later ss. let (e, q, b') = steps-IsBlocked k l later ss b in (e, q, b'.0),
      )
