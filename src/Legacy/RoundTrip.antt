-- ===== src/Legacy/RoundTrip.antt =====
-- What is decoded from the bytes of a message.
use mathlib.Core.List.{append-nil}
use aleo_pool_server.Prelude.{
  false, ℕ, suc, ◌+◌, ◌%◌, ◌<◌, ◌≤◌, ◌≡◌, refl, sym, ap, ◌∙◌, List, [], ◌∷◌, ◌++◌, none, some,
  length, length-append, inl, inr, Bool-cases, ltb→lt, ltb_false→le, arith, lt→ltb, le→ltb_false,
  ltb, to_le_bytes, from_le_bytes, u32_mod,
}
use aleo_pool_server.Legacy.{
  Formats, ProverMessage, id, encode, decode, write_length, write_body, read_body, read_frame,
}
use aleo_pool_server.Legacy.Bytes.{
  ok, failed, after, write_all, set_front, take, read_u8, read_le, Reads-le, Reads-byte,
  Reads-after, Reads, Writes, take-append_long, ◌>>=◌, pure,
}
use aleo_pool_server.Legacy.Frames.{IsReadable, IsPlain, body-Codes}

module _ (fm : Formats) where
  -- What `encode` makes of an empty buffer: the length, the id and the body.
  abbrev pub frame : ℕ → List ℕ → List ℕ
  frame msg_id body = to_le_bytes 4 (length (msg_id ∷ body) % u32_mod) ++ msg_id ∷ body

  encode-frame :
      (m : ProverMessage fm) (body : List ℕ)
      → Writes (write_body fm m) body
      → (encode fm m).run [] ≡ (ok tt, frame (id fm m) body)
  unfolding encode write_all write_length set_front to_le_bytes
  encode-frame m body w =
      ap (λ s. after (λ _. write_length fm) s.0 s.1) (w (0 ∷ 0 ∷ 0 ∷ 0 ∷ id fm m ∷ []))
      ∙ ap (λ n. (ok tt, to_le_bytes 4 (n % u32_mod) ++ id fm m ∷ body)) (omega arith)

  decode_short : (src : List ℕ) → length src < 4 → decode fm src ≡ (ok none, src)
  unfolding decode
  decode_short src h = rw (lt→ltb (length src) 4 h) refl

  -- A buffer that begins with a length.
  module _ (src : List ℕ) (size : ℕ) (e : from_le_bytes (take 4 src) ≡ size)
      (h : 4 ≤ length src) where
    long : ltb (length src) 4 ≡ false
    long = le→ltb_false (length src) 4 h

    decode_long : 1048576 < size → decode fm src ≡ (failed "Message too long", src)
    unfolding decode
    decode_long b = rw (long, e, lt→ltb 1048576 size b) refl

    decode_part : size ≤ 1048576 → length src < 4 + size → decode fm src ≡ (ok none, src)
    unfolding decode
    decode_part b p =
        rw (long, e, le→ltb_false 1048576 size b, lt→ltb (length src) (4 + size) p) refl

    decode_whole :
        (m : ProverMessage fm) (rest : List ℕ)
        → size ≤ 1048576
        → 4 + size ≤ length src
        → (read_frame fm).run src ≡ (ok m, rest)
        → decode fm src ≡ (ok (some m), rest)
    unfolding decode
    decode_whole m rest b p r =
        rw (long, e, le→ltb_false 1048576 size b, le→ltb_false (length src) (4 + size) p)
          (ap (λ s. after (λ m. pure (some m)) s.0 s.1) r)

  frame-Reads :
      (m : ProverMessage fm) (body : List ℕ)
      → Reads (read_body fm (id fm m)) body m
      → Reads (read_frame fm) (frame (id fm m) body) m
  unfolding read_frame
  frame-Reads m body r =
      let size = length (id fm m ∷ body) % u32_mod in
      Reads-after (read_le 4) (λ _. read_u8 >>= read_body fm) (to_le_bytes 4 size) (id fm m ∷ body)
        size m (Reads-le 4 size (omega arith))
        (Reads-after read_u8 (read_body fm) (id fm m ∷ []) body (id fm m) m (Reads-byte (id fm m))
          r)

  size_lem :
      (msg_id : ℕ) (body rest : List ℕ)
      → length body < 1048576
      → from_le_bytes (take 4 (frame msg_id body ++ rest)) ≡ suc (length body)
  unfolding to_le_bytes from_le_bytes
  size_lem msg_id body rest h = omega arith

  length-frame : (msg_id : ℕ) (body : List ℕ) → length (frame msg_id body) ≡ 5 + length body
  unfolding to_le_bytes
  length-frame msg_id body = omega arith

  -- A proper part of a frame.
  decode-part :
      (msg_id : ℕ) (body part rest : List ℕ)
      → part ++ rest ≡ frame msg_id body
      → 0 < length rest
      → length body < 1048576
      → decode fm part ≡ (ok none, part)
  decode-part msg_id body part rest e p b =
      let size = length-frame msg_id body in
      let sum = length-append part rest in
      let whole = ap length e in
      elim (Bool-cases (ltb (length part) 4)) [
        | inl short ↦ decode_short part (ltb→lt (length part) 4 short)
        | inr l ↦
            let long = ltb_false→le (length part) 4 l in
            decode_part part (suc (length body))
              (sym (ap from_le_bytes (take-append_long 4 part rest long))
                ∙ ap (λ src. from_le_bytes (take 4 src)) (e ∙ sym (append-nil (frame msg_id body)))
                ∙ size_lem msg_id body [] b)
              long (omega arith) (omega (arith, size, sum, whole))
      ]

  -- If the values of snarkVM and of bincode are read as they are written, a message that is not the canary
  -- and whose numbers are of their types is encoded into an empty buffer; and if its bytes after the
  -- length are at most 2^20, then, whatever comes after them in a buffer, the message is decoded and the rest
  -- is left; and of a proper part of the bytes nothing is decoded and all is left.
  pub decode-encode_message :
      (l : IsReadable fm) (m : ProverMessage fm)
      → IsPlain fm m
      → (bytes : List ℕ) × ((encode fm m).run [] ≡ (ok tt, bytes))
        × (length bytes ≤ 1048580
            → ((rest : List ℕ) → decode fm (bytes ++ rest) ≡ (ok (some m), rest))
              × ((part rest : List ℕ)
                  → part ++ rest ≡ bytes
                  → 0 < length rest
                  → decode fm part ≡ (ok none, part)))
  decode-encode_message l m h =
      let (body, w, r) = body-Codes fm l m h in
      let bytes = frame (id fm m) body in
      let size = length-frame (id fm m) body in
      (
        bytes,
        encode-frame m body w,
        λ b. (
          λ rest.
              decode_whole (bytes ++ rest) (suc (length body))
                (size_lem (id fm m) body rest (omega (arith, size)))
                (omega (arith, size, length-append bytes rest)) m rest (omega (arith, size))
                (omega (arith, size, length-append bytes rest)) (frame-Reads m body r rest),
          λ part rest e p. decode-part (id fm m) body part rest e p (omega (arith, size)),
        ),
      )
