-- ===== src/Codec/Stream.antt =====
-- Messages encoded one behind the other, and decoded one by one.
use aleo_pool_server.Prelude.{
  ℕ, zero, suc, ◌+◌, ◌<◌, ◌≡◌, refl, ap, ◌∙◌, List, [], ◌∷◌, ◌++◌, none, some, map, length, All,
  arith, sym, All-append,
}
use mathlib.Core.List.{append-nil, append_assoc}
use aleo_pool_server.Stratum.{StratumMessage}
use aleo_pool_server.Codec.{Checked, ok, ◌>>=◌, Json}
use aleo_pool_server.Codec.Encode.{message_bytes, encode}
use aleo_pool_server.Codec.Decode.{decode_chunk, decode}
use aleo_pool_server.Codec.Faithful.{normal, IsRegular, IsFaithful}
use aleo_pool_server.Codec.RoundTrip.{decode-encode}

module _ {RequestId Error : Type 0} (j : Json RequestId Error) where
  open j use {
    Number, Other, of_u64, as_u64, Chunk, request_to_vec, response_to_vec, from_utf8, Document,
    from_slice, is_object, contains_key, request_from_value, response_from_value, Buffer,
    Delimiters, delimit, next_chunk,
  }

  module _ (l : IsFaithful j) where
    -- The texts of messages.
    abbrev pub texts : List (StratumMessage RequestId Error) → List Chunk
    texts = map (λ m. message_bytes j m)

    -- Messages encoded one behind the other.
    abbrev pub encode_all : List (StratumMessage RequestId Error) → Buffer → Checked Buffer
    encode_all [] dst = ok dst
    encode_all (m ∷ ms) dst = encode j m dst >>= encode_all ms

    -- At most so many messages, until the buffer has none.
    abbrev pub decode_all :
        ℕ → Delimiters → Buffer → Checked (List (StratumMessage RequestId Error))
    decode_all zero codec src = ok []
    decode_all (suc n) codec src =
        let (read, codec', src') = decode j codec src in
        read >>= (λ message. elim message [
          | none ↦ ok []
          | some m ↦ decode_all n codec' src' >>= (λ ms. ok (m ∷ ms))
        ])

    texts-append :
        (ms : List (StratumMessage RequestId Error)) (cs : List Chunk)
        → All IsRegular ms
        → All l.Fits (texts ms)
        → All l.Fits cs
        → encode_all ms (l.holding cs) ≡ ok (l.holding (cs ++ texts ms))
    texts-append [] cs h f a = ap (λ b. ok (l.holding b)) (sym (append-nil cs))
    texts-append (m ∷ ms) cs h f a =
        let c = message_bytes j m in
        rw (decode-encode j l cs m h.0 f.0 a).0 (
          texts-append ms (cs ++ c ∷ []) h.1 f.1 (All-append l.Fits cs (c ∷ []) a (f.0, tt))
          ∙ ap (λ b. ok (l.holding b)) (append_assoc cs (c ∷ []) (texts ms)))

    empty : (n : ℕ) → decode_all (suc n) l.fresh (l.holding []) ≡ ok []
    unfolding decode decode_chunk
    empty n = rw l.next_of_none refl

    decode_all-next :
        (n : ℕ) (codec codec' : Delimiters) (src src' : Buffer) (m : StratumMessage RequestId Error)
        → decode j codec src ≡ (ok (some m), codec', src')
        → decode_all (suc n) codec src ≡ (decode_all n codec' src' >>= (λ ms. ok (m ∷ ms)))
    decode_all-next n codec codec' src src' m e =
        ap
          (λ read. read.0 >>= (λ message. elim message [
            | none ↦ ok []
            | some m ↦ decode_all n read.1 read.2 >>= (λ ms. ok (m ∷ ms))
          ]))
          e

    decode_all-texts :
        (n : ℕ) (ms : List (StratumMessage RequestId Error))
        → length ms < n
        → All IsRegular ms
        → All l.Fits (texts ms)
        → decode_all n l.fresh (l.holding (texts ms)) ≡ ok (map normal ms)
    decode_all-texts zero ms b h f = absurd (omega arith)
    decode_all-texts (suc n) [] b h f = empty n
    decode_all-texts (suc n) (m ∷ ms) b h f =
        decode_all-next n l.fresh l.fresh _ _ (normal m)
          (decode-encode j l (texts ms) m h.0 f.0 f.1).1
        ∙ ap (λ read. read >>= (λ ms. ok (normal m ∷ ms)))
            (decode_all-texts n ms (omega arith) h.1 f.1)

    -- If the other crates read back what they wrote, as `IsFaithful` says, then messages whose numbers are
    -- `u64`s, whose answers have no null result and whose texts fit are all encoded into an empty buffer,
    -- and reading that buffer, once more than there are messages, gives the normal forms of all of
    -- them, in their order, and then nothing.
    pub decode_all-encode_all :
        (ms : List (StratumMessage RequestId Error))
        → All IsRegular ms
        → All l.Fits (texts ms)
        → (b : Buffer) × (encode_all ms (l.holding []) ≡ ok b)
          × (decode_all (length ms + 1) l.fresh b ≡ ok (map normal ms))
    decode_all-encode_all ms h f = (
      l.holding (texts ms),
      texts-append ms [] h f tt,
      decode_all-texts (length ms + 1) ms (omega arith) h f,
    )
