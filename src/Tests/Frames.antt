-- ===== src/Tests/Frames.antt =====
-- Messages of the earlier protocol, in a format in which each value of the other crates is one number, and
-- a text its characters, each one more than its code, and a zero.
use Prim.Native.Nat.{Ordering, compare}
use Prim.Native.Char.{Char, char, code, nul, IsLt}
use Prim.Native.String.{String, [] as empty_text, ◌∷◌ as ◌:>◌}
use aleo_pool_server.Prelude.{
  ℕ, zero, suc, ◌<◌, ◌≤◌, ◌≡◌, refl, ap, ◌∙◌, List, [], ◌∷◌, ◌++◌, some, none, length, true,
}
use aleo_pool_server.Legacy.{Formats, submit_result, encode, decode}
use aleo_pool_server.Legacy.Bytes.{Result, ok, failed}
use aleo_pool_server.Legacy.Frames.{IsReadable}
use aleo_pool_server.Legacy.RoundTrip.{decode-encode_message}

-- `IsScalar` of a number, by its three comparisons.
abbrev IsBelow : Ordering → Ordering → Type 0
IsBelow Ordering.lt o = IsLt o
IsBelow Ordering.eq o = ⊥
IsBelow Ordering.gt o = ⊥

abbrev IsCharCode : Ordering → Ordering → Ordering → Type 0
IsCharCode Ordering.lt o p = Unit
IsCharCode Ordering.eq o p = IsBelow o p
IsCharCode Ordering.gt o p = IsBelow o p

abbrev below : (o p : Ordering) → (IsBelow o p → Char) → Char
below Ordering.lt Ordering.lt f = f tt
below _ _ f = nul

abbrev pick : (o p q : Ordering) → (IsCharCode o p q → Char) → Char
pick Ordering.lt p q f = f tt
pick Ordering.eq p q f = below p q f
pick Ordering.gt p q f = below p q f

below_lem : (o p : Ordering) (f : IsBelow o p → Char) (x : IsBelow o p) → below o p f ≡ f x
below_lem Ordering.lt Ordering.lt f x = refl
below_lem Ordering.lt Ordering.eq f x = absurd x
below_lem Ordering.lt Ordering.gt f x = absurd x
below_lem Ordering.eq p f x = absurd x
below_lem Ordering.gt p f x = absurd x

pick_lem :
    (o p q : Ordering) (f : IsCharCode o p q → Char) (x : IsCharCode o p q) → pick o p q f ≡ f x
pick_lem Ordering.lt p q f x = refl
pick_lem Ordering.eq p q f x = below_lem p q f x
pick_lem Ordering.gt p q f x = below_lem p q f x

abbrev to_char : ℕ → Char
to_char n = pick (compare n 55296) (compare 57343 n) (compare n 1114112) (char n)

to_char-code : (c : Char) → to_char (code c) ≡ c
to_char-code (char n p) =
    pick_lem (compare n 55296) (compare 57343 n) (compare n 1114112) (char n) p

abbrev text_bytes : String → List ℕ
text_bytes empty_text = 0 ∷ []
text_bytes (c :> s) = suc (code c) ∷ text_bytes s

abbrev push_char : ℕ → Result String × List ℕ → Result String × List ℕ
push_char n (ok s, bytes) = (ok (to_char n :> s), bytes)
push_char n (failed e, bytes) = (failed e, bytes)

abbrev read_text : List ℕ → Result String × List ℕ
read_text [] = (failed "no text", [])
read_text (zero ∷ bytes) = (ok "", bytes)
read_text (suc n ∷ bytes) = push_char n (read_text bytes)

read_text-text_bytes :
    (s : String) (rest : List ℕ) → read_text (text_bytes s ++ rest) ≡ (ok s, rest)
read_text-text_bytes empty_text rest = refl
read_text-text_bytes (c :> s) rest =
    ap (push_char (code c)) (read_text-text_bytes s rest)
    ∙ ap (λ c. (ok (c :> s), rest)) (to_char-code c)

abbrev read_number : List ℕ → Result ℕ × List ℕ
read_number [] = (failed "no number", [])
read_number (n ∷ bytes) = (ok n, bytes)

abbrev formats : Formats
formats = record {
  Address = ℕ;
  BlockTemplate = ℕ;
  Nonce = ℕ;
  Proof = ℕ;
  write_address = λ a. record { run = λ dst. (ok tt, dst ++ a ∷ []) };
  read_address = record { run = read_number };
  write_text = λ s. record { run = λ dst. (ok tt, dst ++ text_bytes s) };
  read_text = record { run = read_text };
  write_template = λ t. record { run = λ dst. (ok tt, dst ++ t ∷ []) };
  read_template = record { run = read_number };
  write_nonce = λ n. record { run = λ dst. (ok tt, dst ++ n ∷ []) };
  read_nonce = record { run = read_number };
  write_proof = λ p. record { run = λ dst. (ok tt, dst ++ p ∷ []) };
  read_proof = record { run = read_number };
}

formats-IsReadable : IsReadable formats
formats-IsReadable = record {
  reads_address = λ a. (a ∷ [], λ dst. refl, λ rest. refl);
  reads_text = λ s. (text_bytes s, λ dst. refl, read_text-text_bytes s);
  reads_template = λ t. (t ∷ [], λ dst. refl, λ rest. refl);
  reads_nonce = λ n. (n ∷ [], λ dst. refl, λ rest. refl);
  reads_proof = λ p. (p ∷ [], λ dst. refl, λ rest. refl);
}

decode-encode_message_example :
    (bytes : List ℕ) × ((encode formats (submit_result true (some "ok"))).run [] ≡ (ok tt, bytes))
    × (length bytes ≤ 1048580
        → ((rest : List ℕ)
            → decode formats (bytes ++ rest) ≡ (ok (some (submit_result true (some "ok"))), rest))
          × ((part rest : List ℕ)
              → part ++ rest ≡ bytes
              → 0 < length rest
              → decode formats part ≡ (ok none, part)))
decode-encode_message_example =
    decode-encode_message formats formats-IsReadable (submit_result true (some "ok")) tt
