-- ===== src/Legacy/Bytes.antt =====
-- Writing to the end of a buffer and reading from its front, with `?` on errors; `BytesMut`, its `Writer`
-- and its `Reader`.
use Prim.Native.String.{String}
use mathlib.Core.List.{append_assoc}
use aleo_pool_server.Prelude.{
  ℕ, zero, suc, ◌≡◌, refl, ltb, if◌then◌else◌, List, [], ◌∷◌, ◌++◌, length, from_le_bytes,
  to_le_bytes, ◌≤◌, ◌<◌, ◌^◌, ◌∙◌, ap, sym, arith, le→ltb_false, length-append, length-to_le_bytes,
  from_le_bytes-to_le_bytes,
}

pub data Result (A : Type 0) : Type 0 where
  ok : A → Result A
  failed : String → Result A

-- A computation on a buffer; an error leaves the buffer as it is then.
pub record Io (A : Type 0) : Type 0 where
  pub run : List ℕ → Result A × List ℕ

abbrev pub after : {A B : Type 0} → (A → Io B) → Result A → List ℕ → Result B × List ℕ
after f (ok a) bytes = (f a).run bytes
after f (failed e) bytes = (failed e, bytes)

infixl 5 ◌>>=◌
abbrev pub ◌>>=◌ : {A B : Type 0} → Io A → (A → Io B) → Io B
x >>= f = record { run = λ bytes. let (result, bytes') = x.run bytes in after f result bytes' }

abbrev pub pure : {A : Type 0} → A → Io A
pure a = record { run = λ bytes. (ok a, bytes) }

abbrev pub fail : {A : Type 0} → String → Io A
fail e = record { run = λ bytes. (failed e, bytes) }

-- The first bytes, and the others.
abbrev pub take : ℕ → List ℕ → List ℕ
take zero bytes = []
take (suc n) [] = []
take (suc n) (b ∷ bytes) = b ∷ take n bytes

abbrev pub drop : ℕ → List ℕ → List ℕ
drop zero bytes = bytes
drop (suc n) [] = []
drop (suc n) (b ∷ bytes) = drop n bytes

-- `write_all`, which does not fail on a `BytesMut`.
unfoldable pub write_all : List ℕ → Io Unit
write_all bytes = record { run = λ dst. (ok tt, dst ++ bytes) }

-- `dst[..n].copy_from_slice(..)`, for n bytes and a buffer that has so many.
unfoldable pub set_front : ℕ → (List ℕ → List ℕ) → Io Unit
set_front n bytes = record { run = λ dst. (ok tt, bytes dst ++ drop n dst) }

-- `read_exact`, which takes what there is before it fails.
unfoldable pub read_exact : ℕ → Io (List ℕ)
read_exact n = record {
  run = λ src.
      if ltb (length src) n
      then (failed "failed to fill whole buffer", [])
      else (ok (take n src), drop n src);
}

unfoldable pub read_le : ℕ → Io ℕ
read_le n = do bytes ← read_exact n; pure (from_le_bytes bytes)

unfoldable pub read_u8 : Io ℕ
read_u8 = read_le 1

-- What is written as bytes, whatever the buffer holds.
abbrev pub Writes : Io Unit → List ℕ → Type 0
Writes x bytes = (dst : List ℕ) → x.run dst ≡ (ok tt, dst ++ bytes)

-- What is read from bytes, whatever comes after them.
abbrev pub Reads : {A : Type 0} → Io A → List ℕ → A → Type 0
Reads x bytes a = (rest : List ℕ) → x.run (bytes ++ rest) ≡ (ok a, rest)

-- What is written and read again.
abbrev pub Codes : {A : Type 0} → Io Unit → Io A → A → Type 0
Codes x y a = (bytes : List ℕ) × Writes x bytes × Reads y bytes a

pub Reads-after :
    {A B : Type 0} (y : Io A) (f : A → Io B) (bytes bytes' : List ℕ) (a : A) (b : B)
    → Reads y bytes a
    → Reads (f a) bytes' b
    → Reads (y >>= f) (bytes ++ bytes') b
Reads-after y f bytes bytes' a b r r' = λ rest.
    ap (λ src. (y >>= f).run src) (append_assoc bytes bytes' rest)
    ∙ ap (λ s. after f s.0 s.1) (r (bytes' ++ rest))
    ∙ r' rest

pub Codes-after :
    {A B : Type 0} (x x' : Io Unit) (y : Io A) (f : A → Io B) (a : A) (b : B)
    → Codes x y a
    → Codes x' (f a) b
    → Codes (x >>= (λ _. x')) (y >>= f) b
Codes-after x x' y f a b (bytes, w, r) (bytes', w', r') = (
  bytes ++ bytes',
  λ dst.
      ap (λ s. after (λ _. x') s.0 s.1) (w dst)
      ∙ w' (dst ++ bytes)
      ∙ ap (λ d. (ok tt, d)) (append_assoc dst bytes bytes'),
  Reads-after y f bytes bytes' a b r r',
)

pub Codes-pure :
    {A B : Type 0} (x : Io Unit) (y : Io A) (f : A → B) (a : A)
    → Codes x y a
    → Codes x (y >>= (λ a. pure (f a))) (f a)
Codes-pure x y f a (bytes, w, r) =
    (bytes, w, λ rest. ap (λ s. after (λ a. pure (f a)) s.0 s.1) (r rest))

pub take-append : (xs ys : List ℕ) → take (length xs) (xs ++ ys) ≡ xs
take-append [] ys = refl
take-append (x ∷ xs) ys = ap (◌∷◌ x) (take-append xs ys)

pub drop-append : (xs ys : List ℕ) → drop (length xs) (xs ++ ys) ≡ ys
drop-append [] ys = refl
drop-append (x ∷ xs) ys = drop-append xs ys

pub take-append_long : (n : ℕ) (xs ys : List ℕ) → n ≤ length xs → take n (xs ++ ys) ≡ take n xs
take-append_long zero xs ys h = refl
take-append_long (suc n) [] ys h = absurd (omega arith)
take-append_long (suc n) (x ∷ xs) ys h = ap (◌∷◌ x) (take-append_long n xs ys (omega arith))

-- A number that fits into so many bytes.
pub Reads-le : (k n : ℕ) → n < 256 ^ k → Reads (read_le k) (to_le_bytes k n) n
unfolding read_le read_exact
Reads-le k n h = λ rest.
    let bytes = to_le_bytes k n in
    let size = length-to_le_bytes k n in
    let enough =
      le→ltb_false (length (bytes ++ rest)) k (omega (arith, size, length-append bytes rest)) in
    let front : take k (bytes ++ rest) ≡ bytes =
      ap (λ i. take i (bytes ++ rest)) (sym size) ∙ take-append bytes rest in
    let back : drop k (bytes ++ rest) ≡ rest =
      ap (λ i. drop i (bytes ++ rest)) (sym size) ∙ drop-append bytes rest in
    rw (enough, front, back) (ap (λ i. (ok i, rest)) (from_le_bytes-to_le_bytes k n h))

pub Codes-le : (k n : ℕ) → n < 256 ^ k → Codes (write_all (to_le_bytes k n)) (read_le k) n
unfolding write_all
Codes-le k n h = (to_le_bytes k n, λ dst. refl, Reads-le k n h)

pub Reads-byte : (b : ℕ) → Reads read_u8 (b ∷ []) b
unfolding read_u8 read_le read_exact from_le_bytes
Reads-byte b rest = ground arith

pub Codes-byte : (b : ℕ) → Codes (write_all (b ∷ [])) read_u8 b
unfolding write_all
Codes-byte b = (b ∷ [], λ dst. refl, Reads-byte b)
