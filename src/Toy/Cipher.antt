-- ===== src/Toy/Cipher.antt =====
-- A cipher that hides nothing, and refuses another key and other additional data.
use touchvault.Base.{ℕ, zero, suc, Bytes, Option, none, some, ◌≡◌, refl, arith}
use touchvault.Base.{[], ◌∷◌, length, if◌then◌else◌, ◌==◌}
use touchvault.Platform.Ciphers.{Aead, Crypto, IsGcm, BindsData}

-- So many of the bytes, and zeros from where they end.
abbrev pub fit : ℕ → Bytes → Bytes
fit zero b = []
fit (suc n) [] = 0 ∷ fit n []
fit (suc n) (x ∷ xs) = x ∷ fit n xs

pub length-fit : (n : ℕ) (b : Bytes) → length (fit n b) ≡ n
length-fit zero b = refl
length-fit (suc n) [] = omega (arith, length-fit n [])
length-fit (suc n) (x ∷ xs) = omega (arith, length-fit n xs)

-- The bytes of a frame in front of others: a 1 before each, and a 0 at the end.
abbrev pub framed : Bytes → Bytes → Bytes
framed [] rest = 0 ∷ rest
framed (x ∷ xs) rest = 1 ∷ x ∷ framed xs rest

abbrev unframed : Bytes → Bytes → Option Bytes
unframed [] (zero ∷ rest) = some rest
unframed (x ∷ xs) (suc zero ∷ y ∷ rest) = if x == y then unframed xs rest else none
unframed _ _ = none

unframed-framed : (a rest : Bytes) → unframed a (framed a rest) ≡ some rest
unframed-framed [] rest = refl
unframed-framed (x ∷ xs) rest = ground (arith, unframed-framed xs rest)

unframed_same : (a d rest q : Bytes) → unframed d (framed a rest) ≡ some q → d ≡ a
unframed_same [] [] rest q h = refl
unframed_same [] (y ∷ ys) rest q h = absurd (ground arith)
unframed_same (x ∷ xs) [] rest q h = absurd (ground arith)
unframed_same (x ∷ xs) (y ∷ ys) rest q h = ground (arith, unframed_same xs ys rest q)

unframed_twin : (a b c p q : Bytes) → unframed a c ≡ some p → unframed b c ≡ some q → p ≡ q
unframed_twin [] b [] p q h k = absurd (ground arith)
unframed_twin (x ∷ a) b [] p q h k = absurd (ground arith)
unframed_twin [] [] (zero ∷ c) p q h k = ground arith
unframed_twin [] [] (suc n ∷ c) p q h k = absurd (ground arith)
unframed_twin [] (y ∷ b) (zero ∷ c) p q h k = absurd (ground arith)
unframed_twin [] (y ∷ b) (suc n ∷ c) p q h k = absurd (ground arith)
unframed_twin (x ∷ a) [] (zero ∷ c) p q h k = absurd (ground arith)
unframed_twin (x ∷ a) [] (suc n ∷ c) p q h k = absurd (ground arith)
unframed_twin (x ∷ a) (y ∷ b) (zero ∷ c) p q h k = absurd (ground arith)
unframed_twin (x ∷ a) (y ∷ b) (suc zero ∷ []) p q h k = absurd (ground arith)
unframed_twin (x ∷ a) (y ∷ b) (suc zero ∷ z ∷ c) p q h k = ground (arith, unframed_twin a b c p q)
unframed_twin (x ∷ a) (y ∷ b) (suc (suc n) ∷ c) p q h k = absurd (ground arith)

abbrev unframed_twice : Bytes → Bytes → Bytes → Option Bytes
unframed_twice k d c = elim (unframed k c) [ none ↦ none | some rest ↦ unframed d rest ]

abbrev toy_aead : Bytes → Aead
toy_aead k = record {
  nonce_size = 2;
  seal = λ n p a. framed k (framed a p);
  open_sealed = λ n c d. unframed_twice k d c;
}

abbrev pub toy_crypto : Crypto
toy_crypto = record {
  Block = Bytes;
  new_cipher = λ k. some k;
  new_gcm = λ k. some (toy_aead k);
  hkdf_key = λ s t i n. some (fit n s);
  sha256 = λ b. b;
}

pub toy-IsGcm : IsGcm toy_crypto
toy-IsGcm = record {
  cipher_32 = λ k h. (k, refl);
  gcm_of_block = λ b. (toy_aead b, refl);
  open-seal = λ b g n p a h s. ground (arith, unframed-framed b (framed a p), unframed-framed a p);
  hkdf_32 = λ s t i. (fit 32 s, refl, length-fit 32 s);
}

pub toy-BindsData : BindsData toy_crypto
toy-BindsData = record {
  binds =
      λ b g m n p q a d h o. ground (arith, unframed-framed b (framed a p), unframed_same a d p q);
}
