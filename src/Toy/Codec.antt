-- ===== src/Toy/Codec.antt =====
-- Values as bytes, one after another, and the sealed document as such.
use touchvault.Base.{ℕ, zero, suc, ℤ, pos, negsuc, Bytes, Bool, true, false, Option, none, some}
use touchvault.Base.{List, [], ◌∷◌, ◌≡◌, refl, length, arith, map, ltb, if◌then◌else◌}
use touchvault.Sealed.Document.{SealedKey, SealedSecret, SealedVault}
use touchvault.Platform.Serializer.{Json, IsJson, coerced_vault}

pub record Codec (A : Type 0) : Type 0 where
  pub enc : A → Bytes → Bytes
  pub dec : Bytes → Option (A × Bytes)
  pub dec-enc : (a : A) (rest : Bytes) → dec (enc a rest) ≡ some (a, rest)

abbrev dec_nat : Bytes → Option (ℕ × Bytes)
dec_nat [] = none
dec_nat (n ∷ rest) = some (n, rest)

abbrev nat_codec : Codec ℕ
nat_codec = record { enc = λ n rest. n ∷ rest; dec = dec_nat; dec-enc = λ n rest. refl }

module _ {A B : Type 0} (a : Codec A) (b : Codec B) where
  abbrev dec_pair : Bytes → Option ((A × B) × Bytes)
  dec_pair s = elim (a.dec s) [
    | none ↦ none
    | some (x, t) ↦ elim (b.dec t) [ none ↦ none | some (y, u) ↦ some ((x, y), u) ]
  ]

  pub dec_pair-enc :
      (p : A × B) (rest : Bytes) → dec_pair (a.enc p.0 (b.enc p.1 rest)) ≡ some (p, rest)
  dec_pair-enc (x, y) rest = ground (arith, a.dec-enc x (b.enc y rest), b.dec-enc y rest)

  abbrev pair_codec : Codec (A × B)
  pair_codec = record {
    enc = λ p rest. a.enc p.0 (b.enc p.1 rest);
    dec = dec_pair;
    dec-enc = dec_pair-enc;
  }

module _ {A B : Type 0} (a : Codec A) (f : A → B) (g : B → A) (f-g : (y : B) → f (g y) ≡ y) where
  abbrev dec_as : Bytes → Option (B × Bytes)
  dec_as s = elim (a.dec s) [ none ↦ none | some (x, t) ↦ some (f x, t) ]

  pub dec_as-enc : (y : B) (rest : Bytes) → dec_as (a.enc (g y) rest) ≡ some (y, rest)
  dec_as-enc y rest = ground (arith, a.dec-enc (g y) rest, f-g y)

  abbrev as_codec : Codec B
  as_codec = record { enc = λ y rest. a.enc (g y) rest; dec = dec_as; dec-enc = dec_as-enc }

module _ {A : Type 0} (a : Codec A) where
  abbrev enc_list : List A → Bytes → Bytes
  enc_list [] rest = rest
  enc_list (x ∷ xs) rest = a.enc x (enc_list xs rest)

  abbrev dec_list : ℕ → Bytes → Option (List A × Bytes)
  dec_list zero s = some ([], s)
  dec_list (suc n) s = elim (a.dec s) [
    | none ↦ none
    | some (x, t) ↦ elim (dec_list n t) [ none ↦ none | some (xs, u) ↦ some (x ∷ xs, u) ]
  ]

  abbrev dec_counted : Bytes → Option (List A × Bytes)
  dec_counted [] = none
  dec_counted (n ∷ s) = dec_list n s

  pub dec_list-enc :
      (xs : List A) (rest : Bytes) → dec_list (length xs) (enc_list xs rest) ≡ some (xs, rest)
  dec_list-enc [] rest = refl
  dec_list-enc (x ∷ xs) rest = ground (arith, a.dec-enc x (enc_list xs rest), dec_list-enc xs rest)

  abbrev list_codec : Codec (List A)
  list_codec = record {
    enc = λ xs rest. length xs ∷ enc_list xs rest;
    dec = dec_counted;
    dec-enc = dec_list-enc;
  }

abbrev int_of : ℕ × ℕ → ℤ
int_of (zero, n) = pos n
int_of (suc k, n) = negsuc n

abbrev of_int : ℤ → ℕ × ℕ
of_int (pos n) = (0, n)
of_int (negsuc n) = (1, n)

pub int_of-of_int : (a : ℤ) → int_of (of_int a) ≡ a
int_of-of_int (pos n) = refl
int_of-of_int (negsuc n) = refl

abbrev bool_of : ℕ → Bool
bool_of zero = false
bool_of (suc n) = true

abbrev of_bool : Bool → ℕ
of_bool true = 1
of_bool false = 0

pub bool_of-of_bool : (b : Bool) → bool_of (of_bool b) ≡ b
bool_of-of_bool true = refl
bool_of-of_bool false = refl

abbrev int_codec : Codec ℤ
int_codec = as_codec (pair_codec nat_codec nat_codec) int_of of_int int_of-of_int

abbrev bool_codec : Codec Bool
bool_codec = as_codec nat_codec bool_of of_bool bool_of-of_bool

abbrev bytes_codec : Codec Bytes
bytes_codec = list_codec nat_codec

abbrev key_codec : Codec SealedKey
key_codec =
    as_codec
      (pair_codec int_codec
        (pair_codec bytes_codec (pair_codec bytes_codec (pair_codec bytes_codec bytes_codec))))
      (λ f. record {
        slot = f.0;
        label = f.1.0;
        credential_id = f.1.1.0;
        nonce = f.1.1.1.0;
        wrapped = f.1.1.1.1;
      })
      (λ k. (k.slot, (k.label, (k.credential_id, (k.nonce, k.wrapped))))) (λ k. refl)

abbrev secret_codec : Codec SealedSecret
secret_codec =
    as_codec (pair_codec bytes_codec (pair_codec bytes_codec bytes_codec))
      (λ f. record { name = f.0; nonce = f.1.0; ciphertext = f.1.1 })
      (λ s. (s.name, (s.nonce, s.ciphertext))) (λ s. refl)

abbrev vault_codec : Codec SealedVault
vault_codec =
    as_codec
      (pair_codec int_codec (
        pair_codec bytes_codec (
          pair_codec bytes_codec (
            pair_codec bool_codec (
              pair_codec bool_codec
                (pair_codec (list_codec key_codec) (list_codec secret_codec)))))))
      (λ f. record {
        format = f.0;
        rpid = f.1.0;
        salt = f.1.1.0;
        user_verified = f.1.1.1.0;
        entropy_verified = f.1.1.1.1.0;
        keys = f.1.1.1.1.1.0;
        secrets = f.1.1.1.1.1.1;
      })
      (λ v. (
        v.format,
        (v.rpid, (v.salt, (v.user_verified, (v.entropy_verified, (v.keys, v.secrets))))),
      ))
      (λ v. refl)

abbrev decoded : Bytes → Option SealedVault
decoded b = elim (vault_codec.dec b) [ none ↦ none | some (v, rest) ↦ some v ]

-- A byte that is no ASCII is written as a question mark.
abbrev ascii : Bytes → Bytes
ascii t = map (λ b. if ltb b 128 then b else 63) t

abbrev pub toy_json : Json
toy_json = record {
  coerced = ascii;
  marshal = λ v. some (
      vault_codec.enc
        (coerced_vault (record { coerced = ascii; marshal = λ v. none; unmarshal = decoded }) v)
        []);
  unmarshal = decoded;
}

pub toy-IsJson : IsJson toy_json
toy-IsJson = record {
  unmarshal-marshal = λ v. (
    vault_codec.enc (coerced_vault toy_json v) [],
    refl,
    ground (arith, vault_codec.dec-enc (coerced_vault toy_json v) []),
  );
}
