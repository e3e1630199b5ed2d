-- ===== src/Vault/Session/Closing.antt =====
-- What `Close` leaves of a secret's reader.
use touchvault.Base.{Bytes, [], ◌∷◌, ◌≡◌, All, length, refl, arith}
use touchvault.Crypto.Pure.{zero_bytes}
use touchvault.Vault.Session.{read_all, close, new_reader}

zero_bytes_lem : (b : Bytes) → All (λ x. x ≡ 0) (zero_bytes b) × (length (zero_bytes b) ≡ length b)
unfolding zero_bytes
zero_bytes_lem [] = (tt, refl)
zero_bytes_lem (x ∷ xs) = let rest = zero_bytes_lem xs in ((refl, rest.0), omega (arith, rest.1))

-- A reader of a secret gives the whole plaintext once, and then nothing. However much of it was
-- read, once it is closed it gives nothing, every byte of its buffer is overwritten by 0, and
-- closing it again changes nothing.
pub close_lem :
    (plaintext : Bytes)
    → let (all, read) = read_all (new_reader plaintext) in
      (all ≡ plaintext)
      × (close (close read) ≡ close read)
      × ((read_all (close read)).0 ≡ [])
      × ((read_all (close (new_reader plaintext))).0 ≡ [])
      × All (λ x. x ≡ 0) (close read).buf
      × (length (close read).buf ≡ length plaintext)
unfolding read_all close
close_lem plaintext =
    let zeros = zero_bytes_lem plaintext in (refl, refl, refl, refl, zeros.0, zeros.1)
