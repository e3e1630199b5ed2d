-- ===== src/Vault/Working/Live.antt =====
-- `Create` and `Put` where everything around the core works.
use touchvault.Base.{
  subst, ℤ, Bytes, Text, true, false, some, [], ◌∷◌, ◌≡◌, ◌≢◌, length, arith, refl, is_empty,
  list_eq_iff, nat_Eq, ◌∙◌, ap, is_empty, list_Eq,
}
use touchvault.Errors.{ok, Result}
use touchvault.Authenticator.{Authenticator, uv_discouraged, salt_len}
use touchvault.Platform.{Platform, IsFullRead, NeverFails}
use touchvault.Platform.Ciphers.{IsGcm}
use touchvault.World.{World, random_bytes}
use touchvault.Sealed.Document.{SealedKey, SealedVault}
use touchvault.Sealed.Find.{find_key, find_key_in}
use touchvault.Crypto.Pure.{data_key_len, unwrap_data_key}
use touchvault.Crypto.Seal.{new_salt, new_data_key, wrap_data_key}
use touchvault.Vault.Options.{Options, Vault, Session, validate, label, first_slot}
use touchvault.Vault.Create.{create, blank}
use touchvault.Vault.Open.{unlock}
use touchvault.Vault.Created.{create_lem, proven_doc}
use touchvault.Vault.Session.{Machine, key, put, read_string}
use touchvault.Vault.Session.Writing.{read_string-put}
use touchvault.Vault.Calls.{Reach}
use touchvault.Vault.Calls.Sound.{held_unlocked}
use touchvault.Vault.Calls.Preserved.{Reach-IsSound}
use touchvault.Vault.Reopening.{create-IsSound}
use touchvault.Vault.Working.{IsWorkingKey}
use touchvault.Vault.Working.Entries.{
  wrap_data_key-outside, random_bytes_total, seal_secret_total, wrap_data_key_total,
}
use touchvault.Vault.Working.Enrolled.{enroll_and_derive_total, verify_total}
use touchvault.Vault.Working.Unlocks.{unlock_working}
use touchvault.Crypto.Fields.{random_bytes-eq-ok, wrap_data_key-fields, unwrap_data_key-keys}
use touchvault.Crypto.RoundTrip.{unwrap-wrap}

module _ (P : Platform) (law : IsGcm P.crypto) (full : IsFullRead P) (never : NeverFails P) where
  -- A credential that is held before the data key is drawn and wrapped is held after.
  still_held :
      (auth : Authenticator P.Outside) (opts : Options P) (working : IsWorkingKey P auth opts.roots)
      (id : Bytes) (doc : SealedVault) (k prf : Bytes) (slot : ℤ) (w₃ w₄ w₅ : World P)
      (entry : SealedKey) (drawn : Bytes)
      → working.holds w₃.outside opts.rpid id
      → random_bytes P data_key_len w₃ ≡ (ok drawn, w₄)
      → wrap_data_key P doc k id prf slot (label opts) w₄ ≡ (ok entry, w₅)
      → working.holds w₅.outside opts.rpid id
  unfolding random_bytes
  still_held auth opts working id doc k prf slot w₃ w₄ w₅ entry drawn held keyed wrapped =
      let (n, drew) = wrap_data_key-outside P doc k id prf slot (label opts) w₄ w₅ entry wrapped in
      let before : (P.rand_read data_key_len w₃.outside).1 ≡ w₄.outside =
        ap (λ (r : Result Bytes × World P). r.1.outside) keyed in
      let held₄ =
        subst (λ t. working.holds t opts.rpid id) before
          (working.draw_keeps data_key_len w₃.outside opts.rpid id held) in
      subst (λ t. working.holds t opts.rpid id) drew
        (working.draw_keeps n w₄.outside opts.rpid id held₄)

  -- What a `Create` with a working key gives: one entry, for a credential that the key holds, which
  -- unwraps the data key with the key's output.
  create_returns :
      (auth : Authenticator P.Outside) (opts : Options P) (working : IsWorkingKey P auth opts.roots)
      → opts.rpid ≢ []
      → (w : World P)
      → (salt : Bytes) × (id : Bytes) × (entry : SealedKey) × (s : Session P) × (w' : World P)
        × (create P auth opts w ≡ (ok s, w'))
        × (s.doc ≡ record (proven_doc opts salt working.verified) { keys = entry ∷ [] })
        × (s.opts ≡ opts)
        × (length salt ≡ salt_len)
        × (entry.credential_id ≡ id)
        × working.holds w'.outside opts.rpid id
        × (id ≢ [])
        × (unwrap_data_key P.crypto s.doc entry (working.output opts.rpid id salt) ≡ ok s.data_key)
  unfolding create validate new_salt new_data_key
  create_returns auth opts working named w =
      let (salt, w₁, salted) = random_bytes_total P never salt_len w in
      let size = (random_bytes-eq-ok P full salt_len w w₁ salted).0 in
      let (cred, w₂, enrolled, mine, held₂, has_id) =
        enroll_and_derive_total P never auth opts working (blank P opts.rpid salt) uv_discouraged w₁
          size in
      let id = cred.credential_id in
      let prf = working.output opts.rpid id salt in
      let (w₃, passed, held₃) =
        verify_total P never auth opts working opts.rpid id salt uv_discouraged w₂ held₂ has_id
          size in
      let (data_key, w₄, keyed) = random_bytes_total P never data_key_len w₃ in
      let doc = proven_doc opts salt working.verified in
      let (entry, w₅, wrapped) =
        wrap_data_key_total P law never doc data_key id prf first_slot (label opts) w₄
          (working.has_output opts.rpid id salt has_id) in
      let fields =
        wrap_data_key-fields P doc data_key id prf first_slot (label opts) w₄ w₅ wrapped in
      let opens =
        unwrap-wrap P law full doc data_key id prf first_slot (label opts) w₄ w₅ wrapped in
      let held₅ =
        still_held auth opts working id doc data_key prf first_slot w₃ w₄ w₅ entry data_key held₃
          keyed wrapped in
      (
        salt,
        id,
        entry,
        record { doc = record doc { keys = entry ∷ [] }; opts = opts; data_key = data_key },
        w₅,
        ground (arith, named),
        refl,
        refl,
        size,
        fields.2,
        held₅,
        has_id,
        unwrap_data_key-keys P.crypto doc (entry ∷ []) entry prf ∙ opens,
      )

  -- Where the ciphers and the entropy source work as documented, `Create` with a working key and a
  -- relying party returns a session, whose document was proven salt-dependent. Whatever happens
  -- then outside the process, as long as the key keeps the credentials that it holds, the key
  -- unlocks the document, and the session is the one that `Create` returned.
  pub create_total :
      (auth : Authenticator P.Outside) (opts : Options P) (working : IsWorkingKey P auth opts.roots)
      (later : P.Outside → P.Outside)
      → ((s : P.Outside) (id : Bytes)
          → working.holds s opts.rpid id
          → working.holds (later s) opts.rpid id)
      → opts.rpid ≢ []
      → (w : World P)
      → (s : Session P) × (w' : World P) × (create P auth opts w ≡ (ok s, w'))
        × (s.doc.entropy_verified ≡ true)
        × ((unlock P
              (record { doc = s.doc; opts = s.opts })
              auth
              (record w' { outside = later w'.outside })).0
            ≡ ok s)
  unfolding find_key find_key_in
  create_total auth opts working later lasting named w =
      let (salt, id, entry, s, w', created, doc, same_opts, size, same_id, held, has_id, opens) =
        create_returns auth opts working named w in
      let v : Vault P = record { doc = s.doc; opts = s.opts } in
      (
        s,
        w',
        created,
        ground (arith, doc),
        unlock_working P never auth opts working v (record w' { outside = later w'.outside }) id
            entry s.data_key (rw doc (lasting w'.outside id held))
            (λ other listed its. ground (arith, doc, same_id, listed, list_eq_iff id other))
            (rw (doc, same_id) (has_id, tt)) (rw doc size) (rw doc refl) (rw doc refl)
            (ground (arith, doc, same_id, list_eq_iff id id)) (rw doc (rw doc at opens)),
      )

  -- Where the ciphers and the entropy source work as documented, in whatever state calls have
  -- brought a session that `Create` returned, unless it is locked: `Put` of a value under a name
  -- that is not empty succeeds, and the name then reads as the value.
  pub put_total :
      (auth : Authenticator P.Outside) (opts : Options P) (w w' : World P) (s : Session P)
      → create P auth opts w ≡ (ok s, w')
      → (n : Machine P) → Reach (record { session = s; world = w' }) n
      → is_empty n.session.data_key ≡ false
      → (name : Text) (p : Bytes) → name ≢ []
      → (m : Machine P) × (put P name (some (ok p)) n ≡ (ok tt, m))
        × ((read_string P name m).0 ≡ ok p)
  unfolding put key
  put_total auth opts w w' s created n reach unlocked name p named =
      let i =
        Reach-IsSound P s.doc s.data_key law full
          (create-IsSound P law full auth opts w w' s created) reach in
      let held = held_unlocked P s.doc s.data_key n.session i unlocked in
      let (_, _, _, _, _, _, _, _, _, _, _, _, _, _, _, size, _, _, _, _, _) =
        create_lem P law full auth opts w w' s created in
      let (entry, w₁, sealed) =
        seal_secret_total P law never n.session.doc n.session.data_key name p n.world
          (ground (arith, held, size)) in
      let m = (put P name (some (ok p)) n).1 in
      let done : put P name (some (ok p)) n ≡ (ok tt, m) = ground arith in
      (
        m,
        done,
        ground (arith, read_string-put P law full name p name n m done, list_eq_iff name name),
      )
