-- ===== src/Auth/Encryption/RoundTrip.antt =====
-- internal/auth/encryption.go: `Decrypt` on what `Encrypt` returns, and on what it accepts.
use signalstream.Common.{
  ℕ, zero, suc, ◌≤◌, ◌≡◌, refl, inl, inr, ap, [], ◌∷◌, ◌++◌, ok, Text, length, length-append, take,
  drop, ltb, Bool-cases, Result-cases, arith,
}
use signalstream.Platform.{World}
use signalstream.Auth.Encryption.{Aead, Crypto, Encryptor, open_gcm, encrypt, open_data, decrypt}

-- What the documentation of the packages promises.
pub record CryptoLaws {B E : Type 0} (c : Crypto B E) : Type 0 where
  pub decode-encode : (t : Text) → c.decode (c.encode t) ≡ ok t
  -- `io.ReadFull` fills the buffer or fails
  pub read_length :
      (n : ℕ) (w w' : World E) (t : Text) → c.read_random n w ≡ (ok t, w') → length t ≡ n
  pub open-seal :
      (block : B) (gcm : Aead) (nonce t : Text)
      → c.new_gcm block ≡ ok gcm
      → gcm.open_sealed nonce (gcm.seal nonce t) ≡ ok t
  -- `Open` authenticates: it accepts only what `Seal` makes of the text that it returns
  pub open_authentic :
      (block : B) (gcm : Aead) (nonce sealed t : Text)
      → c.new_gcm block ≡ ok gcm
      → gcm.open_sealed nonce sealed ≡ ok t
      → sealed ≡ gcm.seal nonce t

take-length : (xs ys : Text) → take (length xs) (xs ++ ys) ≡ xs
take-length [] ys = refl
take-length (x ∷ xs) ys = ap (λ l. x ∷ l) (take-length xs ys)

drop-length : (xs ys : Text) → drop (length xs) (xs ++ ys) ≡ ys
drop-length [] ys = refl
drop-length (x ∷ xs) ys = drop-length xs ys

take-append-drop : (n : ℕ) (xs : Text) → take n xs ++ drop n xs ≡ xs
take-append-drop zero xs = refl
take-append-drop (suc n) [] = refl
take-append-drop (suc n) (x ∷ xs) = ap (λ l. x ∷ l) (take-append-drop n xs)

length-take : (n : ℕ) (xs : Text) → n ≤ length xs → length (take n xs) ≡ n
length-take zero xs h = refl
length-take (suc n) [] h = absurd (omega arith)
length-take (suc n) (x ∷ xs) h = omega (arith, length-take n xs)

module _ {B E : Type 0} (c : Crypto B E) (laws : CryptoLaws c) (e : Encryptor) where
  -- The cipher that a call set up comes from `NewGCM`.
  open_gcm-block : (gcm : Aead) → open_gcm c e ≡ ok gcm → (block : B) × (c.new_gcm block ≡ ok gcm)
  unfolding open_gcm
  open_gcm-block gcm h = elim (Result-cases (c.new_cipher e.key)) [
    | inl (block, q) ↦ (block, ground arith)
    | inr (failure, q) ↦ absurd (ground arith)
  ]

  open_data-append :
      (gcm : Aead) (nonce sealed : Text)
      → length nonce ≡ gcm.nonce_size
      → open_data c e gcm (nonce ++ sealed) ≡ gcm.open_sealed nonce sealed
  unfolding open_data
  open_data-append gcm nonce sealed h = rw (← h) (
      ground
        (arith, length-append nonce sealed, take-length nonce sealed, drop-length nonce sealed))

  -- What `Encrypt` returns, whatever the nonce was, `Decrypt` turns back into the text. The hypothesis:
  -- the packages obey `CryptoLaws`.
  pub decrypt-encrypt :
      (text encrypted : Text) (w w' : World E)
      → encrypt c e text w ≡ (ok encrypted, w')
      → decrypt c e encrypted ≡ ok text
  unfolding encrypt decrypt
  decrypt-encrypt text encrypted w w' h = elim (Result-cases (open_gcm c e)) [
    | inr (failure, q) ↦ absurd (ground arith)
    | inl (gcm, q) ↦
        let r = c.read_random gcm.nonce_size w in
        let (block, made) = open_gcm-block gcm q in
        elim (Result-cases r.0) [
          | inr (failure, q') ↦ absurd (ground arith)
          | inl (nonce, q') ↦
              let sealed = gcm.seal nonce text in
              let fits = laws.read_length gcm.nonce_size w r.1 nonce (ground arith) in
              ground (
                arith,
                laws.decode-encode (nonce ++ sealed),
                open_data-append gcm nonce sealed fits,
                laws.open-seal block gcm nonce text made,
              )
        ]
  ]

  -- `Decrypt` accepts a message only if it decodes to a nonce followed by exactly what sealing the
  -- returned text under that nonce yields. The hypothesis: the packages obey `CryptoLaws`.
  pub decrypt_authentic :
      (encrypted text : Text)
      → decrypt c e encrypted ≡ ok text
      → (gcm : Aead) × (nonce : Text) × (open_gcm c e ≡ ok gcm)
        × (length nonce ≡ gcm.nonce_size)
        × (c.decode encrypted ≡ ok (nonce ++ gcm.seal nonce text))
  unfolding decrypt open_data
  decrypt_authentic encrypted text h = elim (Result-cases (c.decode encrypted)) [
    | inr (failure, q) ↦ absurd (ground arith)
    | inl (bytes, decoded) ↦ elim (Result-cases (open_gcm c e)) [
      | inr (failure, q) ↦ absurd (ground arith)
      | inl (gcm, q) ↦ elim (Bool-cases (ltb (length bytes) gcm.nonce_size)) [
        | inl short ↦ absurd (ground arith)
        | inr enough ↦
            let n = gcm.nonce_size in
            let nonce = take n bytes in
            let (block, made) = open_gcm-block gcm q in
            let sealed =
              laws.open_authentic block gcm nonce (drop n bytes) text made (ground arith) in
            (
              gcm,
              nonce,
              q,
              length-take n bytes (ground arith),
              rw (← sealed) (rw (take-append-drop n bytes) decoded),
            )
      ]
    ]
  ]
