-- ===== src/Auth/Encryption/Toy.antt =====
-- A toy cipher that leaves the text as it is, behind a nonce of zeros.
use signalstream.Common.{ℕ, zero, suc, ◌≡◌, refl, [], ◌∷◌, ok, Text, codes, length, arith}
use signalstream.Platform.{World}
use signalstream.Auth.Encryption.{Aead, Crypto, Encryptor}
use signalstream.Auth.Encryption.RoundTrip.{CryptoLaws}

abbrev zeros : ℕ → Text
zeros zero = []
zeros (suc n) = 0 ∷ zeros n

abbrev toy_aead : Aead
toy_aead = record { nonce_size = 2; seal = λ nonce t. t; open_sealed = λ nonce t. ok t }

abbrev pub toy : Crypto (Unit {0}) ℕ
toy = record {
  new_cipher = λ key. ok tt;
  new_gcm = λ block. ok toy_aead;
  read_random = λ n w. (ok (zeros n), w);
  encode = λ t. t;
  decode = λ t. ok t;
}

length-zeros : (n : ℕ) → length (zeros n) ≡ n
length-zeros zero = refl
length-zeros (suc n) = omega (arith, length-zeros n)

toy_read_length :
    (n : ℕ) (w w' : World ℕ) (t : Text) → toy.read_random n w ≡ (ok t, w') → length t ≡ n
toy_read_length n w w' t e = ground (arith, length-zeros n)

toy_open-seal :
    (gcm : Aead) (nonce t : Text)
    → ok toy_aead ≡ ok gcm
    → gcm.open_sealed nonce (gcm.seal nonce t) ≡ ok t
toy_open-seal gcm nonce t e = ground arith

toy_open_authentic :
    (gcm : Aead) (nonce sealed t : Text)
    → ok toy_aead ≡ ok gcm
    → gcm.open_sealed nonce sealed ≡ ok t
    → sealed ≡ gcm.seal nonce t
toy_open_authentic gcm nonce sealed t e h = ground arith

pub toy-laws : CryptoLaws toy
toy-laws = record {
  decode-encode = λ t. refl;
  read_length = toy_read_length;
  open-seal = λ block gcm nonce t e. toy_open-seal gcm nonce t e;
  open_authentic = λ block gcm nonce sealed t e h. toy_open_authentic gcm nonce sealed t e h;
}

abbrev pub encryptor : Encryptor
encryptor = record { key = codes "0123456789abcdef0123456789abcdef" }
