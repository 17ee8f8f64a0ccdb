-- ===== src/Secrets.antt =====
-- secrets/secrets.go: opaque values and the encryption of small values.
pub mod RoundTrip
mod Tests
use devengine.Common.{
  ℕ, zero, suc, ◌+◌, ◌-◌, ◌*◌, ◌/◌, ◌%◌, ◌==◌, ltb, leb, Bool, true, false, Option, none, some,
  List, [], ◌∷◌, ◌++◌, Text, str, length, take, drop, ℤ, pos, negsuc, Result, ok, err, ◌>>=◌,
  if◌then◌else◌,
}

pub data SecretsError : Type 0 where
  invalid_size invalid_key not_configured invalid_ciphertext : SecretsError
  generate_opaque generate_nonce initialize_gcm : Text → SecretsError

abbrev pub default_opaque_size : ℤ
default_opaque_size = pos 32

abbrev pub key_size : ℕ
key_size = 32

-- `io.ReadFull` into a buffer of that many bytes.
abbrev pub Reader : Type 0
Reader = ℕ → Result Text Text

-- A digit of Base64URL
unfoldable pub base64_digit : ℕ → ℕ
base64_digit n =
    if ltb n 26
    then b'A' + n
    else if ltb n 52
    then b'a' + (n - 26)
    else if ltb n 62
    then b'0' + (n - 52)
    else if n == 62
    then b'-'
    else b'_'

-- `base64.RawURLEncoding.EncodeToString`: no padding.
unfoldable pub base64_encode : Text → Text
unfolding base64_digit
base64_encode [] = []
base64_encode (a ∷ []) = base64_digit (a / 4) ∷ base64_digit (a % 4 * 16) ∷ []
base64_encode (a ∷ b ∷ []) =
    base64_digit (a / 4) ∷ base64_digit (a % 4 * 16 + b / 16) ∷ base64_digit (b % 16 * 4) ∷ []
base64_encode (a ∷ b ∷ c ∷ s) =
    base64_digit (a / 4)
    ∷ base64_digit (a % 4 * 16 + b / 16)
    ∷ base64_digit (b % 16 * 4 + c / 64)
    ∷ base64_digit (c % 64)
    ∷ base64_encode s

unfoldable pub opaque_of : Result Text Text → Result SecretsError Text
unfolding base64_encode
opaque_of (ok raw) = ok (base64_encode raw)
opaque_of (err e) = err (generate_opaque e)

-- `Generator.NewOpaque`; a nil reader is `rand.Reader`.
unfoldable pub new_opaque : Reader → Option Reader → ℤ → Result SecretsError Text
unfolding opaque_of
new_opaque rand_reader reader (negsuc n) = err invalid_size
new_opaque rand_reader reader (pos zero) = err invalid_size
new_opaque rand_reader reader (pos (suc n)) =
    opaque_of (elim reader [ some r ↦ r (suc n) | none ↦ rand_reader (suc n) ])

-- `Codec.NewSecret`
unfoldable pub new_secret : Reader → Option Reader → Result SecretsError Text
unfolding new_opaque
new_secret rand_reader reader = new_opaque rand_reader reader default_opaque_size

-- The library's AES-GCM under a key.
pub record Aead : Type 0 where
  pub nonce_size : ℕ
  pub overhead : ℕ
  pub seal : Text → Text → Text
  pub unseal : Text → Text → Option Text

pub record Cipher : Type 0 where
  pub aead : Aead
  pub random : Reader

-- `NewCipher`; `new_gcm` is `aes.NewCipher` with `cipher.NewGCM`.
unfoldable pub new_cipher :
    Reader → (Text → Result SecretsError Aead) → Text → Result SecretsError Cipher
new_cipher rand_reader new_gcm key =
    if length key == key_size
    then new_gcm key >>= (λ aead. ok (record { aead = aead; random = rand_reader }))
    else err invalid_key

unfoldable pub sealed : Aead → Text → Result Text Text → Result SecretsError Text
sealed aead plaintext (ok nonce) = ok (nonce ++ aead.seal nonce plaintext)
sealed aead plaintext (err e) = err (generate_nonce e)

-- `none` is a nil cipher.
unfoldable pub encrypt : Option Cipher → Text → Result SecretsError Text
unfolding sealed
encrypt none plaintext = err not_configured
encrypt (some c) plaintext = sealed c.aead plaintext (c.random c.aead.nonce_size)

unfoldable pub decrypt : Option Cipher → Text → Result SecretsError Text
decrypt none ciphertext = err not_configured
decrypt (some c) ciphertext =
    if ltb (length ciphertext) (c.aead.nonce_size + c.aead.overhead)
    then err invalid_ciphertext
    else elim (c.aead.unseal (take c.aead.nonce_size ciphertext)
        (drop c.aead.nonce_size ciphertext)) [
          | some plaintext ↦ ok plaintext
          | none ↦ err invalid_ciphertext
        ]
