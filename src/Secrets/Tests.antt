-- ===== src/Secrets/Tests.antt =====
-- secrets/secrets.go: base64 on concrete bytes, and a toy cipher under which the laws hold.
use devengine.Common.{
  ℕ, zero, suc, ◌≡◌, refl, sym, ap, ◌∙◌, Option, none, some, [], ◌∷◌, Text, str, length, ok, arith,
  ok-eq,
}
use devengine.Secrets.{base64_digit, base64_encode, Cipher, sealed, encrypt, decrypt}
use devengine.Secrets.RoundTrip.{IsLawful, decrypt-encrypt}

base64_man : base64_encode (str "Man") ≡ str "TWFu"
unfolding base64_encode base64_digit
base64_man = refl

base64_ma : base64_encode (str "Ma") ≡ str "TWE"
unfolding base64_encode base64_digit
base64_ma = refl

-- A seal that puts one byte before the text.
unfoldable toy_unseal : Text → Text → Option Text
toy_unseal nonce [] = none
toy_unseal nonce (tag ∷ s) = some s

unfoldable toy_random : ℕ → Text
toy_random zero = []
toy_random (suc n) = 7 ∷ toy_random n

toy_random-length : (n : ℕ) → length (toy_random n) ≡ n
unfolding toy_random
toy_random-length zero = refl
toy_random-length (suc n) = ap suc (toy_random-length n)

abbrev toy : Cipher
toy = record {
  aead = record { nonce_size = 2; overhead = 1; seal = λ nonce p. 9 ∷ p; unseal = toy_unseal };
  random = λ n. ok (toy_random n);
}

toy-IsLawful : IsLawful toy
unfolding toy_unseal
toy-IsLawful = record {
  opens = λ nonce p e. refl;
  longer = λ nonce p. omega arith;
  full = λ n bytes e. ap length (sym (ok-eq e)) ∙ toy_random-length n;
}

toy_encrypts : encrypt (some toy) (str "hi") ≡ ok (7 ∷ 7 ∷ 9 ∷ str "hi")
unfolding encrypt sealed toy_random
toy_encrypts = refl

decrypt-encrypt_example : decrypt (some toy) (7 ∷ 7 ∷ 9 ∷ str "hi") ≡ ok (str "hi")
decrypt-encrypt_example =
    decrypt-encrypt toy (str "hi") (7 ∷ 7 ∷ 9 ∷ str "hi") toy-IsLawful toy_encrypts
