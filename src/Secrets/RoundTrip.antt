-- ===== src/Secrets/RoundTrip.antt =====
-- secrets/secrets.go: `Encrypt` and `Decrypt` together.
use devengine.Common.{
  ℕ, zero, suc, ◌+◌, ◌≡◌, refl, sym, ap, ◌∙◌, ltb, false, some, [], ◌∷◌, ◌++◌, Text, length,
  length-append, take, drop, Result, ok, err, arith, ok-eq, err-eq-ok,
}
use devengine.Secrets.{Cipher, sealed, encrypt, decrypt}

take-append : (s t : Text) (n : ℕ) → length s ≡ n → take n (s ++ t) ≡ s
take-append [] t zero e = refl
take-append [] t (suc n) e = absurd (omega (arith, e))
take-append (a ∷ s) t zero e = absurd (omega (arith, e))
take-append (a ∷ s) t (suc n) e = ap (λ l. a ∷ l) (take-append s t n (omega (arith, e)))

drop-append : (s t : Text) (n : ℕ) → length s ≡ n → drop n (s ++ t) ≡ t
drop-append [] t zero e = refl
drop-append [] t (suc n) e = absurd (omega (arith, e))
drop-append (a ∷ s) t zero e = absurd (omega (arith, e))
drop-append (a ∷ s) t (suc n) e = drop-append s t n (omega (arith, e))

-- What AES-GCM and a reader of random bytes promise: what is sealed under a nonce is opened with it,
-- and is longer by the overhead; a full read has the length that was asked for.
pub record IsLawful (c : Cipher) : Type 0 where
  pub opens :
      (nonce plaintext : Text)
      → length nonce ≡ c.aead.nonce_size
      → c.aead.unseal nonce (c.aead.seal nonce plaintext) ≡ some plaintext
  pub longer :
      (nonce plaintext : Text)
      → length (c.aead.seal nonce plaintext) ≡ length plaintext + c.aead.overhead
  pub full : (n : ℕ) (bytes : Text) → c.random n ≡ ok bytes → length bytes ≡ n

decrypt-sealed :
    (c : Cipher) (nonce plaintext : Text)
    → IsLawful c
    → length nonce ≡ c.aead.nonce_size
    → decrypt (some c) (nonce ++ c.aead.seal nonce plaintext) ≡ ok plaintext
unfolding decrypt
decrypt-sealed c nonce plaintext v e =
    let sealed_text = c.aead.seal nonce plaintext in
    rw
      (
        long_enough,
        take-append nonce sealed_text c.aead.nonce_size e,
        drop-append nonce sealed_text c.aead.nonce_size e,
        v.opens nonce plaintext e,
      )
      refl
  where
    long_enough :
        ltb (length (nonce ++ c.aead.seal nonce plaintext)) (c.aead.nonce_size + c.aead.overhead)
        ≡ false
    long_enough =
        ground (arith, length-append nonce (c.aead.seal nonce plaintext), v.longer nonce plaintext)

-- What a cipher has encrypted it decrypts to the same text, whatever nonce was drawn. AES-GCM opens
-- what it has sealed under a nonce, and adds its overhead; a full read has the length that was
-- asked for.
pub decrypt-encrypt :
    (c : Cipher) (plaintext ciphertext : Text)
    → IsLawful c
    → encrypt (some c) plaintext ≡ ok ciphertext
    → decrypt (some c) ciphertext ≡ ok plaintext
unfolding encrypt
decrypt-encrypt c plaintext ciphertext v h = by_nonce (c.random c.aead.nonce_size) refl h
  where
    by_nonce :
        (r : Result Text Text)
        → c.random c.aead.nonce_size ≡ r
        → sealed c.aead plaintext r ≡ ok ciphertext
        → decrypt (some c) ciphertext ≡ ok plaintext
    by_nonce (ok nonce) e z =
        ap (decrypt (some c)) (sym (ok-eq z))
        ∙ decrypt-sealed c nonce plaintext v (v.full _ nonce e)
    by_nonce (err e) q z = absurd (err-eq-ok z)
