-- ===== src/Secw/OpensslWrapper/RoundTrip.antt =====
-- What is encrypted decrypts with the same passphrase (lib/src/secw_helpers.cc).
use fty_security_wallet.Base.{
  ℕ, zero, suc, ◌+◌, ◌<◌, String, ◌^^◌, false, ◌++◌, some, none, List, [], ◌∷◌, length,
  length-append, drop, get_elem?, get_elem?-append, ok, err, ◌≡◌, refl, sym, ap, ◌∙◌, ◌⊎◌, is_empty,
  eq_iff, Bool-cases, Option-cases, inl, inr, arith, leb, ok-injective,
}
use fty_security_wallet.External.Openssl.{Openssl, OpensslLaws, AreBytes}
use fty_security_wallet.Secw.Error.{standard}
use fty_security_wallet.Secw.OpensslWrapper.{
  has_none, random_vector, base64_encode, base64_decode, generate_sha256_digest, aes256cbc_encrypt,
  aes256cbc_decrypt, encrypt, decrypt_text, decrypt,
}

module _ ⦃o : Openssl⦄ (laws : OpensslLaws) where
  open o use {
    string_of, bytes_of, rand_bytes, bio_write, bio_read, sha256, aes_encrypt, aes_decrypt,
  }
  open laws use {
    string_of-bytes_of, bytes_of-AreBytes, bytes_of-append, bytes_of_colon, bytes_of_empty,
    rand_bytes_lem, length-bio_write, bio_read-bio_write, bio_read-append, length-sha256,
    aes_encrypt_lem, aes_decrypt-aes_encrypt,
  }

  -- the text that `encrypt` makes
  abbrev sealed : List ℕ → List ℕ → String
  sealed iv cipher = bio_write iv ^^ (":" ^^ bio_write cipher)

  bytes_of-sealed :
      (iv cipher : List ℕ)
      → bytes_of (sealed iv cipher) ≡ bytes_of (bio_write iv) ++ (58 ∷ bytes_of (bio_write cipher))
  bytes_of-sealed iv cipher =
      bytes_of-append (bio_write iv) (":" ^^ bio_write cipher)
      ∙ ap (λ l. bytes_of (bio_write iv) ++ l)
          (bytes_of-append ":" (bio_write cipher)
            ∙ ap (λ l. l ++ bytes_of (bio_write cipher)) bytes_of_colon)

  -- A text with the initial vector and the ciphertext passes the tests of the format.
  format_lem :
      (iv rest : List ℕ)
      → length iv ≡ 24
      → (leb (length (iv ++ (58 ∷ rest))) 24 ≡ false)
        × (get_elem? (iv ++ (58 ∷ rest)) 24 ≡ some 58)
        × (drop 25 (iv ++ (58 ∷ rest)) ≡ rest)
  format_lem iv rest h = (
    ground (arith, length-append iv (58 ∷ rest)),
    get_elem?-append iv (58 ∷ rest) 24 h,
    drop_lem iv 24 h,
  )
    where
      drop_lem : (l : List ℕ) (n : ℕ) → length l ≡ n → drop (suc n) (l ++ (58 ∷ rest)) ≡ rest
      drop_lem [] zero h = refl
      drop_lem [] (suc n) h = absurd (omega (arith, h))
      drop_lem (x ∷ l) zero h = absurd (omega (arith, h))
      drop_lem (x ∷ l) (suc n) h = drop_lem l n (omega (arith, h))

  has_none_lem : (l : List ℕ) → 0 < length l → has_none l ≡ false
  has_none_lem [] h = absurd (omega (arith, h))
  has_none_lem (x ∷ l) h = refl

  module _ (plain passphrase : String) (iv : List ℕ) (iv_bytes : AreBytes iv)
      (iv_size : length iv ≡ 16) where
    abbrev key : List ℕ
    key = sha256 (bytes_of passphrase)

    abbrev cipher : List ℕ
    cipher = aes_encrypt (bytes_of plain) key iv

    encrypt_cipher : aes256cbc_encrypt (bytes_of plain) key iv ≡ ok cipher
    unfolding aes256cbc_encrypt
    encrypt_cipher = rw (length-sha256 (bytes_of passphrase), iv_size) refl

    decrypt_cipher : aes256cbc_decrypt cipher key iv ≡ ok (bytes_of plain)
    unfolding aes256cbc_decrypt
    decrypt_cipher =
        let (bytes, long) = aes_encrypt_lem (bytes_of plain) key iv (bytes_of-AreBytes plain) in
        rw
          (
            length-sha256 (bytes_of passphrase),
            iv_size,
            has_none_lem cipher long,
            aes_decrypt-aes_encrypt (bytes_of plain) key iv (bytes_of-AreBytes plain)
                (length-sha256 (bytes_of passphrase)) iv_size,
          )
          refl

    decode_iv : base64_decode (sealed iv cipher) 0 (some 24) ≡ ok iv
    unfolding base64_decode
    decode_iv =
        rw
          (
            bytes_of-sealed iv cipher,
            bio_read-append iv (58 ∷ bytes_of (bio_write cipher)) 24 iv_bytes
                (omega (arith, iv_size)) (length-bio_write iv iv_size),
          )
          refl

    decode_cipher : base64_decode (sealed iv cipher) 25 none ≡ ok cipher
    unfolding base64_decode
    decode_cipher =
        let (bytes, long) = aes_encrypt_lem (bytes_of plain) key iv (bytes_of-AreBytes plain) in
        rw
          (
            bytes_of-sealed iv cipher,
            (format_lem (bytes_of (bio_write iv)) (bytes_of (bio_write cipher))
                (length-bio_write iv iv_size)).2,
            bio_read-bio_write cipher bytes long,
          )
          refl

    decrypt_text-sealed : decrypt_text (sealed iv cipher) passphrase ≡ ok plain
    unfolding decrypt_text generate_sha256_digest
    decrypt_text-sealed =
        let format =
          format_lem (bytes_of (bio_write iv)) (bytes_of (bio_write cipher))
            (length-bio_write iv iv_size) in
        rw (bytes_of-sealed iv cipher) (
          rw (format.0, format.1)
            (rw (decode_iv, decode_cipher, decrypt_cipher, string_of-bytes_of plain) refl))

    decrypt-sealed : decrypt (sealed iv cipher) passphrase ≡ ok plain
    unfolding decrypt
    decrypt-sealed = elim (Bool-cases (is_empty (sealed iv cipher))) [
      | inr some_text ↦ rw some_text decrypt_text-sealed
      | inl empty ↦
          let bytes =
            sym (bytes_of-sealed iv cipher)
            ∙ ap (λ t. bytes_of t) ((eq_iff (sealed iv cipher) "").0 empty)
            ∙ bytes_of_empty in
          let format =
            format_lem (bytes_of (bio_write iv)) (bytes_of (bio_write cipher))
              (length-bio_write iv iv_size) in
          absurd (cc (rw bytes at (format.1)))
    ]

    encrypt_lem :
        (n : ℕ)
        → rand_bytes n 16 ≡ some iv
        → encrypt plain passphrase n ≡ (ok (sealed iv cipher), n + 1)
    unfolding encrypt random_vector generate_sha256_digest base64_encode
    encrypt_lem n drawn =
        let (bytes, long) = aes_encrypt_lem (bytes_of plain) key iv (bytes_of-AreBytes plain) in
        rw drawn (
          rw encrypt_cipher
            (rw (has_none_lem iv (omega (arith, iv_size)), has_none_lem cipher long) refl))

  pub decrypt-encrypt :
      (plain passphrase : String) (n : ℕ)
      → (encrypt plain passphrase n
          ≡ (err (standard "Unable to generate a strong random bytes array"), n + 1))
        ⊎ ((encrypted : String) × (encrypt plain passphrase n ≡ (ok encrypted, n + 1))
            × (decrypt encrypted passphrase ≡ ok plain))
  unfolding encrypt random_vector
  decrypt-encrypt plain passphrase n = elim (Option-cases (rand_bytes n 16)) [
    | inl broken ↦ inl (rw broken refl)
    | inr (iv, drawn) ↦
        let (bytes, size) = rand_bytes_lem n 16 drawn in
        inr (
          sealed iv (cipher plain passphrase iv bytes size),
          encrypt_lem plain passphrase iv bytes size n drawn,
          decrypt-sealed plain passphrase iv bytes size,
        )
  ]

  -- The same where `encrypt` is known to have returned.
  pub decrypt-encrypt_ok :
      (plain passphrase encrypted : String) (n : ℕ)
      → (encrypt plain passphrase n).0 ≡ ok encrypted
      → decrypt encrypted passphrase ≡ ok plain
  decrypt-encrypt_ok plain passphrase encrypted n h = elim (decrypt-encrypt plain passphrase n) [
    | inl broken ↦ absurd (cc (h, ap (λ r. r.0) broken))
    | inr (text, made, back) ↦
        let same : text ≡ encrypted = ok-injective (sym (ap (λ r. r.0) made) ∙ h) in
        ap (λ t. decrypt t passphrase) (sym same) ∙ back
  ]
