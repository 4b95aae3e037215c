-- ===== src/Secw/OpensslWrapper.antt =====
-- The wrapper of OpenSSL (lib/src/secw_openssl_wrapper.h, lib/src/secw_openssl_wrapper.cc), and the
-- encryption of lib/src/secw_helpers.cc on top of it. A `std::string` is text here and bytes where
-- the code indexes it. The state is the number of the next draw of random bytes. `clean`, which
-- wipes memory that goes, has nothing to model.
pub mod RoundTrip
use fty_security_wallet.Base.{
  ℕ, ◌+◌, String, ◌^^◌, Bool, true, false, not, ◌||◌, Option, some, none, List, [], ◌∷◌, length,
  drop, get_elem?, Result, ok, err, ◌>>=◌ as ◌>>=ᵣ◌, ◌>>◌ as ◌>>ᵣ◌, throw_if, is_empty, leb, eqb,
  if◌then◌else◌,
}
use fty_security_wallet.Base.Exec.{Exec, pure, lift, ◌>>=◌}
use fty_security_wallet.External.Openssl.{Openssl}
use fty_security_wallet.Secw.Error.{Exn, standard}

abbrev pub iv_byte_size : ℕ
iv_byte_size = 16

abbrev pub iv_base64_size : ℕ
iv_base64_size = 24

abbrev pub has_none : List ℕ → Bool
has_none [] = true
has_none (x ∷ xs) = false

-- `encryptedData[IV_BASE64_SIZE] != ':'`
abbrev is_colon : Option ℕ → Bool
is_colon (some c) = eqb c 58
is_colon none = false

module _ ⦃o : Openssl⦄ where
  open o use {
    string_of, bytes_of, rand_bytes, bio_write, bio_read, md5, sha256, aes_encrypt, aes_decrypt,
    length_error,
  }

  abbrev pub str_to_bytes : String → List ℕ
  str_to_bytes str = bytes_of str

  abbrev pub bytes_to_str : List ℕ → String
  bytes_to_str bytes = string_of bytes

  abbrev drawn : Option (List ℕ) → Result Exn (List ℕ)
  drawn (some bytes) = ok bytes
  drawn none = err (standard "Unable to generate a strong random bytes array")

  unfoldable pub random_vector : ℕ → Exec ℕ Exn (List ℕ)
  random_vector nb_bytes n = (drawn (rand_bytes n nb_bytes), n + 1)

  unfoldable pub base64_encode : List ℕ → String
  base64_encode bytes = if has_none bytes then "" else bio_write bytes

  -- `base64.resize(size_t(sizeData))`
  abbrev resized : Option (List ℕ) → Result Exn (List ℕ)
  resized (some bytes) = ok bytes
  resized none = err (standard length_error)

  -- the count is `none` for `size_t(-1)`
  unfoldable pub base64_decode : String → ℕ → Option ℕ → Result Exn (List ℕ)
  base64_decode encoded off count = resized (bio_read (drop off (bytes_of encoded)) count)

  -- `generateDigest` takes the digest to compute
  abbrev pub generate_digest : List ℕ → (List ℕ → List ℕ) → List ℕ
  generate_digest bytes digest = digest bytes

  pub generate_md5_digest : List ℕ → List ℕ
  generate_md5_digest bytes = generate_digest bytes md5

  unfoldable pub generate_sha256_digest : List ℕ → List ℕ
  generate_sha256_digest bytes = generate_digest bytes sha256

  unfoldable pub aes256cbc_encrypt : List ℕ → List ℕ → List ℕ → Result Exn (List ℕ)
  aes256cbc_encrypt plain key iv =
      throw_if (not (eqb (length key) 32)) (standard "Invalid key size")
      >>ᵣ throw_if (not (eqb (length iv) iv_byte_size)) (standard "Invalid initial vector size")
      >>ᵣ ok (aes_encrypt plain key iv)

  unfoldable pub aes256cbc_decrypt : List ℕ → List ℕ → List ℕ → Result Exn (List ℕ)
  aes256cbc_decrypt cipher key iv =
      throw_if (not (eqb (length key) 32)) (standard "Invalid key size")
      >>ᵣ throw_if (not (eqb (length iv) iv_byte_size)) (standard "Invalid initial vector size")
      >>ᵣ throw_if (has_none cipher || not (eqb (length key) 32)) (standard "Empty cyphered binary")
      >>ᵣ ok (aes_decrypt cipher key iv)

  unfoldable pub encrypt : String → String → Exec ℕ Exn String
  encrypt plain passphrase = do
    iv ← random_vector iv_byte_size
    let key = generate_sha256_digest (str_to_bytes passphrase)
    cipher ← lift (aes256cbc_encrypt (str_to_bytes plain) key iv)
    pure (base64_encode iv ^^ (":" ^^ base64_encode cipher))

  -- `decrypt`, of a text that is not empty
  unfoldable pub decrypt_text : String → String → Result Exn String
  decrypt_text encrypted passphrase =
      let bytes = bytes_of encrypted in
      throw_if
        (leb (length bytes) iv_base64_size || not (is_colon (get_elem? bytes iv_base64_size)))
        (standard "Invalid cyphered format")
      >>ᵣ base64_decode encrypted 0 (some iv_base64_size)
      >>=ᵣ λ iv. base64_decode encrypted (iv_base64_size + 1) none >>=ᵣ λ cipher.
          aes256cbc_decrypt cipher (generate_sha256_digest (str_to_bytes passphrase)) iv
          >>=ᵣ λ plain. ok (bytes_to_str plain)

  unfoldable pub decrypt : String → String → Result Exn String
  decrypt encrypted passphrase =
      if is_empty encrypted then ok "" else decrypt_text encrypted passphrase
