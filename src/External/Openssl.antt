-- ===== src/External/Openssl.antt =====
-- OpenSSL, as lib/src/secw_openssl_wrapper.cc calls it, and the bytes of a `std::string`. A
-- `std::vector` of bytes is a list of numbers.
use fty_security_wallet.Base.{
  ℕ, ◌<◌, String, ◌^^◌, List, [], ◌∷◌, ◌++◌, Option, some, none, length, All, ◌≡◌,
}

pub record Openssl : Type 0 where
  -- `std::string(data.begin(), data.end())` and `ByteField(str.begin(), str.end())`
  pub string_of : List ℕ → String
  pub bytes_of : String → List ℕ
  -- `RAND_bytes` for a number of bytes, at its n-th call; `none` if it returns 0
  pub rand_bytes : ℕ → ℕ → Option (List ℕ)
  -- the text in the memory BIO after `BIO_write` to a base64 BIO on top of it
  pub bio_write : List ℕ → String
  -- `BIO_read` from a base64 BIO on top of `BIO_new_mem_buf(p, len)`, for the bytes from `p` on;
  -- the length is `none` where it is negative, and the result where `BIO_read` returns -1
  pub bio_read : List ℕ → Option ℕ → Option (List ℕ)
  -- the digest that `EVP_DigestFinal_ex` leaves, for `EVP_md5()` and `EVP_sha256()`
  pub md5 : List ℕ → List ℕ
  pub sha256 : List ℕ → List ℕ
  -- what `EVP_EncryptUpdate` and `EVP_EncryptFinal_ex` leave in the buffer, and `EVP_Decrypt…`,
  -- with `EVP_aes_256_cbc()`, for the data, the key and the initial vector
  pub aes_encrypt : List ℕ → List ℕ → List ℕ → List ℕ
  pub aes_decrypt : List ℕ → List ℕ → List ℕ → List ℕ
  -- `what()` of the `std::length_error` that `std::vector::resize` throws
  pub length_error : String

abbrev pub AreBytes : List ℕ → Type 0
AreBytes b = All (λ n. n < 256) b

-- What the theorems rely on of it.
pub record OpensslLaws ⦃o : Openssl⦄ : Type 0 where
  pub string_of-bytes_of : (s : String) → o.string_of (o.bytes_of s) ≡ s
  pub bytes_of-AreBytes : (s : String) → AreBytes (o.bytes_of s)
  pub bytes_of-append : (s t : String) → o.bytes_of (s ^^ t) ≡ o.bytes_of s ++ o.bytes_of t
  pub bytes_of_colon : o.bytes_of ":" ≡ 58 ∷ []
  pub bytes_of_empty : o.bytes_of "" ≡ []
  pub rand_bytes_lem :
      (n k : ℕ) {b : List ℕ} → o.rand_bytes n k ≡ some b → AreBytes b × (length b ≡ k)
  -- base64 has 24 characters for 16 bytes, and reads back, to the end and within a length
  pub length-bio_write : (b : List ℕ) → length b ≡ 16 → length (o.bytes_of (o.bio_write b)) ≡ 24
  pub bio_read-bio_write :
      (b : List ℕ)
      → AreBytes b
      → 0 < length b
      → o.bio_read (o.bytes_of (o.bio_write b)) none ≡ some b
  pub bio_read-append :
      (b rest : List ℕ) (n : ℕ)
      → AreBytes b
      → 0 < length b
      → length (o.bytes_of (o.bio_write b)) ≡ n
      → o.bio_read (o.bytes_of (o.bio_write b) ++ rest) (some n) ≡ some b
  pub length-sha256 : (b : List ℕ) → length (o.sha256 b) ≡ 32
  -- the padding of a block cipher is never empty
  pub aes_encrypt_lem :
      (plain key iv : List ℕ)
      → AreBytes plain
      → AreBytes (o.aes_encrypt plain key iv) × (0 < length (o.aes_encrypt plain key iv))
  pub aes_decrypt-aes_encrypt :
      (plain key iv : List ℕ)
      → AreBytes plain
      → length key ≡ 32
      → length iv ≡ 16
      → o.aes_decrypt (o.aes_encrypt plain key iv) key iv ≡ plain
