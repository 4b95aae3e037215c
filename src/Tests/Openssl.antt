-- ===== src/Tests/Openssl.antt =====
-- A concrete encryption in the place of OpenSSL, and what the laws ask of it. The base64 of two
-- bytes is three characters below 128, and the cipher puts a byte in front.
use fty_security_wallet.Base.{
  ℕ, zero, suc, ◌+◌, ◌*◌, ◌/◌, ◌%◌, ◌<◌, List, [], ◌∷◌, ◌++◌, Option, some, none, length, All, ◌≡◌,
  refl, sym, ap, ◌∙◌, arith,
}
use fty_security_wallet.External.Openssl.{Openssl, OpensslLaws, AreBytes}
use fty_security_wallet.Tests.Bytes.{
  bytes_of, string_of, string_of-bytes_of, bytes_of-AreBytes, bytes_of-append, bytes_of_code, chars,
  bytes_of-chars,
}

abbrev pub zeros : ℕ → List ℕ
zeros zero = []
zeros (suc n) = 0 ∷ zeros n

abbrev take : ℕ → List ℕ → List ℕ
take zero l = []
take (suc n) [] = []
take (suc n) (x ∷ l) = x ∷ take n l

abbrev behind : List ℕ → List ℕ
behind [] = []
behind (b ∷ bytes) = bytes

-- three digits for two bytes
unfoldable pub digits : List ℕ → List ℕ
digits [] = []
digits (a ∷ []) = (a % 128) ∷ (a / 128 % 128) ∷ []
digits (a ∷ b ∷ l) = (a % 128) ∷ (b % 128) ∷ ((a / 128 * 2 + b / 128) % 128) ∷ digits l

unfoldable pub bytes_of_digits : List ℕ → List ℕ
bytes_of_digits [] = []
bytes_of_digits (x ∷ []) = []
bytes_of_digits (x ∷ y ∷ []) = (x + 128 * y) ∷ []
bytes_of_digits (x ∷ y ∷ z ∷ l) = (x + 128 * (z / 2)) ∷ (y + 128 * (z % 2)) ∷ bytes_of_digits l

digits_small : (l : List ℕ) → All (λ d. d < 128) (digits l)
unfolding digits
digits_small [] = tt
digits_small (a ∷ []) = omega arith
digits_small (a ∷ b ∷ l) = (omega arith, (omega arith, (omega arith, digits_small l)))

bytes_of_digits-digits : (l : List ℕ) → AreBytes l → bytes_of_digits (digits l) ≡ l
unfolding digits bytes_of_digits
bytes_of_digits-digits [] h = refl
bytes_of_digits-digits (a ∷ []) (ha, _) =
    let same : a % 128 + 128 * (a / 128 % 128) ≡ a = omega arith in ap (λ x. x ∷ []) same
bytes_of_digits-digits (a ∷ b ∷ l) (ha, (hb, h)) =
    let first : a % 128 + 128 * ((a / 128 * 2 + b / 128) % 128 / 2) ≡ a = omega arith in
    let second : b % 128 + 128 * ((a / 128 * 2 + b / 128) % 128 % 2) ≡ b = omega arith in
    λ i. first i ∷ second i ∷ bytes_of_digits-digits l h i

length-digits : (l : List ℕ) → length (digits l) ≡ (length l * 3 + 1) / 2
unfolding digits
length-digits [] = refl
length-digits (a ∷ []) = refl
length-digits (a ∷ b ∷ l) = omega (arith, length-digits l)

take-append : (xs ys : List ℕ) (n : ℕ) → length xs ≡ n → take n (xs ++ ys) ≡ xs
take-append [] ys zero h = refl
take-append [] ys (suc n) h = absurd (omega arith)
take-append (x ∷ xs) ys zero h = absurd (omega arith)
take-append (x ∷ xs) ys (suc n) h = ap (λ l. x ∷ l) (take-append xs ys n (omega arith))

length-zeros : (n : ℕ) → length (zeros n) ≡ n
length-zeros zero = refl
length-zeros (suc n) = omega (arith, length-zeros n)

zeros-AreBytes : (n : ℕ) → AreBytes (zeros n)
zeros-AreBytes zero = tt
zeros-AreBytes (suc n) = (omega arith, zeros-AreBytes n)

abbrev read_digits : List ℕ → Option ℕ → Option (List ℕ)
read_digits bytes none = some (bytes_of_digits bytes)
read_digits bytes (some n) = some (bytes_of_digits (take n bytes))

instance abbrev pub test_openssl : Openssl
test_openssl = record {
  string_of = string_of;
  bytes_of = bytes_of;
  rand_bytes = λ n k. some (zeros k);
  bio_write = λ bytes. chars (digits bytes);
  bio_read = read_digits;
  md5 = λ bytes. zeros 16;
  sha256 = λ bytes. zeros 32;
  aes_encrypt = λ plain key iv. 0 ∷ plain;
  aes_decrypt = λ cipher key iv. behind cipher;
  length_error = "vector::_M_default_append";
}

bytes_of-bio_write : (l : List ℕ) → bytes_of (chars (digits l)) ≡ digits l
bytes_of-bio_write l = bytes_of-chars (digits l) (digits_small l)

some-injective : {A : Type 0} {a b : A} → some a ≡ some b → a ≡ b
some-injective h = cc h

pub openssl_laws : OpensslLaws
unfolding bytes_of bytes_of_code
openssl_laws = record {
  string_of-bytes_of = string_of-bytes_of;
  bytes_of-AreBytes = bytes_of-AreBytes;
  bytes_of-append = bytes_of-append;
  bytes_of_colon = refl;
  bytes_of_empty = refl;
  rand_bytes_lem =
      λ n k {b} h. let same = some-injective h in rw (← same) (zeros-AreBytes k, length-zeros k);
  length-bio_write = λ b h. rw (bytes_of-bio_write b) (omega (arith, length-digits b, h));
  bio_read-bio_write = λ b h _. rw (bytes_of-bio_write b, bytes_of_digits-digits b h) refl;
  bio_read-append = λ b rest n h _ size.
      let long : length (digits b) ≡ n = ap length (sym (bytes_of-bio_write b)) ∙ size in
      rw (bytes_of-bio_write b, take-append (digits b) rest n long, bytes_of_digits-digits b h)
        refl;
  length-sha256 = λ b. refl;
  aes_encrypt_lem = λ plain key iv h. ((omega arith, h), omega arith);
  aes_decrypt-aes_encrypt = λ plain key iv _ _ _. refl;
}
