-- ===== src/Tests/Bytes.antt =====
-- Texts as bytes: a character below 128 is one byte, and any other one three.
use Prim.Native.Char.{code}
use Prim.Native.String.append
use fty_security_wallet.Base.{
  ℕ, ◌+◌, ◌-◌, ◌*◌, ◌/◌, ◌%◌, ◌<◌, String, ◌^^◌, true, false, List, [], ◌∷◌, ◌++◌, All, ◌≡◌, refl,
  sym, ap, ◌∙◌, arith, ltb, Bool-cases, inl, inr, if◌then◌else◌,
}
use fty_security_wallet.External.Openssl.{AreBytes}
use fty_security_wallet.Tests.Chars.{of_code, of_code-code, code-of_code}

-- what is left to read of a character
pub data Pending : Type 0 where
  start : Pending
  second : ℕ → Pending
  third : ℕ → ℕ → Pending

unfoldable pub bytes_of_code : ℕ → List ℕ
bytes_of_code n = if ltb n 128 then n ∷ [] else (128 + n / 65536) ∷ (n / 256 % 256) ∷ (n % 256) ∷ []

unfoldable pub bytes_of : String → List ℕ
bytes_of String.[] = []
bytes_of (String.◌∷◌ c s) = bytes_of_code (code c) ++ bytes_of s

unfoldable pub read_from : Pending → List ℕ → String
unfolding of_code
read_from p [] = ""
read_from start (x ∷ l) = elim (ltb x 128) [
  | true ↦ String.◌∷◌ (of_code x) (read_from start l)
  | false ↦ read_from (second x) l
]
read_from (second x) (y ∷ l) = read_from (third x y) l
read_from (third x y) (z ∷ l) =
    String.◌∷◌ (of_code ((x - 128) * 65536 + y * 256 + z)) (read_from start l)

abbrev pub string_of : List ℕ → String
string_of l = read_from start l

read_from-bytes_of_code :
    (n : ℕ) (l : List ℕ)
    → read_from start (bytes_of_code n ++ l) ≡ String.◌∷◌ (of_code n) (read_from start l)
unfolding bytes_of_code read_from
read_from-bytes_of_code n l = elim (Bool-cases (ltb n 128)) [
  | inl small ↦ rw small (rw (small, read_from) refl)
  | inr large ↦
      let above : ltb (128 + n / 65536) 128 ≡ false = ground arith in
      let same : (128 + n / 65536 - 128) * 65536 + n / 256 % 256 * 256 + n % 256 ≡ n =
        omega arith in
      rw large (rw (above, read_from) (ap (λ k. String.◌∷◌ (of_code k) (read_from start l)) same))
]

pub string_of-bytes_of : (s : String) → string_of (bytes_of s) ≡ s
unfolding bytes_of read_from
string_of-bytes_of String.[] = refl
string_of-bytes_of (String.◌∷◌ c s) =
    read_from-bytes_of_code (code c) (bytes_of s)
    ∙ (λ i. String.◌∷◌ ((of_code-code c).0 i) (string_of-bytes_of s i))

append-AreBytes : (xs ys : List ℕ) → AreBytes xs → AreBytes ys → AreBytes (xs ++ ys)
append-AreBytes [] ys p q = q
append-AreBytes (x ∷ xs) ys p q = (p.0, append-AreBytes xs ys p.1 q)

bytes_of_code-AreBytes : (n : ℕ) → n < 1114112 → AreBytes (bytes_of_code n)
unfolding bytes_of_code
bytes_of_code-AreBytes n h = elim (Bool-cases (ltb n 128)) [
  | inl small ↦ rw small (ground arith)
  | inr large ↦ rw large (omega arith)
]

pub bytes_of-AreBytes : (s : String) → AreBytes (bytes_of s)
unfolding bytes_of
bytes_of-AreBytes String.[] = tt
bytes_of-AreBytes (String.◌∷◌ c s) =
    append-AreBytes (bytes_of_code (code c)) (bytes_of s)
      (bytes_of_code-AreBytes (code c) (of_code-code c).1) (bytes_of-AreBytes s)

append_assoc : (xs ys zs : List ℕ) → (xs ++ ys) ++ zs ≡ xs ++ (ys ++ zs)
append_assoc [] ys zs = refl
append_assoc (x ∷ xs) ys zs = ap (λ l. x ∷ l) (append_assoc xs ys zs)

pub bytes_of-append : (s t : String) → bytes_of (s ^^ t) ≡ bytes_of s ++ bytes_of t
unfolding bytes_of
bytes_of-append String.[] t = ap (λ u. bytes_of u) (append.nil t)
bytes_of-append (String.◌∷◌ c s) t =
    ap (λ u. bytes_of u) (append.cons c s t)
    ∙ ap (λ l. bytes_of_code (code c) ++ l) (bytes_of-append s t)
    ∙ sym (append_assoc (bytes_of_code (code c)) (bytes_of s) (bytes_of t))

-- the text with a character for each number
unfoldable pub chars : List ℕ → String
chars [] = ""
chars (d ∷ l) = String.◌∷◌ (of_code d) (chars l)

pub bytes_of-chars : (l : List ℕ) → All (λ d. d < 128) l → bytes_of (chars l) ≡ l
unfolding bytes_of chars bytes_of_code
bytes_of-chars [] h = refl
bytes_of-chars (d ∷ l) (small, rest) =
    let low : ltb d 128 ≡ true = ground arith in
    rw (code-of_code d small) (rw low (ap (λ k. d ∷ k) (bytes_of-chars l rest)))
