-- ===== src/Tests/Chars.antt =====
-- Characters by their numbers.
use Prim.Native.Nat.{Ordering, compare}
use Prim.Native.Char.{Char, char, code, nul, IsScalar}
use text.Mathlib.TextEquality.{Char-path}
use fty_security_wallet.Base.{ℕ, ◌<◌, ◌≡◌, refl, arith}

-- the character of a number, U+0000 where there is none
abbrev built :
    (a b c : Ordering) (n : ℕ)
    → compare n 55296 ≡ a
    → compare 57343 n ≡ b
    → compare n 1114112 ≡ c
    → Char
built Ordering.lt b c n ha hb hc = char n (rw ha tt)
built Ordering.eq Ordering.lt Ordering.lt n ha hb hc = char n (rw (ha, hb, hc) tt)
built Ordering.gt Ordering.lt Ordering.lt n ha hb hc = char n (rw (ha, hb, hc) tt)
built _ _ _ n ha hb hc = nul

unfoldable pub of_code : ℕ → Char
of_code n = built (compare n 55296) (compare 57343 n) (compare n 1114112) n refl refl refl

code-built :
    (a b c : Ordering) (n : ℕ) (ha : compare n 55296 ≡ a) (hb : compare 57343 n ≡ b)
    (hc : compare n 1114112 ≡ c)
    → IsScalar n
    → (code (built a b c n ha hb hc) ≡ n) × (n < 1114112)
code-built Ordering.lt b c n ha hb hc p = (refl, ground arith)
code-built Ordering.eq Ordering.lt Ordering.lt n ha hb hc p = (refl, ground arith)
code-built Ordering.gt Ordering.lt Ordering.lt n ha hb hc p = (refl, ground arith)
code-built Ordering.eq Ordering.lt Ordering.eq n ha hb hc p = absurd (rw (ha, hb, hc) at p)
code-built Ordering.eq Ordering.lt Ordering.gt n ha hb hc p = absurd (rw (ha, hb, hc) at p)
code-built Ordering.gt Ordering.lt Ordering.eq n ha hb hc p = absurd (rw (ha, hb, hc) at p)
code-built Ordering.gt Ordering.lt Ordering.gt n ha hb hc p = absurd (rw (ha, hb, hc) at p)
code-built Ordering.eq Ordering.eq c n ha hb hc p = absurd (rw (ha, hb) at p)
code-built Ordering.eq Ordering.gt c n ha hb hc p = absurd (rw (ha, hb) at p)
code-built Ordering.gt Ordering.eq c n ha hb hc p = absurd (rw (ha, hb) at p)
code-built Ordering.gt Ordering.gt c n ha hb hc p = absurd (rw (ha, hb) at p)

pub of_code-code : (c : Char) → (of_code (code c) ≡ c) × (code c < 1114112)
unfolding of_code
of_code-code (char n p) =
    let (same, bound) = code-built _ _ _ n refl refl refl p in
    (Char-path (of_code n) (char n p) same, bound)

scalar_lem : (o : Ordering) (n : ℕ) → compare n 55296 ≡ o → n < 128 → IsScalar n
scalar_lem Ordering.lt n e h = rw e tt
scalar_lem Ordering.eq n e h = absurd (ground arith)
scalar_lem Ordering.gt n e h = absurd (ground arith)

pub code-of_code : (n : ℕ) → n < 128 → code (of_code n) ≡ n
unfolding of_code
code-of_code n h = (code-built _ _ _ n refl refl refl (scalar_lem _ n refl h)).0
