-- ===== src/Frame/Bytes.antt =====
-- encoding/binary's big-endian words over lists of bytes.
use native.Mathlib.Nat.{pow-suc, mod-eq_of_lt, div-add-mod, div-div-eq-div-mul, div-eq_of_lt-le}
use voice_flux_engine.Prelude.{
  ℕ, zero, suc, ◌+◌, ◌*◌, ◌/◌, ◌%◌, ◌^◌, ◌≤◌, ◌<◌, ◌≡◌, refl, List, [], ◌∷◌, length, arith, ap, ap₂,
  ◌∙◌,
}

-- the `n` lowest bytes of a word, the highest first
abbrev pub put_be : ℕ → ℕ → List ℕ
put_be zero w = []
put_be (suc n) w = w / 256 ^ n % 256 ∷ put_be n w

-- the word of a list of bytes
abbrev pub be_from : ℕ → List ℕ → ℕ
be_from acc [] = acc
be_from acc (b ∷ bs) = be_from (acc * 256 + b) bs

abbrev pub be : List ℕ → ℕ
be bs = be_from 0 bs

-- Every element is a byte.
abbrev pub AllBytes : List ℕ → Type 0
AllBytes [] = Unit {0}
AllBytes (b ∷ bs) = (b < 256) × AllBytes bs

pow_byte : (n : ℕ) → 0 < 256 ^ n
pow_byte zero = omega arith
pow_byte (suc n) = omega (arith, pow-suc 256 n, pow_byte n)

digit : (w q : ℕ) → 0 < q → w / q % 256 * q + w % q ≡ w % (q * 256)
digit w q h = omega (
  arith,
  div-add-mod w q,
  ap (λ (t : ℕ). t * q) (div-add-mod (w / q) 256),
  div-add-mod w (q * 256),
  ap (λ (t : ℕ). q * 256 * t) (div-div-eq-div-mul w q 256),
)

be_from-put_be : (acc n w : ℕ) → be_from acc (put_be n w) ≡ acc * 256 ^ n + w % 256 ^ n
be_from-put_be acc zero w = omega arith
be_from-put_be acc (suc n) w =
    be_from-put_be (acc * 256 + w / 256 ^ n % 256) n w
    ∙ rw pow-suc (omega (arith, digit w (256 ^ n) (pow_byte n)))

-- A word that fits in its bytes is read back.
pub be-put_be : (n w : ℕ) → w < 256 ^ n → be (put_be n w) ≡ w
be-put_be n w h = omega (arith, be_from-put_be 0 n w, mod-eq_of_lt h)

be_from_bounds :
    (bs : List ℕ) (acc : ℕ)
    → AllBytes bs
    → (acc * 256 ^ length bs ≤ be_from acc bs) × (be_from acc bs < (acc + 1) * 256 ^ length bs)
be_from_bounds [] acc h = omega arith
be_from_bounds (b ∷ bs) acc h =
    let (lo, hi) = be_from_bounds bs (acc * 256 + b) h.1 in
    rw (pow-suc 256 (length bs)) (omega (arith, lo), grind (arith, hi, pow_byte (length bs)))

-- Bytes are written back as they were read.
pub put_be-be_from :
    (bs : List ℕ) (acc : ℕ) → AllBytes bs → put_be (length bs) (be_from acc bs) ≡ bs
put_be-be_from [] acc h = refl
put_be-be_from (b ∷ bs) acc h = ap₂ ◌∷◌ top (put_be-be_from bs (acc * 256 + b) h.1)
  where
    top : be_from (acc * 256 + b) bs / 256 ^ length bs % 256 ≡ b
    top =
        let (lo, hi) = be_from_bounds bs (acc * 256 + b) h.1 in
        rw (div-eq_of_lt-le {k = acc * 256 + b} (256 ^ length bs) lo hi) (omega arith)
