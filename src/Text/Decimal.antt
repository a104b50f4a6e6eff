-- ===== src/Text/Decimal.antt =====
-- Decimal numbers: what `fmt` prints for `%d` and `%012d`, and what `strconv` reads.
use native.Mathlib.Nat.{pow-suc}
use tmuxicate.Prelude.{
  is_nil, false, ℕ, zero, suc, ◌+◌, ◌-◌, ◌*◌, ◌/◌, ◌%◌, ◌^◌, ◌≤◌, ◌<◌, ◌≡◌, refl, ap, ◌∙◌, true, [],
  ◌∷◌, arith, ltb, if◌then◌else◌, length, all, Bool-cases, inl, inr,
}
use tmuxicate.Text.{Text, is_digit}

abbrev digit : ℕ → ℕ
digit n = n % 10 + 48

-- The digits of `n` in front of `acc`; the fuel bounds their number.
decimal_from : ℕ → ℕ → Text → Text
decimal_from zero n acc = acc
decimal_from (suc f) n acc =
    let more = decimal_from f (n / 10) (digit n ∷ acc) in if ltb n 10 then digit n ∷ acc else more

unfoldable pub decimal : ℕ → Text
unfolding decimal_from
decimal n = decimal_from (suc n) n []

unfoldable pub zeros : ℕ → Text → Text
zeros zero s = s
zeros (suc k) s = 48 ∷ zeros k s

-- `%0{w}d` of a number that is not negative.
unfoldable pub padded : ℕ → ℕ → Text
unfolding decimal zeros
padded w n = let s = decimal n in zeros (w - length s) s

-- The value of a run of digits that follow the value `acc`.
unfoldable pub value_from : ℕ → Text → ℕ
value_from acc [] = acc
value_from acc (c ∷ s) = value_from (acc * 10 + (c - 48)) s

value-decimal_from :
    (f n : ℕ) (acc : Text) → n < f → value_from 0 (decimal_from f n acc) ≡ value_from n acc
unfolding decimal_from value_from
value-decimal_from zero n acc h = elim h [ ]
value-decimal_from (suc f) n acc h = elim (Bool-cases (ltb n 10)) [
  | inl e ↦ rw e (ap (λ k. value_from k acc) (ground arith))
  | inr e ↦ rw e (
      value-decimal_from f (n / 10) (digit n ∷ acc) (ground arith)
      ∙ ap (λ k. value_from k acc) (ground arith))
]

-- Reading what was printed gives the number back.
pub value-decimal : (n : ℕ) → value_from 0 (decimal n) ≡ n
unfolding decimal value_from
value-decimal n = value-decimal_from (suc n) n [] (omega arith)

value-zeros : (k : ℕ) (s : Text) → value_from 0 (zeros k s) ≡ value_from 0 s
unfolding zeros value_from
value-zeros zero s = refl
value-zeros (suc k) s = value-zeros k s

pub value-padded : (w n : ℕ) → value_from 0 (padded w n) ≡ n
unfolding padded
value-padded w n = value-zeros (w - length (decimal n)) (decimal n) ∙ value-decimal n

decimal_from-digits :
    (f n : ℕ) (acc : Text) → all is_digit acc ≡ true → all is_digit (decimal_from f n acc) ≡ true
unfolding decimal_from is_digit
decimal_from-digits zero n acc h = h
decimal_from-digits (suc f) n acc h = ground (arith, decimal_from-digits f (n / 10) (digit n ∷ acc))

pub decimal-digits : (n : ℕ) → all is_digit (decimal n) ≡ true
unfolding decimal
decimal-digits n = decimal_from-digits (suc n) n [] refl

zeros-digits : (k : ℕ) (s : Text) → all is_digit s ≡ true → all is_digit (zeros k s) ≡ true
unfolding zeros is_digit
zeros-digits zero s h = h
zeros-digits (suc k) s h = zeros-digits k s h

pub padded-digits : (w n : ℕ) → all is_digit (padded w n) ≡ true
unfolding padded
padded-digits w n = zeros-digits (w - length (decimal n)) (decimal n) (decimal-digits n)

length-zeros : (k : ℕ) (s : Text) → length (zeros k s) ≡ k + length s
unfolding zeros
length-zeros zero s = omega arith
length-zeros (suc k) s = omega (arith, length-zeros k s)

-- A number below 10 ^ k has at most k digits; one that is not has more.
length-decimal_from_lt :
    (k f n : ℕ) (acc : Text)
    → n < f
    → n < 10 ^ suc k
    → length (decimal_from f n acc) ≤ suc k + length acc
unfolding decimal_from
length-decimal_from_lt k zero n acc h l = elim h [ ]
length-decimal_from_lt zero (suc f) n acc h l = ground arith
length-decimal_from_lt (suc k) (suc f) n acc h l =
    ground (arith, length-decimal_from_lt k f (n / 10) (digit n ∷ acc))

pow_pos : (k : ℕ) → 1 ≤ 10 ^ k
pow_pos zero = omega arith
pow_pos (suc k) = omega (arith, pow-suc 10 k, pow_pos k)

length-decimal_from_pos :
    (f n : ℕ) (acc : Text) → n < f → 1 + length acc ≤ length (decimal_from f n acc)
unfolding decimal_from
length-decimal_from_pos zero n acc h = elim h [ ]
length-decimal_from_pos (suc f) n acc h =
    ground (arith, length-decimal_from_pos f (n / 10) (digit n ∷ acc))

length-decimal_from_ge :
    (k f n : ℕ) (acc : Text)
    → n < f
    → 10 ^ k ≤ n
    → suc k + length acc ≤ length (decimal_from f n acc)
unfolding decimal_from
length-decimal_from_ge k zero n acc h l = elim h [ ]
length-decimal_from_ge zero (suc f) n acc h l = length-decimal_from_pos (suc f) n acc h
length-decimal_from_ge (suc k) (suc f) n acc h l =
    ground (arith, pow-suc 10 k, pow_pos k, length-decimal_from_ge k f (n / 10) (digit n ∷ acc))

-- What `%012d` prints has exactly twelve characters, unless the number needs more.
pub length-padded :
    (w n : ℕ)
    → (n < 10 ^ suc w → length (padded (suc w) n) ≡ suc w)
      × (10 ^ suc w ≤ n → suc w < length (padded (suc w) n))
unfolding padded decimal
length-padded w n = (
  λ h. omega (
    arith,
    length-zeros (suc w - length (decimal n)) (decimal n),
    length-decimal_from_lt w (suc n) n [] (omega arith) h,
  ),
  λ h. omega (
    arith,
    length-zeros (suc w - length (decimal n)) (decimal n),
    length-decimal_from_ge (suc w) (suc n) n [] (omega arith) h,
  ),
)

decimal_from-ne-nil : (f n : ℕ) (acc : Text) → is_nil (decimal_from (suc f) n acc) ≡ false
unfolding decimal_from
decimal_from-ne-nil zero n acc = ground arith
decimal_from-ne-nil (suc f) n acc = ground (arith, decimal_from-ne-nil f (n / 10) (digit n ∷ acc))

-- A number prints as at least one digit.
pub decimal-ne-nil : (n : ℕ) → is_nil (decimal n) ≡ false
unfolding decimal
decimal-ne-nil n = decimal_from-ne-nil n n []
