-- ===== src/Text.antt =====
-- Go strings as lists of code points (valid UTF-8), with the functions of `strings` and `unicode`
-- that internal/protocol, internal/session and internal/mailbox call.
pub mod Order
pub mod Decimal
use Prim.Native.Char.{code}
use Prim.Native.String.{String}
use tmuxicate.Prelude.{
  ℕ, zero, suc, ◌+◌, ◌-◌, ◌≤◌, ◌<◌, ◌≡◌, refl, ap, ◌∙◌, sym, ◌↔◌, ◌⊎◌, inl, inr, Bool, true, false,
  ◌&&◌, ◌||◌, not, List, [], ◌∷◌, ◌++◌, arith, ltb, leb, ◌==◌, ==_iff, if◌then◌else◌, is_nil, all,
  length, Bool-cases, ◌≢◌,
}

abbrev pub Text : Type 0
Text = List ℕ

abbrev pub codes : String → Text
codes String.[] = []
codes (String.◌∷◌ c s) = code c ∷ codes s

-- `a == b`
unfoldable pub text_eq : Text → Text → Bool
text_eq [] [] = true
text_eq [] (y ∷ ys) = false
text_eq (x ∷ xs) [] = false
text_eq (x ∷ xs) (y ∷ ys) = x == y && text_eq xs ys

pub text_eq→ : (a b : Text) → text_eq a b ≡ true → a ≡ b
unfolding text_eq
text_eq→ [] [] h = refl
text_eq→ [] (y ∷ ys) h = cc
text_eq→ (x ∷ xs) [] h = cc
text_eq→ (x ∷ xs) (y ∷ ys) h = ground (arith, text_eq→ xs ys)

pub text_eq_refl : (a : Text) → text_eq a a ≡ true
unfolding text_eq
text_eq_refl [] = refl
text_eq_refl (x ∷ xs) = ground (arith, text_eq_refl xs)

pub text_eq_iff : (a b : Text) → (text_eq a b ≡ true) ↔ (a ≡ b)
text_eq_iff a b = (text_eq→ a b, λ e. ap (text_eq a) (sym e) ∙ text_eq_refl a)

-- `a < b`: the byte order of UTF-8 is the order of code points.
unfoldable pub text_lt : Text → Text → Bool
text_lt xs [] = false
text_lt [] (y ∷ ys) = true
text_lt (x ∷ xs) (y ∷ ys) = let rest = text_lt xs ys in ltb x y || (x == y && rest)

-- unicode.IsSpace
unfoldable pub is_space : ℕ → Bool
is_space c =
    (leb 9 c && leb c 13)
    || c == 32
    || c == 0x85
    || c == 0xA0
    || c == 0x1680
    || (leb 0x2000 c && leb c 0x200A)
    || c == 0x2028
    || c == 0x2029
    || c == 0x202F
    || c == 0x205F
    || c == 0x3000

trim_left : Text → Text
trim_left [] = []
trim_left (c ∷ s) = let rest = trim_left s in if is_space c then rest else c ∷ s

trim_right : Text → Text
trim_right [] = []
trim_right (c ∷ s) = let rest = trim_right s in if is_nil rest && is_space c then [] else c ∷ rest

-- strings.TrimSpace
unfoldable pub trim_space : Text → Text
unfolding trim_left trim_right is_space
trim_space s = trim_right (trim_left s)

-- strings.TrimSpace(s) == ""
abbrev pub is_blank : Text → Bool
is_blank s = is_nil (trim_space s)

-- unicode.ToLower, where the result is ASCII: besides A to Z, U+0130 lowers to i and U+212A to k.
-- A code point that lowers to a non-ASCII one is left as it is.
unfoldable pub to_lower_rune : ℕ → ℕ
to_lower_rune c =
    if leb b'A' c && leb c b'Z'
    then c + 32
    else if c == 0x130
    then b'i'
    else if c == 0x212A
    then b'k'
    else c

-- strings.HasPrefix followed by strings.TrimPrefix: the rest behind the prefix, if it is one.
pub data Prefixed : Type 0 where
  without : Prefixed
  rest : Text → Prefixed

unfoldable pub cut_prefix : Text → Text → Prefixed
cut_prefix [] s = rest s
cut_prefix (p ∷ ps) [] = without
cut_prefix (p ∷ ps) (c ∷ s) = let r = cut_prefix ps s in if p == c then r else without

-- The bytes of a code point in UTF-8, and len(s).
abbrev rune_len : ℕ → ℕ
rune_len c = if ltb c 0x80 then 1 else if ltb c 0x800 then 2 else if ltb c 0x10000 then 3 else 4

unfoldable pub byte_len : Text → ℕ
byte_len [] = 0
byte_len (c ∷ s) = rune_len c + byte_len s

-- '0' <= r && r <= '9'
unfoldable pub is_digit : ℕ → Bool
is_digit c = leb b'0' c && leb c b'9'

trim_left_idem : (s : Text) → trim_left (trim_left s) ≡ trim_left s
unfolding trim_left
trim_left_idem [] = refl
trim_left_idem (c ∷ s) = ground (arith, trim_left_idem s)

trim_right_idem : (s : Text) → trim_right (trim_right s) ≡ trim_right s
unfolding trim_right
trim_right_idem [] = refl
trim_right_idem (c ∷ s) = ground (arith, trim_right_idem s)

trim_left_of_none : (s : Text) → all (λ c. not (is_space c)) s ≡ true → trim_left s ≡ s
unfolding trim_left
trim_left_of_none [] h = refl
trim_left_of_none (c ∷ s) h = ground arith

trim_right_of_none : (s : Text) → all (λ c. not (is_space c)) s ≡ true → trim_right s ≡ s
unfolding trim_right
trim_right_of_none [] h = refl
trim_right_of_none (c ∷ s) h = ground (arith, trim_right_of_none s)

-- A text with no white space in it is left alone.
pub trim_space_of_none : (s : Text) → all (λ c. not (is_space c)) s ≡ true → trim_space s ≡ s
unfolding trim_space
trim_space_of_none s h = ap trim_right (trim_left_of_none s h) ∙ trim_right_of_none s h

trim_left-trim_right : (s : Text) → trim_left (trim_right (trim_left s)) ≡ trim_right (trim_left s)
unfolding trim_left trim_right
trim_left-trim_right [] = refl
trim_left-trim_right (c ∷ s) = ground (arith, trim_left-trim_right s)

-- Trimming twice is trimming once.
pub trim_space_idem : (s : Text) → trim_space (trim_space s) ≡ trim_space s
unfolding trim_space
trim_space_idem s = ap trim_right (trim_left-trim_right s) ∙ trim_right_idem (trim_left s)

newline-is_space : is_space 10 ≡ true
unfolding is_space
newline-is_space = refl

trim_right_newline :
    (s : Text) → all (λ c. not (is_space c)) s ≡ true → trim_right (s ++ 10 ∷ []) ≡ s
unfolding trim_right
trim_right_newline [] h = rw newline-is_space
trim_right_newline (c ∷ s) h = ground (arith, trim_right_newline s)

-- A text with no white space in it is what trimming its line leaves.
pub trim_space_newline :
    (s : Text) → all (λ c. not (is_space c)) s ≡ true → trim_space (s ++ 10 ∷ []) ≡ s
unfolding trim_space trim_left
trim_space_newline [] h = refl
trim_space_newline (c ∷ s) h =
    let kept : is_space c ≡ false = ground arith in rw kept (trim_right_newline (c ∷ s) h)

trim_right-is_nil :
    (s t : Text) (c : ℕ) → is_space c ≡ false → is_nil (trim_right (s ++ c ∷ t)) ≡ false
unfolding trim_right
trim_right-is_nil [] t c h = ground arith
trim_right-is_nil (d ∷ s) t c h = ground (arith, trim_right-is_nil s t c h)

trim_left-keeps :
    (s t : Text) (c : ℕ) → is_space c ≡ false → (u : Text) × (trim_left (s ++ c ∷ t) ≡ u ++ c ∷ t)
unfolding trim_left
trim_left-keeps [] t c h = ([], rw h refl)
trim_left-keeps (d ∷ s) t c h = elim (Bool-cases (is_space d)) [
  | inl e ↦ rw e (trim_left-keeps s t c h)
  | inr e ↦ rw e (d ∷ s, refl)
]

-- A text with a character that is no space is not blank.
pub is_blank_of_char : (s t : Text) (c : ℕ) → is_space c ≡ false → is_blank (s ++ c ∷ t) ≡ false
unfolding trim_space
is_blank_of_char s t c h = let (u, e) = trim_left-keeps s t c h in rw e (trim_right-is_nil u t c h)
