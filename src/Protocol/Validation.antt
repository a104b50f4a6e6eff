-- ===== src/Protocol/Validation.antt =====
-- internal/protocol/validation.go: what its Validate methods share. The receivers are not nil here;
-- a method that rewrites fields of its receiver returns the new document.
pub mod Mail
pub mod Target
pub mod Routing
pub mod Run
pub mod Blocker
use tmuxicate.Prelude.{
  ℕ, suc, Bool, true, false, ◌&&◌, ◌||◌, not, List, [], ◌∷◌, ◌++◌, Option, none, some, Result, ok,
  err, ◌>>=◌, ◌>>◌, Error, reject_if, is_nil, leb, ◌==◌, all,
}
use tmuxicate.Prelude.Int.{ℤ, pos, negsuc}
use tmuxicate.Text.{Text, trim_space, is_blank, byte_len, is_digit, text_eq, text_lt}

-- `for i, x := range xs { if err := f(i, x); err != nil { return err } }`, from index `i` on.
abbrev pub each {ℓ} : {A : Type ℓ} → (ℕ → A → Result (Unit {0})) → ℕ → List A → Result (Unit {0})
each f i [] = ok tt
each f i (x ∷ xs) = let rest = each f (suc i) xs in f i x >> rest

-- `p != nil && test(*p)`
abbrev pub present_and {ℓ} : {A : Type ℓ} → (A → Bool) → Option A → Bool
present_and test none = false
present_and test (some a) = test a

abbrev pub is_nil_ptr {ℓ} : {A : Type ℓ} → Option A → Bool
is_nil_ptr none = true
is_nil_ptr (some a) = false

-- `p != nil { if err := f(*p) ... }`
abbrev pub when_present {ℓ} : {A : Type ℓ} → (A → Result (Unit {0})) → Option A → Result (Unit {0})
when_present f none = ok tt
when_present f (some a) = f a

unfoldable pub is_hex_sha256 : Text → Bool
is_hex_sha256 s =
    byte_len s == 64 && all (λ r. (leb b'0' r && leb r b'9') || (leb b'a' r && leb r b'f')) s

-- strings.Join
unfoldable pub join : Text → List Text → Text
join sep [] = []
join sep (x ∷ []) = x
join sep (x ∷ y ∷ ys) = let rest = join sep (y ∷ ys) in x ++ sep ++ rest

-- slices.Equal
unfoldable pub texts_eq : List Text → List Text → Bool
texts_eq [] [] = true
texts_eq [] (y ∷ ys) = false
texts_eq (x ∷ xs) [] = false
texts_eq (x ∷ xs) (y ∷ ys) = text_eq x y && texts_eq xs ys

-- slices.Contains
unfoldable pub contains : List Text → Text → Bool
contains [] want = false
contains (x ∷ xs) want = text_eq x want || contains xs want
