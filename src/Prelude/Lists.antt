-- ===== src/Prelude/Lists.antt =====
-- Lists measured by native numbers, and a membership that can be taken apart.
use Prim.Native.Nat.{ℕ, suc}
use mathlib.Core.Path.{◌≡◌, refl, sym, ap, ◌∙◌, subst}
use mathlib.Core.Logic.{◌⊎◌, inl, inr}
use mathlib.Core.Bool.{Bool, true, false, ◌&&◌}
use mathlib.Core.List.{List, [], ◌∷◌, ◌++◌, Memᴰ}
use tmuxicate.Prelude.Tests.{if◌then◌else◌, Bool-cases}

module _ {ℓ} {A : Type ℓ} where
  abbrev pub length : List A → ℕ
  length [] = 0
  length (x ∷ xs) = suc (length xs)

  abbrev pub is_nil : List A → Bool
  is_nil [] = true
  is_nil (x ∷ xs) = false

  -- The library's `filter` wants a decision; the source's filters are Boolean tests.
  abbrev pub filter : (A → Bool) → List A → List A
  filter p [] = []
  filter p (x ∷ xs) = let rest = filter p xs in if p x then x ∷ rest else rest

  abbrev pub all : (A → Bool) → List A → Bool
  all p [] = true
  all p (x ∷ xs) = p x && all p xs

module _ {ℓ κ} {A : Type ℓ} where
  abbrev pub All : (A → Type κ) → List A → Type κ
  All P [] = Unit
  All P (x ∷ xs) = P x × All P xs

-- A property of all elements holds of any one of them.
pub All-mem {ℓ κ} : {A : Type ℓ} (P : A → Type κ) (xs : List A) {a : A} → All P xs → Memᴰ a xs → P a
All-mem P [] h m = elim m [ ]
All-mem P (x ∷ xs) h (Memᴰ.head e) = subst P (sym e) h.0
All-mem P (x ∷ xs) h (Memᴰ.tail m) = All-mem P xs h.1 m

pub All-map {ℓ κ μ} :
    {A : Type ℓ} {P : A → Type κ} {Q : A → Type μ} (f : (a : A) → P a → Q a) (xs : List A)
    → All P xs
    → All Q xs
All-map f [] h = tt
All-map f (x ∷ xs) h = (f x h.0, All-map f xs h.1)

pub All-of_mem {ℓ κ} :
    {A : Type ℓ} {P : A → Type κ} (xs : List A) → ((a : A) → Memᴰ a xs → P a) → All P xs
All-of_mem [] f = tt
All-of_mem (x ∷ xs) f = (f x (Memᴰ.head refl), All-of_mem xs (λ a m. f a (Memᴰ.tail m)))

pub All-append {ℓ κ} :
    {A : Type ℓ} (P : A → Type κ) (xs ys : List A) → All P xs → All P ys → All P (xs ++ ys)
All-append P [] ys h k = k
All-append P (x ∷ xs) ys h k = (h.0, All-append P xs ys h.1 k)

module _ {ℓ} {A : Type ℓ} where
  pub mem-cons_cases : {a x : A} {xs : List A} → Memᴰ a (x ∷ xs) → (a ≡ x) ⊎ Memᴰ a xs
  mem-cons_cases (Memᴰ.head e) = inl e
  mem-cons_cases (Memᴰ.tail m) = inr m

module _ {ℓ} {A : Type ℓ} where
  pub mem-filter→ :
      (p : A → Bool) (xs : List A) {a : A} → Memᴰ a (filter p xs) → Memᴰ a xs × (p a ≡ true)
  mem-filter→ p [] m = elim m [ ]
  mem-filter→ p (x ∷ xs) {a} m = elim (Bool-cases (p x)) [
    | inl e ↦ elim (mem-cons_cases (rw e at m)) [
      | inl q ↦ (Memᴰ.head q, ap p q ∙ e)
      | inr n ↦ let (r, s) = mem-filter→ p xs n in (Memᴰ.tail r, s)
    ]
    | inr e ↦ let (r, s) = mem-filter→ p xs (rw e at m) in (Memᴰ.tail r, s)
  ]

  pub mem-filter← :
      (p : A → Bool) (xs : List A) {a : A} → Memᴰ a xs → p a ≡ true → Memᴰ a (filter p xs)
  mem-filter← p [] m h = elim m [ ]
  mem-filter← p (x ∷ xs) {a} (Memᴰ.head q) h = rw (sym (ap p q) ∙ h) (Memᴰ.head q)
  mem-filter← p (x ∷ xs) {a} (Memᴰ.tail m) h = elim (Bool-cases (p x)) [
    | inl e ↦ rw e (Memᴰ.tail (mem-filter← p xs m h))
    | inr e ↦ rw e (mem-filter← p xs m h)
  ]

  pub mem-append→ : (xs ys : List A) {a : A} → Memᴰ a (xs ++ ys) → Memᴰ a xs ⊎ Memᴰ a ys
  mem-append→ [] ys m = inr m
  mem-append→ (x ∷ xs) ys m = elim (mem-cons_cases m) [
    | inl e ↦ inl (Memᴰ.head e)
    | inr n ↦ elim (mem-append→ xs ys n) [ inl r ↦ inl (Memᴰ.tail r) | inr r ↦ inr r ]
  ]

  pub mem-append_left : (xs ys : List A) {a : A} → Memᴰ a xs → Memᴰ a (xs ++ ys)
  mem-append_left [] ys m = elim m [ ]
  mem-append_left (x ∷ xs) ys (Memᴰ.head e) = Memᴰ.head e
  mem-append_left (x ∷ xs) ys (Memᴰ.tail m) = Memᴰ.tail (mem-append_left xs ys m)

  pub mem-append_right : (xs ys : List A) {a : A} → Memᴰ a ys → Memᴰ a (xs ++ ys)
  mem-append_right [] ys m = m
  mem-append_right (x ∷ xs) ys m = Memᴰ.tail (mem-append_right xs ys m)
