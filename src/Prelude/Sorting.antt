-- ===== src/Prelude/Sorting.antt =====
-- The standard library's stable sort by a Boolean `less`, as insertion: equal elements keep order.
use mathlib.Core.List.{Perm, Memᴰ}
use mathlib.Core.List.Perm
use mathlib.Core.Path.{◌≡◌, refl, ap, ◌∙◌}
use mathlib.Core.Bool.{Bool, true, false}
use mathlib.Core.Logic.{◌⊎◌, inl, inr}
use mathlib.Core.List.{List, [], ◌∷◌}
use tmuxicate.Prelude.Tests.{if◌then◌else◌, Bool-cases}
use tmuxicate.Prelude.Lists.{All, All-map, mem-cons_cases}

module _ {ℓ} {A : Type ℓ} (less : A → A → Bool) where
  -- `x` goes before the first element that is not less than it.
  unfoldable pub insert : A → List A → List A
  insert x [] = x ∷ []
  insert x (y ∷ ys) = let rest = insert x ys in if less y x then y ∷ rest else x ∷ y ∷ ys

  unfoldable pub sort : List A → List A
  unfolding insert
  sort [] = []
  sort (x ∷ xs) = insert x (sort xs)

  -- No later element is less than an earlier one.
  abbrev pub IsSorted : List A → Type 0
  IsSorted [] = Unit
  IsSorted (x ∷ xs) = All (λ y. less y x ≡ false) xs × IsSorted xs

  pub insert-perm : (x : A) (xs : List A) → Perm (insert x xs) (x ∷ xs)
  unfolding insert
  insert-perm x [] = Perm.refl (x ∷ [])
  insert-perm x (y ∷ ys) = elim (Bool-cases (less y x)) [
    | inl e ↦ rw e (Perm.trans (Perm.cons y (insert-perm x ys)) (Perm.swap x y ys))
    | inr e ↦ rw e (Perm.refl (x ∷ y ∷ ys))
  ]

  pub sort-perm : (xs : List A) → Perm (sort xs) xs
  unfolding sort
  sort-perm [] = Perm.refl []
  sort-perm (x ∷ xs) = Perm.trans (insert-perm x (sort xs)) (Perm.cons x (sort-perm xs))

  pub insert-All {κ} : (P : A → Type κ) (x : A) (xs : List A) → P x → All P xs → All P (insert x xs)
  unfolding insert
  insert-All P x [] p h = (p, tt)
  insert-All P x (y ∷ ys) p h = elim (Bool-cases (less y x)) [
    | inl e ↦ rw e (h.0, insert-All P x ys p h.1)
    | inr e ↦ rw e (p, h)
  ]

  pub sort-All {κ} : (P : A → Type κ) (xs : List A) → All P xs → All P (sort xs)
  unfolding sort
  sort-All P [] h = tt
  sort-All P (x ∷ xs) h = insert-All P x (sort xs) h.0 (sort-All P xs h.1)

  mem-insert→ : (x : A) (xs : List A) {a : A} → Memᴰ a (insert x xs) → (a ≡ x) ⊎ Memᴰ a xs
  unfolding insert
  mem-insert→ x [] m = mem-cons_cases m
  mem-insert→ x (y ∷ ys) m = elim (Bool-cases (less y x)) [
    | inl e ↦ elim (mem-cons_cases (rw e at m)) [
      | inl p ↦ inr (Memᴰ.head p)
      | inr n ↦ elim (mem-insert→ x ys n) [ inl p ↦ inl p | inr q ↦ inr (Memᴰ.tail q) ]
    ]
    | inr e ↦ mem-cons_cases (rw e at m)
  ]

  pub mem-sort→ : (xs : List A) {a : A} → Memᴰ a (sort xs) → Memᴰ a xs
  unfolding sort
  mem-sort→ (x ∷ xs) m = elim (mem-insert→ x (sort xs) m) [
    | inl p ↦ Memᴰ.head p
    | inr n ↦ Memᴰ.tail (mem-sort→ xs n)
  ]
  mem-sort→ [] m = m

  mem-insert_self : (x : A) (xs : List A) {a : A} → a ≡ x → Memᴰ a (insert x xs)
  unfolding insert
  mem-insert_self x [] p = Memᴰ.head p
  mem-insert_self x (y ∷ ys) p = elim (Bool-cases (less y x)) [
    | inl e ↦ rw e (Memᴰ.tail (mem-insert_self x ys p))
    | inr e ↦ rw e (Memᴰ.head p)
  ]

  mem-insert_of_mem : (x : A) (xs : List A) {a : A} → Memᴰ a xs → Memᴰ a (insert x xs)
  unfolding insert
  mem-insert_of_mem x [] m = elim m [ ]
  mem-insert_of_mem x (y ∷ ys) (Memᴰ.head p) = elim (Bool-cases (less y x)) [
    | inl e ↦ rw e (Memᴰ.head p)
    | inr e ↦ rw e (Memᴰ.tail (Memᴰ.head p))
  ]
  mem-insert_of_mem x (y ∷ ys) (Memᴰ.tail m) = elim (Bool-cases (less y x)) [
    | inl e ↦ rw e (Memᴰ.tail (mem-insert_of_mem x ys m))
    | inr e ↦ rw e (Memᴰ.tail (Memᴰ.tail m))
  ]

  pub mem-sort← : (xs : List A) {a : A} → Memᴰ a xs → Memᴰ a (sort xs)
  unfolding sort
  mem-sort← [] m = elim m [ ]
  mem-sort← (x ∷ xs) (Memᴰ.head p) = mem-insert_self x (sort xs) p
  mem-sort← (x ∷ xs) (Memᴰ.tail m) = mem-insert_of_mem x (sort xs) (mem-sort← xs m)

  -- What the comparison has to satisfy for the sort to sort.
  pub record IsOrder : Type ℓ where
    pub asym : (x y : A) → less x y ≡ true → less y x ≡ false
    pub trans : (x y z : A) → less y x ≡ false → less z y ≡ false → less z x ≡ false

  module _ (o : IsOrder) where
    insert-IsSorted : (x : A) (xs : List A) → IsSorted xs → IsSorted (insert x xs)
    unfolding insert
    insert-IsSorted x [] h = (tt, tt)
    insert-IsSorted x (y ∷ ys) h = elim (Bool-cases (less y x)) [
      | inl e ↦ rw e (insert-All _ x ys (o.asym y x e) h.0, insert-IsSorted x ys h.1)
      | inr e ↦ rw e ((e, All-map (λ z q. o.trans x y z e q) ys h.0), h)
    ]

    pub sort-IsSorted : (xs : List A) → IsSorted (sort xs)
    unfolding sort
    sort-IsSorted [] = tt
    sort-IsSorted (x ∷ xs) = insert-IsSorted x (sort xs) (sort-IsSorted xs)

  -- A list that is sorted already is left alone.
  pub sort_of_IsSorted : (xs : List A) → IsSorted xs → sort xs ≡ xs
  unfolding sort insert
  sort_of_IsSorted [] h = refl
  sort_of_IsSorted (x ∷ []) h = refl
  sort_of_IsSorted (x ∷ y ∷ ys) h = ap (insert x) (sort_of_IsSorted (y ∷ ys) h.1) ∙ rw h.0.0 refl
