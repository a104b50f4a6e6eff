-- ===== src/Protocol/Domains/Canonical.antt =====
-- NormalizeRouteDomains of internal/protocol/validation.go and the canonical lists of domains.
use mathlib.Core.List.{Memᴰ}
use tmuxicate.Prelude.{
  ◌≡◌, ◌≢◌, refl, sym, ap, ◌∙◌, inl, inr, true, false, ◌&&◌, List, [], ◌∷◌, map, is_nil, all, is_ok,
  is_ok-map, ok, ◌↔◌, >>=-eq-ok, All, All-mem, All-of_mem, Bool-cases, not, subst,
}
use tmuxicate.Prelude.Sorting.{
  sort, insert, insert-All, IsSorted, sort-IsSorted, sort-All, mem-sort→, mem-sort←,
  sort_of_IsSorted,
}
use tmuxicate.Text.{Text, text_lt}
use tmuxicate.Text.Order.{text_lt_asym, text_lt_total, text_order}
use tmuxicate.Protocol.Domains.{
  domain_value, is_domain_char, normalize_from, normalize_route_domains,
}
use tmuxicate.Protocol.Domains.Loop.{
  IsDomain, Distinct, loop-All, loop-mem→, loop-mem←, loop-Distinct, loop_copies, loop-is_ok,
}

-- Each text is less than all that follow.
abbrev pub IsStrict : List Text → Type 0
IsStrict [] = Unit
IsStrict (x ∷ xs) = All (λ y. text_lt x y ≡ true) xs × IsStrict xs

-- The form in which the program stores domains and compares them.
abbrev pub IsCanonical : List Text → Type 0
IsCanonical ds = All IsDomain ds × IsStrict ds

insert-Distinct :
    (x : Text) (xs : List Text) → All (λ y. x ≢ y) xs → Distinct xs → Distinct (insert text_lt x xs)
unfolding insert
insert-Distinct x [] h k = (tt, tt)
insert-Distinct x (y ∷ ys) h k = elim (Bool-cases (text_lt y x)) [
  | inl e ↦
      rw e
        (insert-All text_lt (λ z. y ≢ z) x ys (λ q. h.0 (sym q)) k.0, insert-Distinct x ys h.1 k.1)
  | inr e ↦ rw e (h, k)
]

sort-Distinct : (xs : List Text) → Distinct xs → Distinct (sort text_lt xs)
unfolding sort
sort-Distinct [] h = tt
sort-Distinct (x ∷ xs) h =
    insert-Distinct x (sort text_lt xs) (sort-All text_lt (λ y. x ≢ y) xs h.0)
      (sort-Distinct xs h.1)

IsStrict-of_sorted : (xs : List Text) → IsSorted text_lt xs → Distinct xs → IsStrict xs
IsStrict-of_sorted [] h k = tt
IsStrict-of_sorted (x ∷ xs) h k = (
  All-of_mem xs
      λ a m. less a (All-mem (λ y. text_lt y x ≡ false) xs h.0 m) (All-mem (λ y. x ≢ y) xs k.0 m),
  IsStrict-of_sorted xs h.1 k.1,
)
  where
    less : (a : Text) → text_lt a x ≡ false → x ≢ a → text_lt x a ≡ true
    less a p q = elim (Bool-cases (text_lt x a)) [
      | inl e ↦ e
      | inr e ↦ absurd (q (text_lt_total x a e p))
    ]

IsSorted-of_strict : (xs : List Text) → IsStrict xs → IsSorted text_lt xs
IsSorted-of_strict [] h = tt
IsSorted-of_strict (x ∷ xs) h = (
  All-of_mem xs λ a m. text_lt_asym x a (All-mem (λ y. text_lt x y ≡ true) xs h.0 m),
  IsSorted-of_strict xs h.1,
)

Distinct-of_strict : (xs : List Text) → IsStrict xs → Distinct xs
Distinct-of_strict [] h = tt
Distinct-of_strict (x ∷ xs) h = (
  All-of_mem xs λ a m e. cc (
    text_lt_asym x a (All-mem (λ y. text_lt x y ≡ true) xs h.0 m),
    All-mem (λ y. text_lt x y ≡ true) xs h.0 m,
    ap (λ t. text_lt t a) e,
    ap (λ t. text_lt a t) e,
  ),
  Distinct-of_strict xs h.1,
)

-- What normalization returns is canonical: every domain is non-empty and made of lower case letters,
-- digits, hyphens and underscores, and the domains stand in strictly ascending order. Its members
-- are exactly the lowered and trimmed inputs.
pub normalize-IsCanonical :
    (ds : List Text) {ns : List Text}
    → normalize_route_domains ds ≡ ok ns
    → IsCanonical ns × ((v : Text) → Memᴰ v ns ↔ Memᴰ v (map domain_value ds))
unfolding normalize_route_domains
normalize-IsCanonical ds {ns} h =
    let (out, e, q) = >>=-eq-ok (normalize_from 0 ds [] []) (λ xs. ok (sort text_lt xs)) h in
    let s : sort text_lt out ≡ ns = cc in
    let same : ((a : Text) → Memᴰ a [] → Memᴰ a []) × ((a : Text) → Memᴰ a [] → Memᴰ a []) =
      (λ a m. m, λ a m. m) in
    subst (λ xs. IsCanonical xs × ((v : Text) → Memᴰ v xs ↔ Memᴰ v (map domain_value ds))) s
      (
        (
          sort-All text_lt IsDomain out (loop-All 0 ds [] [] e tt),
          IsStrict-of_sorted (sort text_lt out) (sort-IsSorted text_lt text_order out)
              (sort-Distinct out (loop-Distinct 0 ds [] [] same e tt)),
        ),
        λ v. (
          λ m. elim (loop-mem→ 0 ds [] [] e (mem-sort→ text_lt out m)) [
            | inl n ↦ elim n [ ]
            | inr k ↦ k
          ],
          λ m. mem-sort← text_lt out (loop-mem← 0 ds [] [] same e m),
        ),
      )

-- Normalization returns a canonical list unchanged.
pub normalize_of_IsCanonical :
    (ds : List Text) → IsCanonical ds → normalize_route_domains ds ≡ ok ds
unfolding normalize_route_domains
normalize_of_IsCanonical ds h =
    rw (loop_copies 0 ds [] [] h.0 (Distinct-of_strict ds h.1) (All-of_mem ds (λ a m. refl)))
      (ap ok (sort_of_IsSorted text_lt ds (IsSorted-of_strict ds h.1)))

-- Normalization fails exactly if some domain is blank or has another character once it is trimmed
-- and lowered.
pub normalize-is_ok :
    (ds : List Text)
    → is_ok (normalize_route_domains ds)
      ≡ all (λ d. not (is_nil (domain_value d)) && all is_domain_char (domain_value d)) ds
unfolding normalize_route_domains
normalize-is_ok ds = is_ok-map (normalize_from 0 ds [] []) (sort text_lt) ∙ loop-is_ok 0 ds [] []
