-- ===== src/Protocol/Domains/Loop.antt =====
-- What the loop of NormalizeRouteDomains collects.
use mathlib.Core.List.{Memᴰ, append-nil, append_assoc}
use tmuxicate.Prelude.{
  ℕ, suc, ◌≡◌, ◌≢◌, refl, sym, ap, ◌∙◌, ◌⊎◌, inl, inr, true, false, ◌&&◌, List, [], ◌∷◌, ◌++◌,
  if◌then◌else◌, is_nil, all, is_ok, ok, arith, All, All-append, Bool-cases, subst, mem-append→,
  mem-append_left, mem-append_right, mem-cons_cases, not, map, All-of_mem, All-mem,
}
use tmuxicate.Text.{
  Text, text_eq, text_eq→, text_eq_refl, is_space, trim_space_of_none, to_lower_rune,
}
use tmuxicate.Protocol.Domains.{seen_has, domain_value, is_domain_char, normalize_from}

-- A value that the loop accepts.
abbrev pub IsDomain : Text → Type 0
IsDomain v = (is_nil v ≡ false) × (all is_domain_char v ≡ true)

-- No text stands twice in the list.
abbrev pub Distinct : List Text → Type 0
Distinct [] = Unit
Distinct (x ∷ xs) = All (λ y. x ≢ y) xs × Distinct xs

pub seen_has-mem : (seen : List Text) (v : Text) → seen_has seen v ≡ true → Memᴰ v seen
unfolding seen_has
seen_has-mem [] v h = cc
seen_has-mem (s ∷ seen) v h = elim (Bool-cases (text_eq s v)) [
  | inl e ↦ Memᴰ.head (sym (text_eq→ s v e))
  | inr e ↦ Memᴰ.tail (seen_has-mem seen v (rw e at h))
]

pub seen_has_of_mem : (seen : List Text) {v : Text} → Memᴰ v seen → seen_has seen v ≡ true
unfolding seen_has
seen_has_of_mem [] m = elim m [ ]
seen_has_of_mem (s ∷ seen) {v} (Memᴰ.head e) =
    ground (arith, text_eq_refl s, ap (λ t. text_eq s t) e)
seen_has_of_mem (s ∷ seen) (Memᴰ.tail m) = ground (arith, seen_has_of_mem seen m)

abbrev next : List Text → List Text → Text → List Text
next seen xs v = if seen_has seen v then xs else v ∷ xs

abbrev next_out : List Text → List Text → Text → List Text
next_out seen out v = if seen_has seen v then out else out ++ v ∷ []

-- A round that goes on has accepted its domain.
round_ok :
    (i : ℕ) (d : Text) (ds seen out : List Text) {res : List Text}
    → normalize_from i (d ∷ ds) seen out ≡ ok res
    → IsDomain (domain_value d)
      × (normalize_from
            (suc i)
            ds
            (next seen seen (domain_value d))
            (next_out seen out (domain_value d))
          ≡ ok res)
unfolding normalize_from
round_ok i d ds seen out h = ground arith

next_out-keeps :
    (seen out : List Text) (v : Text) {a : Text} → Memᴰ a out → Memᴰ a (next_out seen out v)
next_out-keeps seen out v m = elim (Bool-cases (seen_has seen v)) [
  | inl e ↦ rw e m
  | inr e ↦ rw e (mem-append_left out (v ∷ []) m)
]

next_out-self :
    (seen out : List Text) (v : Text)
    → ((a : Text) → Memᴰ a seen → Memᴰ a out)
    → Memᴰ v (next_out seen out v)
next_out-self seen out v inc = elim (Bool-cases (seen_has seen v)) [
  | inl e ↦ rw e (inc v (seen_has-mem seen v e))
  | inr e ↦ rw e (mem-append_right out (v ∷ []) (Memᴰ.head refl))
]

next_out-cases :
    (seen out : List Text) (v : Text) {a : Text}
    → Memᴰ a (next_out seen out v)
    → Memᴰ a out ⊎ (a ≡ v)
next_out-cases seen out v m = elim (Bool-cases (seen_has seen v)) [
  | inl e ↦ inl (rw e at m)
  | inr e ↦ elim (mem-append→ out (v ∷ []) (rw e at m)) [
    | inl k ↦ inl k
    | inr k ↦ elim (mem-cons_cases k) [ inl q ↦ inr q | inr n ↦ elim n [ ] ]
  ]
]

next-cases :
    (seen : List Text) (v : Text) {a : Text} → Memᴰ a (next seen seen v) → Memᴰ a seen ⊎ (a ≡ v)
next-cases seen v m = elim (Bool-cases (seen_has seen v)) [
  | inl e ↦ inl (rw e at m)
  | inr e ↦ elim (mem-cons_cases (rw e at m)) [ inl q ↦ inr q | inr n ↦ inl n ]
]

next-keeps : (seen : List Text) (v : Text) {a : Text} → Memᴰ a seen → Memᴰ a (next seen seen v)
next-keeps seen v m = elim (Bool-cases (seen_has seen v)) [
  | inl e ↦ rw e m
  | inr e ↦ rw e (Memᴰ.tail m)
]

next-self : (seen : List Text) (v : Text) → Memᴰ v (next seen seen v)
next-self seen v = elim (Bool-cases (seen_has seen v)) [
  | inl e ↦ rw e (seen_has-mem seen v e)
  | inr e ↦ rw e (Memᴰ.head refl)
]

abbrev SameMembers : List Text → List Text → Type 0
SameMembers seen out =
    ((a : Text) → Memᴰ a seen → Memᴰ a out) × ((a : Text) → Memᴰ a out → Memᴰ a seen)

next-SameMembers :
    (seen out : List Text) (v : Text)
    → SameMembers seen out
    → SameMembers (next seen seen v) (next_out seen out v)
next-SameMembers seen out v same = (
  λ a m. elim (next-cases seen v m) [
    | inl k ↦ next_out-keeps seen out v (same.0 a k)
    | inr e ↦ rw e (next_out-self seen out v same.0)
  ],
  λ a m. elim (next_out-cases seen out v m) [
    | inl k ↦ next-keeps seen v (same.1 a k)
    | inr e ↦ rw e (next-self seen v)
  ],
)

pub loop-All :
    (i : ℕ) (ds seen out : List Text) {res : List Text}
    → normalize_from i ds seen out ≡ ok res
    → All IsDomain out
    → All IsDomain res
unfolding normalize_from
loop-All i [] seen out h k = subst (All IsDomain) (cc) k
loop-All i (d ∷ ds) seen out h k =
    let (good, rest) = round_ok i d ds seen out h in
    let k' : All IsDomain (next_out seen out (domain_value d)) =
      elim (Bool-cases (seen_has seen (domain_value d))) [
        | inl e ↦ rw e k
        | inr e ↦ rw e (All-append IsDomain out (domain_value d ∷ []) k (good, tt))
      ] in
    loop-All (suc i) ds (next seen seen (domain_value d)) (next_out seen out (domain_value d)) rest
      k'

-- Every collected value is the value of a domain, or was there before.
pub loop-mem→ :
    (i : ℕ) (ds seen out : List Text) {res : List Text} {a : Text}
    → normalize_from i ds seen out ≡ ok res
    → Memᴰ a res
    → Memᴰ a out ⊎ Memᴰ a (map domain_value ds)
unfolding normalize_from
loop-mem→ i [] seen out {a = a} h m = inl (subst (Memᴰ a) (cc) m)
loop-mem→ i (d ∷ ds) seen out h m =
    let v = domain_value d in
    elim (loop-mem→ (suc i) ds (next seen seen v) (next_out seen out v)
      (round_ok i d ds seen out h).1 m) [
        | inl k ↦ elim (next_out-cases seen out v k) [ inl q ↦ inl q | inr e ↦ inr (Memᴰ.head e) ]
        | inr k ↦ inr (Memᴰ.tail k)
      ]

loop-keeps :
    (i : ℕ) (ds seen out : List Text) {res : List Text} {a : Text}
    → normalize_from i ds seen out ≡ ok res
    → Memᴰ a out
    → Memᴰ a res
unfolding normalize_from
loop-keeps i [] seen out {a = a} h m = subst (Memᴰ a) (cc) m
loop-keeps i (d ∷ ds) seen out h m =
    loop-keeps (suc i) ds (next seen seen (domain_value d)) (next_out seen out (domain_value d))
      (round_ok i d ds seen out h).1 (next_out-keeps seen out (domain_value d) m)

-- The value of every domain is collected.
pub loop-mem← :
    (i : ℕ) (ds seen out : List Text) {res : List Text} {a : Text}
    → SameMembers seen out
    → normalize_from i ds seen out ≡ ok res
    → Memᴰ a (map domain_value ds)
    → Memᴰ a res
loop-mem← i [] seen out same h m = elim m [ ]
loop-mem← i (d ∷ ds) seen out same h (Memᴰ.head e) = rw e (
    loop-keeps (suc i) ds (next seen seen (domain_value d)) (next_out seen out (domain_value d))
      (round_ok i d ds seen out h).1 (next_out-self seen out (domain_value d) same.0))
loop-mem← i (d ∷ ds) seen out same h (Memᴰ.tail m) =
    loop-mem← (suc i) ds (next seen seen (domain_value d)) (next_out seen out (domain_value d))
      (next-SameMembers seen out (domain_value d) same) (round_ok i d ds seen out h).1 m

pub Distinct-snoc :
    (xs : List Text) (v : Text) → Distinct xs → (Memᴰ v xs → ⊥) → Distinct (xs ++ v ∷ [])
Distinct-snoc [] v h k = (tt, tt)
Distinct-snoc (x ∷ xs) v h k = (
  All-append (λ y. x ≢ y) xs (v ∷ []) h.0 (λ e. k (Memᴰ.head (sym e)), tt),
  Distinct-snoc xs v h.1 (λ m. k (Memᴰ.tail m)),
)

pub loop-Distinct :
    (i : ℕ) (ds seen out : List Text) {res : List Text}
    → SameMembers seen out
    → normalize_from i ds seen out ≡ ok res
    → Distinct out
    → Distinct res
unfolding normalize_from
loop-Distinct i [] seen out same h k = subst Distinct (cc) k
loop-Distinct i (d ∷ ds) seen out same h k =
    let v = domain_value d in
    let k' : Distinct (next_out seen out v) = elim (Bool-cases (seen_has seen v)) [
      | inl e ↦ rw e k
      | inr e ↦
          rw e (Distinct-snoc out v k (λ m. absurd (cc (seen_has_of_mem seen (same.1 v m), e))))
    ] in
    loop-Distinct (suc i) ds (next seen seen v) (next_out seen out v)
      (next-SameMembers seen out v same) (round_ok i d ds seen out h).1 k'

domain_char-lower : (c : ℕ) → is_domain_char c ≡ true → to_lower_rune c ≡ c
unfolding is_domain_char to_lower_rune
domain_char-lower c h = ground arith

domain_char-space : (c : ℕ) → is_domain_char c ≡ true → is_space c ≡ false
unfolding is_domain_char is_space
domain_char-space c h = ground arith

no_space : (v : Text) → all is_domain_char v ≡ true → all (λ c. not (is_space c)) v ≡ true
no_space [] h = refl
no_space (c ∷ v) h = ground (arith, domain_char-space c, no_space v)

lower_id : (v : Text) → all is_domain_char v ≡ true → map to_lower_rune v ≡ v
lower_id [] h = refl
lower_id (c ∷ v) h = ground (arith, domain_char-lower c, lower_id v)

-- An accepted value is its own value.
pub domain_value_of_IsDomain : (v : Text) → IsDomain v → domain_value v ≡ v
unfolding domain_value
domain_value_of_IsDomain v h =
    ap (map to_lower_rune) (trim_space_of_none v (no_space v h.1)) ∙ lower_id v h.1

-- The loop only copies values that are accepted, distinct and new.
pub loop_copies :
    (i : ℕ) (ds seen out : List Text)
    → All IsDomain ds
    → Distinct ds
    → All (λ d. seen_has seen d ≡ false) ds
    → normalize_from i ds seen out ≡ ok (out ++ ds)
unfolding normalize_from
loop_copies i [] seen out good dist new = rw append-nil
loop_copies i (d ∷ ds) seen out good dist new =
    rw (domain_value_of_IsDomain d good.0, good.0.0, good.0.1, new.0)
      (loop_copies (suc i) ds (d ∷ seen) (out ++ d ∷ []) good.1 dist.1
          (All-of_mem ds (λ a m. still_new a m))
        ∙ ap ok (append_assoc out (d ∷ []) ds))
  where
    still_new : (a : Text) → Memᴰ a ds → seen_has (d ∷ seen) a ≡ false
    still_new a m = ground (
      arith,
      text_eq→ d a,
      All-mem (λ y. d ≢ y) ds dist.0 m,
      All-mem (λ x. seen_has seen x ≡ false) ds new.1 m,
    )

-- The loop fails exactly if the value of some domain is not accepted.
pub loop-is_ok :
    (i : ℕ) (ds seen out : List Text)
    → is_ok (normalize_from i ds seen out)
      ≡ all (λ d. not (is_nil (domain_value d)) && all is_domain_char (domain_value d)) ds
unfolding normalize_from
loop-is_ok i [] seen out = refl
loop-is_ok i (d ∷ ds) seen out =
    let v = domain_value d in
    ground (arith, loop-is_ok (suc i) ds (next seen seen v) (next_out seen out v))
