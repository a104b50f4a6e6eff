-- ===== src/Text/Order.antt =====
-- The order of texts is a strict total order, so that sorting by it has one result.
use tmuxicate.Prelude.{◌≡◌, refl, true, false, [], ◌∷◌, arith}
use tmuxicate.Prelude.Sorting.{IsOrder}
use tmuxicate.Text.{Text, text_lt}

pub text_lt_asym : (a b : Text) → text_lt a b ≡ true → text_lt b a ≡ false
unfolding text_lt
text_lt_asym a [] h = cc
text_lt_asym [] (y ∷ ys) h = refl
text_lt_asym (x ∷ xs) (y ∷ ys) h = ground (arith, text_lt_asym xs ys)

pub text_lt_total : (a b : Text) → text_lt a b ≡ false → text_lt b a ≡ false → a ≡ b
unfolding text_lt
text_lt_total [] [] h k = refl
text_lt_total [] (y ∷ ys) h k = cc
text_lt_total (x ∷ xs) [] h k = cc
text_lt_total (x ∷ xs) (y ∷ ys) h k = ground (arith, text_lt_total xs ys)

text_le_trans : (a b c : Text) → text_lt b a ≡ false → text_lt c b ≡ false → text_lt c a ≡ false
unfolding text_lt
text_le_trans [] b c h k = refl
text_le_trans (x ∷ xs) [] c h k = cc
text_le_trans (x ∷ xs) (y ∷ ys) [] h k = cc
text_le_trans (x ∷ xs) (y ∷ ys) (z ∷ zs) h k = ground (arith, text_le_trans xs ys zs)

pub text_order : IsOrder text_lt
text_order = record { asym = text_lt_asym; trans = text_le_trans }
