-- ===== src/Samples/Documents.antt =====
-- The theorems on identifiers, domains and blocker cases at concrete documents.
use tmuxicate.Prelude.{
  ◌≡◌, refl, List, [], ◌∷◌, ok, ltb, not, ◌&&◌, all, is_ok, is_nil, ◌↔◌, ◌^◌, map,
}
use mathlib.Core.List.{Memᴰ}
use tmuxicate.Prelude.Int.{pos}
use tmuxicate.Prelude.Sorting.{sort, insert}
use tmuxicate.Text.{Text, codes, trim_space, to_lower_rune, text_eq, text_lt}
use tmuxicate.Protocol.Ids.{
  new_message_id, new_thread_id, new_run_id, new_task_id, is_generated_run_id, is_generated_task_id,
  is_generated_message_id, generated_id_iff, generated_id-injective,
}
use tmuxicate.Protocol.Domains.{
  seen_has, domain_value, is_domain_char, normalize_route_domains, normalize_from,
}
use tmuxicate.Protocol.Domains.Canonical.{
  IsCanonical, normalize-IsCanonical, normalize_of_IsCanonical, normalize-is_ok,
}

generated_id_iff_example :
    (is_generated_run_id (new_run_id (pos 42)) ≡ ltb 42 (10 ^ 12))
    × (is_generated_task_id (new_task_id (pos 42)) ≡ ltb 42 (10 ^ 12))
    × (is_generated_message_id (new_message_id (pos 42)) ≡ ltb 42 (10 ^ 12))
generated_id_iff_example = generated_id_iff 42

generated_id-injective_example :
    ((new_message_id (pos 7) ≡ new_message_id (pos 8)) ↔ (pos 7 ≡ pos 8))
    × ((new_thread_id (pos 7) ≡ new_thread_id (pos 8)) ↔ (pos 7 ≡ pos 8))
    × ((new_run_id (pos 7) ≡ new_run_id (pos 8)) ↔ (pos 7 ≡ pos 8))
    × ((new_task_id (pos 7) ≡ new_task_id (pos 8)) ↔ (pos 7 ≡ pos 8))
generated_id-injective_example = generated_id-injective (pos 7) (pos 8)

abbrev written : List Text
written = codes " UI " ∷ codes "api" ∷ codes "ui" ∷ []

abbrev canonical : List Text
canonical = codes "api" ∷ codes "ui" ∷ []

written-canonical : normalize_route_domains written ≡ ok canonical
unfolding normalize_route_domains trim_space to_lower_rune sort text_eq text_lt insert seen_has
    domain_value is_domain_char normalize_from
written-canonical = refl

normalize-IsCanonical_example :
    IsCanonical canonical × ((v : Text) → Memᴰ v canonical ↔ Memᴰ v (map domain_value written))
normalize-IsCanonical_example = normalize-IsCanonical written written-canonical

canonical-IsCanonical : IsCanonical canonical
canonical-IsCanonical = (normalize-IsCanonical written written-canonical).0

normalize_of_IsCanonical_example : normalize_route_domains canonical ≡ ok canonical
normalize_of_IsCanonical_example = normalize_of_IsCanonical canonical canonical-IsCanonical

normalize-is_ok_example :
    is_ok (normalize_route_domains written)
    ≡ all (λ d. not (is_nil (domain_value d)) && all is_domain_char (domain_value d)) written
normalize-is_ok_example = normalize-is_ok written
