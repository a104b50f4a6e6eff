-- ===== src/Protocol/Domains.antt =====
-- NormalizeRouteDomains of internal/protocol/validation.go, and the lists of capabilities that
-- normalizeExecutionTargetCapabilities handles in the same way.
pub mod Loop
pub mod Canonical
use tmuxicate.Prelude.{
  ℕ, zero, suc, ◌≡◌, Bool, true, false, ◌&&◌, ◌||◌, List, [], ◌∷◌, ◌++◌, map, leb, ◌==◌,
  if◌then◌else◌, is_nil, all, Result, ok, err, at, ◌>>=◌,
}
use tmuxicate.Prelude.Sorting.{sort}
use tmuxicate.Text.{Text, text_eq, text_lt, trim_space, to_lower_rune}

-- `_, ok := seen[value]`
unfoldable pub seen_has : List Text → Text → Bool
seen_has [] value = false
seen_has (s ∷ seen) value = text_eq s value || seen_has seen value

-- strings.ToLower(strings.TrimSpace(domain))
unfoldable pub domain_value : Text → Text
domain_value domain = map to_lower_rune (trim_space domain)

-- The characters that the inner loop lets pass.
unfoldable pub is_domain_char : ℕ → Bool
is_domain_char r =
    (leb b'a' r && leb r b'z') || (leb b'0' r && leb r b'9') || r == b'-' || r == b'_'

-- The outer loop, from index `i` on.
unfoldable pub normalize_from : ℕ → List Text → List Text → List Text → Result (List Text)
unfolding seen_has domain_value is_domain_char
normalize_from i [] seen normalized = ok normalized
normalize_from i (domain ∷ domains) seen normalized =
    let value = domain_value domain in
    let rest =
      normalize_from (suc i) domains (if seen_has seen value then seen else value ∷ seen)
        (if seen_has seen value then normalized else normalized ++ value ∷ []) in
    if is_nil value
    then err (at "domains[" i "] must not be blank")
    else if all is_domain_char value
    then rest
    else err
        (at "domains[" i "] must contain only lowercase letters, digits, hyphen, or underscore")

-- slices.Sort on the distinct values; an empty list comes back as `nil`.
unfoldable pub normalize_route_domains : List Text → Result (List Text)
unfolding normalize_from
normalize_route_domains domains = do
  normalized ← normalize_from 0 domains [] []
  ok (sort text_lt normalized)

-- The loop of normalizeExecutionTargetCapabilities: values are trimmed and not lowered.
unfoldable pub capabilities_from : ℕ → List Text → List Text → List Text → Result (List Text)
unfolding seen_has
capabilities_from i [] seen normalized = ok normalized
capabilities_from i (value ∷ values) seen normalized =
    let trimmed = trim_space value in
    let rest =
      capabilities_from (suc i) values (if seen_has seen trimmed then seen else trimmed ∷ seen)
        (if seen_has seen trimmed then normalized else normalized ++ trimmed ∷ []) in
    if is_nil trimmed then err (at "capabilities[" i "] must not be blank") else rest

unfoldable pub normalize_execution_target_capabilities : List Text → Result (List Text)
unfolding capabilities_from
normalize_execution_target_capabilities values = do
  normalized ← capabilities_from 0 values [] []
  ok (sort text_lt normalized)
