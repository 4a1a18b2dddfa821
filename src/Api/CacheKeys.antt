-- ===== src/Api/CacheKeys.antt =====
-- app/api/v1/endpoints.py, _ask_cache_key: the key of the response cache of GET /ask.
use agentic_enterprise.Base.{◌≡◌, refl, ◌≢◌, [], ◌∷◌, ◌++◌, All, Text, codes}
use agentic_enterprise.Api.Queries.{ask_cache_key}

append-cancel : (p s t : Text) → p ++ s ≡ p ++ t → s ≡ t
append-cancel [] s t e = e
append-cancel (c ∷ p) s t e = append-cancel p s t cc

-- Two texts without a colon, each followed by one: the first colon is the same.
split_at_colon :
    (u v q r : Text)
    → All (λ c. c ≢ b':') u
    → All (λ c. c ≢ b':') v
    → u ++ b':' ∷ q ≡ v ++ b':' ∷ r
    → (u ≡ v) × (q ≡ r)
split_at_colon [] [] q r hu hv e = (refl, cc)
split_at_colon [] (d ∷ v) q r hu hv e = absurd (hv.0 cc)
split_at_colon (c ∷ u) [] q r hu hv e = absurd (hu.0 cc)
split_at_colon (c ∷ u) (d ∷ v) q r hu hv e =
    let (us, qs) = split_at_colon u v q r hu.1 hv.1 cc in (cc, qs)

-- Two requests share an entry of the cache only if they have the same user and the same question, when
-- no username has a colon in it.
pub ask_cache_key-injective :
    (namespace u v q r : Text)
    → All (λ c. c ≢ b':') u
    → All (λ c. c ≢ b':') v
    → ask_cache_key namespace u q ≡ ask_cache_key namespace v r
    → (u ≡ v) × (q ≡ r)
unfolding ask_cache_key
ask_cache_key-injective namespace u v q r hu hv e = split_at_colon u v q r hu hv (
    append-cancel (codes ":ask:") (u ++ b':' ∷ q) (v ++ b':' ∷ r) (
      append-cancel namespace (codes ":ask:" ++ (u ++ b':' ∷ q)) (codes ":ask:" ++ (v ++ b':' ∷ r))
        e))
