-- ===== src/Common/RateLimit.antt =====
-- The key under which requests are counted (`clientIp` and `userTracker` of src/common/rate-limit.ts).
pub mod Forged
use ume_pms_v2_backend.Prelude.{
  ℕ, zero, suc, ◌-◌, Bool, true, false, not, ◌&&◌, Option, none, some, List, [], ◌∷◌, ◌++◌, map,
  Text, codes, trim, ltb, leb, if◌then◌else◌, ◌==◌, keep, length,
}

-- The header `x-forwarded-for`.
pub data Forwarded : Type 0 where
  missing : Forwarded
  one : Text → Forwarded
  many : List Text → Forwarded

pub record ProxyAwareRequest : Type 0 where
  pub forwarded : Forwarded
  pub ip : Option Text
  pub remote_address : Option Text

-- `words.join(sep)`
unfoldable pub join : ℕ → List Text → Text
join sep [] = []
join sep (w ∷ []) = w
join sep (w ∷ v ∷ words) = w ++ (sep ∷ join sep (v ∷ words))

unfoldable pub joined : Forwarded → Text
joined missing = []
joined (one s) = s
joined (many words) = join 44 words

abbrev pub put_char : ℕ → List Text → List Text
put_char c [] = (c ∷ []) ∷ []
put_char c (w ∷ words) = (c ∷ w) ∷ words

-- `s.split(',')`
unfoldable pub split_commas : Text → List Text
split_commas [] = [] ∷ []
split_commas (c ∷ s) = let rest = split_commas s in if c == 44 then [] ∷ rest else put_char c rest

abbrev pub is_filled : Text → Bool
is_filled [] = false
is_filled (c ∷ s) = true

unfoldable pub chain_of : Text → List Text
chain_of s = keep is_filled (map trim (split_commas s))

-- `chain[i]`
abbrev pub at_index : ℕ → List Text → Text
at_index i [] = []
at_index zero (w ∷ words) = w
at_index (suc i) (w ∷ words) = at_index i words

-- `a || b || 'unknown'`
abbrev or_unknown : Option Text → Text
or_unknown (some (c ∷ s)) = c ∷ s
or_unknown _ = codes "unknown"

abbrev peer : Option Text → Option Text → Text
peer (some (c ∷ s)) remote = c ∷ s
peer _ remote = or_unknown remote

unfoldable pub client_ip : ProxyAwareRequest → ℕ → Text
client_ip req trusted_hops =
    let chain = chain_of (joined req.forwarded) in
    if length chain == 0
    then peer req.ip req.remote_address
    else (if ltb 0 trusted_hops && leb trusted_hops (length chain)
        then at_index (length chain - trusted_hops) chain
        else join 124 chain)

-- `u:` and the identifier, where there is one
unfoldable pub user_tracker : Option Text → ProxyAwareRequest → ℕ → Text
user_tracker (some (c ∷ id)) req trusted_hops = codes "u:" ++ (c ∷ id)
user_tracker _ req trusted_hops = client_ip req trusted_hops
