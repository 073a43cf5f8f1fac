-- ===== src/Common/RateLimit/Forged.antt =====
-- What a client writes into the header does not change its key.
use ume_pms_v2_backend.Prelude.{
  ℕ, suc, ◌+◌, ◌-◌, ◌≡◌, refl, true, false, ◌&&◌, Option, List, [], ◌∷◌, ◌++◌, map, Text, trim, ltb,
  leb, ◌==◌, keep, length, length-append, Bool-cases, inl, inr, arith, sym, ◌∙◌, ap,
}
use ume_pms_v2_backend.Common.RateLimit.{
  one, ProxyAwareRequest, joined, split_commas, is_filled, chain_of, at_index, client_ip,
}

split_commas-head : (s : Text) → (w : Text) × (words : List Text) × (split_commas s ≡ w ∷ words)
unfolding split_commas
split_commas-head [] = ([], [], refl)
split_commas-head (c ∷ s) = elim (Bool-cases (c == 44)) [
  | inl e ↦ ([], split_commas s, rw e refl)
  | inr e ↦ let (w, words, h) = split_commas-head s in (c ∷ w, words, rw (e, h) refl)
]

split_commas-append : (s t : Text) → split_commas (s ++ (44 ∷ t)) ≡ split_commas s ++ split_commas t
unfolding split_commas
split_commas-append [] t = refl
split_commas-append (c ∷ s) t = elim (Bool-cases (c == 44)) [
  | inl e ↦ rw (e, split_commas-append s t) refl
  | inr e ↦ let (w, words, h) = split_commas-head s in rw (e, split_commas-append s t, h) refl
]

filled-append :
    (xs ys : List Text)
    → keep is_filled (map trim (xs ++ ys))
      ≡ keep is_filled (map trim xs) ++ keep is_filled (map trim ys)
filled-append [] ys = refl
filled-append (x ∷ xs) ys = elim (Bool-cases (is_filled (trim x))) [
  | inl e ↦ rw (e, filled-append xs ys) refl
  | inr e ↦ rw (e, filled-append xs ys) refl
]

chain_of-append : (s t : Text) → chain_of (s ++ (44 ∷ t)) ≡ chain_of s ++ chain_of t
unfolding chain_of
chain_of-append s t = rw (split_commas-append s t) (filled-append (split_commas s) (split_commas t))

at_index-append : (xs ys : List Text) (i : ℕ) → at_index (length xs + i) (xs ++ ys) ≡ at_index i ys
at_index-append [] ys i = let e : 0 + i ≡ i = omega arith in ap (λ k. at_index k ys) e
at_index-append (x ∷ xs) ys i =
    let e : suc (length xs) + i ≡ suc (length xs + i) = omega arith in
    ap (λ k. at_index k (x ∷ (xs ++ ys))) e ∙ at_index-append xs ys i

-- The key of a chain that is long enough.
from_the_end :
    (req : ProxyAwareRequest) (k : ℕ) (front back : List Text)
    → chain_of (joined req.forwarded) ≡ front ++ back
    → length back ≡ suc k
    → client_ip req (suc k) ≡ at_index 0 back
unfolding client_ip
from_the_end req k front back e h =
    let total : length (front ++ back) ≡ length front + suc k =
      length-append front back ∙ ap (λ n. length front + n) h in
    let filled : (length front + suc k == 0) ≡ false = ground arith in
    let known : (ltb 0 (suc k) && leb (suc k) (length front + suc k)) ≡ true = ground arith in
    let at : length front + suc k - suc k ≡ length front + 0 = omega arith in
    rw (e, total, filled, known, at) (at_index-append front back 0)

-- Behind a known number of trusted proxies, each of which has added the address that it saw, the key of
-- a request is that of the addresses which they added, whatever the client had put into the header
-- before: a forged address changes nothing.
pub client_ip-forged :
    (forged added : Text) (k : ℕ) (ip remote : Option Text)
    → length (chain_of added) ≡ suc k
    → client_ip
        (record { forwarded = one (forged ++ (44 ∷ added)); ip = ip; remote_address = remote })
        (suc k)
      ≡ client_ip (record { forwarded = one added; ip = ip; remote_address = remote }) (suc k)
unfolding joined
client_ip-forged forged added k ip remote h =
    from_the_end _ k (chain_of forged) (chain_of added) (chain_of-append forged added) h
    ∙ sym (from_the_end _ k [] (chain_of added) refl h)
