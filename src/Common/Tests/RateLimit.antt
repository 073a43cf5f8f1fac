-- ===== src/Common/Tests/RateLimit.antt =====
-- The key of a client behind two proxies.
use ume_pms_v2_backend.Prelude.{◌≡◌, refl, none, some, [], ◌∷◌, ◌++◌, Text, codes, trim, trim_start}
use ume_pms_v2_backend.Common.RateLimit.{
  missing, one, ProxyAwareRequest, join, joined, split_commas, chain_of, client_ip, user_tracker,
}
use ume_pms_v2_backend.Common.RateLimit.Forged.{client_ip-forged}

abbrev added : Text
added = codes " 203.0.113.7, 10.0.0.1"

abbrev request : Text → ProxyAwareRequest
request header = record {
  forwarded = one header;
  ip = some (codes "10.0.0.2");
  remote_address = none;
}

-- The second address from the end.
second_from_end : client_ip (request added) 2 ≡ codes "203.0.113.7"
unfolding client_ip joined join split_commas chain_of trim trim_start
second_from_end = refl

-- With an unknown number of proxies the whole chain is the key.
whole_chain : client_ip (request added) 0 ≡ codes "203.0.113.7|10.0.0.1"
unfolding client_ip joined join split_commas chain_of trim trim_start
whole_chain = refl

no_header :
    client_ip (record { forwarded = missing; ip = some []; remote_address = none }) 2
    ≡ codes "unknown"
unfolding client_ip joined join split_commas chain_of trim trim_start
no_header = refl

by_user : user_tracker (some (codes "u7")) (request added) 2 ≡ codes "u:u7"
unfolding user_tracker
by_user = refl

client_ip-forged_example :
    client_ip
      (record {
        forwarded = one (codes "1.2.3.4" ++ (44 ∷ added));
        ip = none;
        remote_address = none;
      })
      2
    ≡ client_ip (record { forwarded = one added; ip = none; remote_address = none }) 2
unfolding chain_of split_commas trim trim_start
client_ip-forged_example = client_ip-forged (codes "1.2.3.4") added 1 none none refl
