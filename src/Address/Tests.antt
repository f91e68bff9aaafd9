-- ===== src/Address/Tests.antt =====
-- Runs of the extractors of middleware/base/extractor.go and middleware/helper/ip.go, over a package
-- net in which an address is a text without commas and a network one address.
use open_source.Common.{
  ◌≡◌, refl, true, false, List, [], ◌∷◌, none, some, arith, if◌then◌else◌, ◌==◌, Text, codes,
  text_eq, is_empty,
}
use open_source.Address.Extractor.{
  Net, Request, direct, trusted_proxy, cloudflare, aws, Trusting, remote_ip, extract,
  extract_by_number, int_of_strategy, is_trusted,
}
use open_source.Address.Trust.{extract-untrusted, extract_by_number-swapped}

abbrev split_at_comma : Text → List Text
split_at_comma [] = [] ∷ []
split_at_comma (c ∷ s) = elim (split_at_comma s) [
  | [] ↦ []
  | first ∷ rest ↦ if c == b',' then [] ∷ first ∷ rest else (c ∷ first) ∷ rest
]

abbrev plain_net : Net
plain_net = record {
  Ip = Text;
  Network = Text;
  parse_ip = λ s. if is_empty s then none else some s;
  parse_cidr = λ s. some s;
  covers = λ n ip. text_eq n ip;
  split_host_port = λ s. s;
  is_v4 = λ ip. true;
  show = λ ip. ip;
  show_subnet = λ ip n. ip;
  split_comma = split_at_comma;
  trim_space = λ s. s;
}

abbrev proxied : Request
proxied = record {
  remote_addr = codes "proxy";
  header = λ h. if text_eq h (codes "X-Forwarded-For") then codes "client,edge" else codes "forged";
}

abbrev trusting : Trusting plain_net
trusting = record { trusted_nets = codes "proxy" ∷ []; trusted_header = [] }

abbrev trusting_none : Trusting plain_net
trusting_none = record { trusted_nets = []; trusted_header = [] }

test_forwarded : extract plain_net trusted_proxy trusting proxied ≡ codes "edge"
unfolding extract text_eq
test_forwarded = refl

test_numbered :
    extract_by_number plain_net (int_of_strategy trusted_proxy) trusting proxied ≡ codes "forged"
unfolding extract_by_number int_of_strategy text_eq
test_numbered = refl

proxy_untrusted : is_trusted plain_net trusting_none (remote_ip plain_net proxied) ≡ false
unfolding is_trusted remote_ip
proxy_untrusted = refl

extract-untrusted_example :
    extract plain_net trusted_proxy trusting_none proxied ≡ remote_ip plain_net proxied
extract-untrusted_example =
    extract-untrusted plain_net trusted_proxy trusting_none proxied (λ e. ground arith)
      proxy_untrusted

extract_by_number-swapped_example :
    extract_by_number plain_net (int_of_strategy cloudflare) trusting proxied
    ≡ extract plain_net
        (elim cloudflare [
          | direct ↦ direct
          | trusted_proxy ↦ cloudflare
          | cloudflare ↦ trusted_proxy
          | aws ↦ aws
        ])
        trusting
        proxied
extract_by_number-swapped_example = extract_by_number-swapped plain_net trusting proxied cloudflare
