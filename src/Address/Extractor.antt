-- ===== src/Address/Extractor.antt =====
-- IPExtractor of middleware/base/extractor.go and of middleware/helper/ip.go. Package net is an
-- argument; so are the functions of package strings that split and trim.
use open_source.Common.{
  ℕ, zero, suc, Bool, true, false, List, [], ◌∷◌, Option, none, some, if◌then◌else◌, ◌&&◌, ◌||◌,
  not, is_some, Text, codes, is_empty,
}
use open_source.Common.Int.{ℤ, pos, ltb_ℤ}

-- Packages net and strings, as far as the extractors call them. `parse_ip` gives the address that
-- net.ParseIP reads, `parse_cidr` the network that net.ParseCIDR reads.
pub record Net : Type 1 where
  pub Ip : Type 0
  pub Network : Type 0
  pub parse_ip : Text → Option Ip
  pub parse_cidr : Text → Option Network
  pub covers : Network → Ip → Bool  -- IPNet.Contains
  pub split_host_port : Text → Text  -- the host, or "" on an error
  pub is_v4 : Ip → Bool  -- To4() != nil
  pub show : Ip → Text
  pub show_subnet : Ip → ℤ → Text  -- the network of a prefix length that the address is in
  pub split_comma : Text → List Text
  pub trim_space : Text → Text

-- What the extractors read of a request. A header that is not there is "".
pub record Request : Type 0 where
  pub remote_addr : Text
  pub header : Text → Text

pub data IpExtractorStrategy : Type 0 where
  direct trusted_proxy cloudflare aws : IpExtractorStrategy

module _ (net : Net) where
  open net use {
    Network, parse_ip, parse_cidr, covers, split_host_port, is_v4, show, show_subnet, split_comma,
    trim_space,
  }

  -- The fields that both extractors have beside their strategy.
  pub record Trusting : Type 0 where
    pub trusted_nets : List Network
    pub trusted_header : Text

  -- The loop of both constructors: `none` is the error of the first network that does not parse.
  unfoldable pub parse_nets : List Text → Option (List Network)
  parse_nets [] = some []
  parse_nets (cidr ∷ cidrs) = elim (parse_cidr cidr) [
    | none ↦ none
    | some n ↦ elim (parse_nets cidrs) [ none ↦ none | some ns ↦ some (n ∷ ns) ]
  ]

  unfoldable pub new_ip_extractor : List Text → Text → Option Trusting
  unfolding parse_nets
  new_ip_extractor trusted_proxies custom_header = elim (parse_nets trusted_proxies) [
    | none ↦ none
    | some ns ↦ some (record { trusted_nets = ns; trusted_header = custom_header })
  ]

  unfoldable pub in_networks : net.Ip → List Network → Bool
  in_networks ip [] = false
  in_networks ip (n ∷ ns) = covers n ip || in_networks ip ns

  unfoldable pub is_trusted : Trusting → Text → Bool
  unfolding in_networks
  is_trusted e ip = elim (parse_ip ip) [
    | none ↦ false
    | some parsed ↦ in_networks parsed e.trusted_nets
  ]

  unfoldable pub remote_ip : Request → Text
  remote_ip r =
      let host = split_host_port r.remote_addr in if is_empty host then r.remote_addr else host

  -- The loop over the list from its end: `ips` is what is left of it, the last one first, and `last`
  -- says that none has been passed.
  unfoldable pub from_the_right : Trusting → Bool → List Text → Option Text
  unfolding is_trusted
  from_the_right e last [] = none
  from_the_right e last (item ∷ ips) =
      let ip = trim_space item in
      let rest = from_the_right e false ips in
      if is_some (parse_ip ip) && (last || is_trusted e ip) then some ip else rest

  unfoldable pub reverse_onto : List Text → List Text → List Text
  reverse_onto acc [] = acc
  reverse_onto acc (x ∷ xs) = reverse_onto (x ∷ acc) xs

  -- The case of the Cloudflare strategy.
  unfoldable pub extract_cloudflare : Request → Text
  unfolding remote_ip
  extract_cloudflare r =
      let cf_ip = r.header (codes "CF-Connecting-IP") in
      if not (is_empty cf_ip) && is_some (parse_ip cf_ip) then cf_ip else remote_ip r

  -- The case of the strategies that trust a proxy.
  unfoldable pub extract_forwarded : Trusting → Request → Text
  unfolding is_trusted remote_ip from_the_right reverse_onto
  extract_forwarded e r =
      let header =
        if is_empty e.trusted_header then codes "X-Forwarded-For" else e.trusted_header in
      let xff = r.header header in
      if not (is_trusted e (remote_ip r)) || is_empty xff
      then remote_ip r
      else elim (from_the_right e true (reverse_onto [] (split_comma xff))) [
        | none ↦ remote_ip r
        | some ip ↦ ip
      ]

  -- `Extract` of middleware/base/extractor.go
  unfoldable pub extract : IpExtractorStrategy → Trusting → Request → Text
  unfolding remote_ip extract_cloudflare extract_forwarded
  extract direct e r = remote_ip r
  extract cloudflare e r = extract_cloudflare r
  extract trusted_proxy e r = extract_forwarded e r
  extract aws e r = extract_forwarded e r

  -- `Extract` of middleware/helper/ip.go, which has numbers for the strategies
  unfoldable pub extract_by_number : ℕ → Trusting → Request → Text
  unfolding remote_ip extract_cloudflare extract_forwarded
  extract_by_number zero e r = remote_ip r
  extract_by_number (suc zero) e r = extract_cloudflare r
  extract_by_number (suc (suc zero)) e r = extract_forwarded e r
  extract_by_number (suc (suc (suc zero))) e r = extract_forwarded e r
  extract_by_number _ e r = remote_ip r

  -- `NormalizeIP`, which both packages have
  unfoldable pub normalize_ip : Text → Bool → ℤ → Text
  normalize_ip ip enable_ipv6_subnet subnet_size = elim (parse_ip ip) [
    | none ↦ ip
    | some parsed ↦
        let size =
          if ltb_ℤ subnet_size (pos 48) || ltb_ℤ (pos 128) subnet_size
          then pos 56
          else subnet_size in
        if enable_ipv6_subnet && not (is_v4 parsed) then show_subnet parsed size else show parsed
  ]

-- `int(strategy)`: the constants are numbered in their order.
unfoldable pub int_of_strategy : IpExtractorStrategy → ℕ
int_of_strategy direct = 0
int_of_strategy trusted_proxy = 1
int_of_strategy cloudflare = 2
int_of_strategy aws = 3
