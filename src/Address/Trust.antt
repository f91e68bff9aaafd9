-- ===== src/Address/Trust.antt =====
-- Whose word the extractors of middleware/base/extractor.go and middleware/helper/ip.go take.
use open_source.Common.{◌≡◌, ◌≢◌, refl, false}
use open_source.Address.Extractor.{
  Net, Request, IpExtractorStrategy, direct, trusted_proxy, cloudflare, aws, Trusting, is_trusted,
  remote_ip, extract_forwarded, extract, extract_by_number, int_of_strategy,
}

module _ (net : Net) where
  extract_forwarded-untrusted :
      (e : Trusting net) (r : Request)
      → is_trusted net e (remote_ip net r) ≡ false
      → extract_forwarded net e r ≡ remote_ip net r
  unfolding extract_forwarded
  extract_forwarded-untrusted e r h = rw (h, extract_forwarded) refl

  -- A request from a peer that is in no trusted network cannot choose its address with a header: with
  -- every strategy but Cloudflare's, the extractor of package base answers the address of the peer.
  pub extract-untrusted :
      (strategy : IpExtractorStrategy) (e : Trusting net) (r : Request)
      → strategy ≢ cloudflare
      → is_trusted net e (remote_ip net r) ≡ false
      → extract net strategy e r ≡ remote_ip net r
  unfolding extract
  extract-untrusted direct e r n h = refl
  extract-untrusted cloudflare e r n h = absurd (n refl)
  extract-untrusted trusted_proxy e r n h = extract_forwarded-untrusted e r h
  extract-untrusted aws e r n h = extract_forwarded-untrusted e r h

  -- Called with the number of a strategy of package base, the extractor of package helper treats the
  -- Cloudflare strategy as that of a trusted proxy, and that of a trusted proxy as Cloudflare's; the
  -- two others are the same in both.
  pub extract_by_number-swapped :
      (e : Trusting net) (r : Request) (strategy : IpExtractorStrategy)
      → extract_by_number net (int_of_strategy strategy) e r
        ≡ extract net
            (elim strategy [
              | direct ↦ direct
              | trusted_proxy ↦ cloudflare
              | cloudflare ↦ trusted_proxy
              | aws ↦ aws
            ])
            e
            r
  unfolding extract_by_number extract int_of_strategy
  extract_by_number-swapped e r direct = refl
  extract_by_number-swapped e r trusted_proxy = refl
  extract_by_number-swapped e r cloudflare = refl
  extract_by_number-swapped e r aws = refl
