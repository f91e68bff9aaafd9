-- ===== src/Sdk/Tests.antt =====
-- Runs of the Go client of middleware/sdk/go, against a check endpoint over a backend that counts.
use open_source.Common.{◌≡◌, refl, false, some, codes}
use open_source.Sdk.{
  Client, Hosts, Incoming, served, Transport, unreachable, get_client_ip, middleware,
}

abbrev shop : Client
shop = record { base_url = codes "http://limiter"; api_key = codes "k"; service_id = codes "shop" }

abbrev plain_hosts : Hosts
plain_hosts = record { split_host_port = λ s. some s; trim_space = λ s. s }

abbrev browser : Incoming
browser = record {
  path = codes "/cart";
  user_agent = codes "Mozilla/5.0";
  accept = codes "text/html";
  forwarded_for = codes "10.0.0.7,10.0.0.1";
  real_ip = codes "";
  remote_addr = codes "10.0.0.1";
}

first_address : get_client_ip plain_hosts browser ≡ codes "10.0.0.7"
unfolding get_client_ip
first_address = refl

abbrev no_server : Transport
no_server = record { State = Unit; post = λ url key req s. (s, unreachable) }

fails_open : (middleware no_server plain_hosts shop browser tt).1 ≡ served false
unfolding middleware
fails_open = refl
