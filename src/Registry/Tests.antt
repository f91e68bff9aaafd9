-- ===== src/Registry/Tests.antt =====
-- Runs of the registry of middleware/storage/file/registry.go, over a file that holds the APIs
-- themselves, and the theorems on them.
use open_source.Common.{
  ◌≡◌, inl, refl, true, false, List, [], ◌∷◌, none, some, arith, Text, codes, text_eq, has_prefix,
  strip_prefix, lookup, Keyed,
}
use open_source.Common.Int.{pos, ◌≤ℤ◌}
use open_source.Common.GoTime.{Time}
use open_source.Common.Float.{whole}
use open_source.Registry.Api.{
  RateLimits, Endpoint, ApiRegistration, ApiUpdateRequest, ApiFilter, CompiledRule,
}
use open_source.Registry.Store.{
  returned, failed, blocked_forever, cannot_write, Faults, Json, FileRegistry, new_file_registry,
  load, reload_rules, save_locked, finish_change,
}
use open_source.Registry.Apis.{with_defaults, register_api, update_api, delete_api}
use open_source.Registry.Rules.{get_compiled_rule, matches_pattern, matches_endpoint, relative_path}
use open_source.Registry.Durable.{no_faults, load-save_locked}
use open_source.Registry.Undo.{AllOrNothing, register_api-AllOrNothing}
use open_source.Registry.Changes.{Sound}
use open_source.Registry.Calls.{
  Call, registers, deletes, loads, receives, closes, perform_all, perform_all-Sound,
}
use open_source.Registry.Choice.{Offers, Offered, get_compiled_rule-highest}
use open_source.Registry.Matching.{plain, reload_rules-blocks}

-- January 2 of 2026, 00:00 UTC.
abbrev noon : Time
noon = 63902908800000000000

abbrev direct_json : Json whole
direct_json = record {
  Data = List (ApiRegistration whole);
  marshal = λ apis. apis;
  unmarshal = λ apis. some apis;
}

abbrev some_limits : RateLimits whole
some_limits = record {
  requests_per_second = pos 10;
  burst_size = pos 20;
  window_size = pos 1000000000;
  block_duration = pos 60000000000;
  use_sliding_window = true;
}

abbrev charge : Endpoint whole
charge = record {
  id = codes "charge";
  path = codes "/charge";
  method = codes "POST";
  url_pattern = [];
  limits = some_limits;
  priority = pos 100;
  enabled = true;
}

abbrev payments : ApiRegistration whole
payments = record {
  id = codes "pay";
  service_id = [];
  name = codes "Payments";
  description = [];
  upstream_url = codes "http://pay";
  base_path = codes "/pay";
  endpoints = charge ∷ [];
  default_limits = some_limits;
  created_at = noon;
  updated_at = noon;
  created_by = [];
  status = codes "active";
  tags = none;
  metadata = none;
}

abbrev empty_registry : FileRegistry whole direct_json
empty_registry = record { apis = []; changes = []; closed = false; held = false; file = none }

abbrev one_registry : FileRegistry whole direct_json
one_registry = record empty_registry { apis = (codes "pay", payments) ∷ [] }

abbrev no_space : Faults
no_space = record no_faults { write_fails = true }

one-Keyed : Keyed one_registry.apis
unfolding lookup
one-Keyed = (refl, tt)

one_found : lookup (codes "pay") one_registry.apis ≡ some payments
unfolding lookup text_eq
one_found = refl

one_saved : (save_locked whole direct_json no_faults one_registry).1 ≡ none
unfolding save_locked
one_saved = refl

load-save_locked_example :
    let (g, answer) = load whole direct_json no_faults (
      new_file_registry whole direct_json
        (save_locked whole direct_json no_faults one_registry).0.file) in
    (answer ≡ returned tt) × ((k : Text) → lookup k g.apis ≡ lookup k one_registry.apis)
load-save_locked_example =
    load-save_locked whole direct_json no_faults one_registry (λ apis. refl) one-Keyed (refl, tt)
      one_saved

register_api-AllOrNothing_example :
    AllOrNothing whole direct_json
      (with_defaults whole noon payments)
      empty_registry
      (register_api whole direct_json no_faults noon payments empty_registry)
register_api-AllOrNothing_example =
    register_api-AllOrNothing whole direct_json no_faults noon payments empty_registry refl tt

abbrev rename_request : ApiUpdateRequest whole
rename_request = record {
  name = codes "Pay";
  description = [];
  upstream_url = [];
  base_path = [];
  default_limits = none;
  status = [];
  tags = none;
  metadata = none;
}

update_fails :
    (update_api whole direct_json no_space noon noon (codes "pay") rename_request one_registry).1
    ≡ failed cannot_write
unfolding update_api lookup text_eq save_locked finish_change
update_fails = refl

delete_fails :
    (delete_api whole direct_json no_space noon (codes "pay") one_registry).1 ≡ failed cannot_write
unfolding delete_api lookup text_eq save_locked finish_change
delete_fails = refl

abbrev some_calls : List (Call whole)
some_calls =
    registers no_space noon payments
    ∷ registers no_faults noon payments
    ∷ receives
    ∷ loads no_faults
    ∷ deletes no_faults noon (codes "pay")
    ∷ closes
    ∷ []

empty-Sound : Sound whole direct_json empty_registry
empty-Sound = record { keyed = tt; own = tt; few = ground arith }

perform_all-Sound_example :
    Sound whole direct_json (perform_all whole direct_json some_calls empty_registry)
perform_all-Sound_example =
    perform_all-Sound whole direct_json some_calls empty_registry empty-Sound

abbrev the_path : Text
the_path = codes "/pay/charge"

charge-Offers : Offers whole the_path payments charge
unfolding text_eq has_prefix matches_endpoint relative_path strip_prefix
charge-Offers = record { active = refl; below = refl; enabled = refl; matches = refl }

get_compiled_rule-highest_example :
    (rule : CompiledRule whole) × (get_compiled_rule whole the_path one_registry ≡ some rule)
    × Offered whole the_path one_registry.apis rule
    × (pos 100 ≤ℤ rule.priority)
get_compiled_rule-highest_example =
    get_compiled_rule-highest whole the_path (codes "pay") payments charge one_registry (inl refl)
      (inl refl) charge-Offers

abbrev charge_rule : CompiledRule whole
charge_rule = record {
  api_id = codes "pay";
  endpoint_id = codes "charge";
  service_id = [];
  path = the_path;
  method = codes "POST";
  requests_per_second = pos 10;
  burst_size = pos 20;
  window_size = pos 1000000000;
  block_duration = pos 60000000000;
  use_sliding_window = true;
  priority = pos 100;
  enabled = true;
  upstream_url = codes "http://pay";
}

charge_chosen : get_compiled_rule whole the_path one_registry ≡ some charge_rule
unfolding get_compiled_rule text_eq has_prefix strip_prefix
charge_chosen = refl

test_glob : matches_pattern (codes "/pay/charge") (codes "/p?y/*") ≡ true
unfolding matches_pattern
test_glob = refl

charge_plain : plain (codes "/charge") ≡ true
unfolding plain
charge_plain = refl

abbrev second_page : ApiFilter whole
second_page = record {
  service_id = [];
  status = [];
  tags = [];
  search = [];
  limit = pos 1;
  offset = pos 1;
}

reload_rules-blocks_example :
    (reload_rules whole direct_json no_faults one_registry).1 ≡ blocked_forever
reload_rules-blocks_example = reload_rules-blocks whole direct_json no_faults one_registry
