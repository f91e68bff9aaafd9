-- ===== src/Registry/Choice.antt =====
-- Which rule GetCompiledRule of middleware/storage/file/registry.go returns.
use open_source.Common.{
  ◌≡◌, refl, ap, sym, ◌⊎◌, inl, inr, Bool, true, false, List, [], ◌∷◌, ◌++◌, some, arith, ltb,
  if◌then◌else◌, ◌&&◌, length, Bool-cases, Text, codes, text_eq, has_prefix,
}
use mathlib.Core.Path.{subst}
use open_source.Common.Int.{ℤ, ◌≤ℤ◌, ltb_ℤ, leb_ℤ}
use open_source.Common.Float.{Float64}
use open_source.Registry.Api.{ApiRegistration, Endpoint, CompiledRule}
use open_source.Registry.Store.{Json, FileRegistry}
use open_source.Registry.Rules.{
  matches_endpoint, compile_rule, relative_path, rules_of_endpoints, matching_rules, highest,
  get_compiled_rule,
}

abbrev pub Among : {A : Type 0} → A → List A → Type 0
Among x [] = ⊥
Among x (y ∷ ys) = (y ≡ x) ⊎ Among x ys

Among-append : {A : Type 0} (x : A) (xs ys : List A) → Among x (xs ++ ys) → Among x xs ⊎ Among x ys
Among-append x [] ys h = inr h
Among-append x (y ∷ xs) ys (inl e) = inl (inl e)
Among-append x (y ∷ xs) ys (inr h) = elim (Among-append x xs ys h) [
  | inl l ↦ inl (inr l)
  | inr r ↦ inr r
]

append-left : {A : Type 0} (x : A) (xs ys : List A) → Among x xs → Among x (xs ++ ys)
append-left x [] ys h = absurd h
append-left x (y ∷ xs) ys (inl e) = inl e
append-left x (y ∷ xs) ys (inr h) = inr (append-left x xs ys h)

append-right : {A : Type 0} (x : A) (xs ys : List A) → Among x ys → Among x (xs ++ ys)
append-right x [] ys h = h
append-right x (y ∷ xs) ys h = inr (append-right x xs ys h)

Among-if :
    {A : Type 0} (b : Bool) (x y : A) (ys : List A)
    → Among x (if b then y ∷ ys else ys)
    → ((b ≡ true) × (y ≡ x)) ⊎ Among x ys
Among-if true x y ys (inl e) = inl (refl, e)
Among-if true x y ys (inr h) = inr h
Among-if false x y ys h = inr h

if-Among :
    {A : Type 0} (b : Bool) (x y : A) (ys : List A)
    → Among x ys
    → Among x (if b then y ∷ ys else ys)
if-Among true x y ys h = inr h
if-Among false x y ys h = h

in_rest :
    {A : Type 0} (b : Bool) (x : A) (xs ys : List A)
    → Among x ys
    → Among x (if b then xs ++ ys else ys)
in_rest true x xs ys h = append-right x xs ys h
in_rest false x xs ys h = h

one_of :
    {A : Type 0} (b : Bool) (x y : A) (ys : List A)
    → Among x ys
    → Among y ys
    → Among (if b then x else y) ys
one_of true x y ys h k = h
one_of false x y ys h k = k

past_second : {A : Type 0} (x y z : A) (ys : List A) → Among x (y ∷ ys) → Among x (y ∷ z ∷ ys)
past_second x y z ys (inl e) = inl e
past_second x y z ys (inr h) = inr (inr h)

-- Both parts of a test.
both : (a b : Bool) → (a && b) ≡ true → (a ≡ true) × (b ≡ true)
both a b h = ground arith

module _ (fl : Float64) where
  -- The endpoint is enabled, and it and its active API match the path.
  pub record Offers (path : Text) (api : ApiRegistration fl) (ep : Endpoint fl) : Type 0 where
    pub active : text_eq api.status (codes "active") ≡ true
    pub below : has_prefix path api.base_path ≡ true
    pub enabled : ep.enabled ≡ true
    pub matches : matches_endpoint fl (relative_path path api.base_path) ep ≡ true

  -- A rule that an endpoint of the APIs offers for the path.
  pub record Offered (path : Text) (apis : List (Text × ApiRegistration fl))
      (rule : CompiledRule fl) : Type 0 where
    pub id : Text
    pub api : ApiRegistration fl
    pub ep : Endpoint fl
    pub held : Among (id, api) apis
    pub listed : Among ep api.endpoints
    pub offers : Offers path api ep
    pub compiled : rule ≡ compile_rule fl path api ep

  -- What an enabled endpoint that matches makes of a path.
  record Listed (path : Text) (api : ApiRegistration fl) (eps : List (Endpoint fl))
      (rule : CompiledRule fl) : Type 0 where
    ep : Endpoint fl
    listed : Among ep eps
    enabled : ep.enabled ≡ true
    matches : matches_endpoint fl (relative_path path api.base_path) ep ≡ true
    compiled : rule ≡ compile_rule fl path api ep

  rules_of_endpoints-Listed :
      (path : Text) (api : ApiRegistration fl) (eps : List (Endpoint fl)) (rule : CompiledRule fl)
      → Among rule (rules_of_endpoints fl path api eps)
      → Listed path api eps rule
  unfolding rules_of_endpoints
  rules_of_endpoints-Listed path api [] rule h = absurd h
  rules_of_endpoints-Listed path api (ep ∷ eps) rule h =
      elim (Among-if _ rule (compile_rule fl path api ep) (rules_of_endpoints fl path api eps) h) [
        | inl (passed, same) ↦
            let (on, fits) = both _ _ passed in
            record { ep = ep; listed = inl refl; enabled = on; matches = fits; compiled = sym same }
        | inr later ↦
            let l = rules_of_endpoints-Listed path api eps rule later in
            record {
              ep = l.ep;
              listed = inr l.listed;
              enabled = l.enabled;
              matches = l.matches;
              compiled = l.compiled;
            }
      ]

  Listed-rules_of_endpoints :
      (path : Text) (api : ApiRegistration fl) (eps : List (Endpoint fl)) (ep : Endpoint fl)
      → Among ep eps
      → ep.enabled ≡ true
      → matches_endpoint fl (relative_path path api.base_path) ep ≡ true
      → Among (compile_rule fl path api ep) (rules_of_endpoints fl path api eps)
  unfolding rules_of_endpoints
  Listed-rules_of_endpoints path api [] ep h on fits = absurd h
  Listed-rules_of_endpoints path api (e ∷ eps) ep (inl same) on fits =
      rw same (rw on (rw fits (inl refl)))
  Listed-rules_of_endpoints path api (e ∷ eps) ep (inr h) on fits =
      if-Among _ _ (compile_rule fl path api e) (rules_of_endpoints fl path api eps)
        (Listed-rules_of_endpoints path api eps ep h on fits)

  Offered-later :
      (path : Text) (e : Text × ApiRegistration fl) (apis : List (Text × ApiRegistration fl))
      (rule : CompiledRule fl)
      → Offered path apis rule
      → Offered path (e ∷ apis) rule
  Offered-later path e apis rule o = record {
    id = o.id;
    api = o.api;
    ep = o.ep;
    held = inr o.held;
    listed = o.listed;
    offers = o.offers;
    compiled = o.compiled;
  }

  matching_rules-Offered :
      (path : Text) (apis : List (Text × ApiRegistration fl)) (rule : CompiledRule fl)
      → Among rule (matching_rules fl path apis)
      → Offered path apis rule
  unfolding matching_rules
  matching_rules-Offered path [] rule h = absurd h
  matching_rules-Offered path ((id, api) ∷ apis) rule h =
      elim (Bool-cases (text_eq api.status (codes "active") && has_prefix path api.base_path)) [
        | inr failed_test ↦
            Offered-later path (id, api) apis rule
              (matching_rules-Offered path apis rule (rw failed_test at h))
        | inl passed ↦
            elim (Among-append rule (rules_of_endpoints fl path api api.endpoints)
              (matching_rules fl path apis) (rw passed at h)) [
                | inr l ↦
                    Offered-later path (id, api) apis rule (matching_rules-Offered path apis rule l)
                | inl here ↦
                    let (active, below) = both _ _ passed in
                    let l = rules_of_endpoints-Listed path api api.endpoints rule here in
                    record {
                      id = id;
                      api = api;
                      ep = l.ep;
                      held = inl refl;
                      listed = l.listed;
                      offers = record {
                        active = active;
                        below = below;
                        enabled = l.enabled;
                        matches = l.matches;
                      };
                      compiled = l.compiled;
                    }
              ]
      ]

  Offered-matching_rules :
      (path id : Text) (api : ApiRegistration fl) (ep : Endpoint fl)
      (apis : List (Text × ApiRegistration fl))
      → Among (id, api) apis
      → Among ep api.endpoints
      → Offers path api ep
      → Among (compile_rule fl path api ep) (matching_rules fl path apis)
  unfolding matching_rules
  Offered-matching_rules path id api ep [] h l o = absurd h
  Offered-matching_rules path id api ep ((j, a) ∷ apis) (inl same) l o = rw (ap (λ e. e.1) same) (
      rw o.active (
        rw o.below (
          append-left _ _ _
            (Listed-rules_of_endpoints path api api.endpoints ep l o.enabled o.matches))))
  Offered-matching_rules path id api ep ((j, a) ∷ apis) (inr h) l o =
      in_rest (text_eq a.status (codes "active") && has_prefix path a.base_path) _ _ _
        (Offered-matching_rules path id api ep apis h l o)

  highest-Among :
      (best : CompiledRule fl) (rules : List (CompiledRule fl))
      → Among (highest fl best rules) (best ∷ rules)
  unfolding highest
  highest-Among best [] = inl refl
  highest-Among best (rule ∷ rules) =
      let next = highest-Among rule rules in
      let longer = leb_ℤ best.priority rule.priority && ltb (length best.path) (length rule.path) in
      one_of (ltb_ℤ best.priority rule.priority) (highest fl rule rules)
        (if longer then highest fl rule rules else highest fl best rules) (best ∷ rule ∷ rules)
        (inr next)
        (one_of longer (highest fl rule rules) (highest fl best rules) (best ∷ rule ∷ rules)
          (inr next)
          (past_second (highest fl best rules) best rule rules (highest-Among best rules)))

  -- No rule of the list has a priority above `p`.
  abbrev Below : ℤ → List (CompiledRule fl) → Type 0
  Below p [] = Unit {0}
  Below p (rule ∷ rules) = (rule.priority ≤ℤ p) × Below p rules

  highest-Below :
      (best : CompiledRule fl) (rules : List (CompiledRule fl))
      → Below (highest fl best rules).priority (best ∷ rules)
  unfolding highest
  highest-Below best [] = ground arith
  highest-Below best (rule ∷ rules) =
      ground (arith, highest-Below best rules, highest-Below rule rules)

  Below-Among :
      (p : ℤ) (rule : CompiledRule fl) (rules : List (CompiledRule fl))
      → Below p rules
      → Among rule rules
      → rule.priority ≤ℤ p
  Below-Among p rule [] b h = absurd h
  Below-Among p rule (r ∷ rules) b (inl same) = rw (← same) b.0
  Below-Among p rule (r ∷ rules) b (inr h) = Below-Among p rule rules b.1 h

  -- `GetCompiledRule` returns for a path only a rule that is compiled from an enabled endpoint of an
  -- active API that match the path.
  get_compiled_rule-Offered :
      {json : Json fl} (path : Text) (f : FileRegistry fl json) (rule : CompiledRule fl)
      → get_compiled_rule fl path f ≡ some rule
      → Offered path f.apis rule
  unfolding get_compiled_rule
  get_compiled_rule-Offered path f rule h = chosen (matching_rules fl path f.apis) refl
    where
      chosen :
          (rules : List (CompiledRule fl))
          → matching_rules fl path f.apis ≡ rules
          → Offered path f.apis rule
      chosen [] e = absurd (ground (arith, h, e))
      chosen (r ∷ rest) e =
          let best : highest fl r rest ≡ rule = ground (arith, h, e) in
          matching_rules-Offered path f.apis rule
            (rw e (subst (λ x. Among x (r ∷ rest)) best (highest-Among r rest)))

  -- Of a path that an enabled endpoint of an active API matches, `GetCompiledRule` returns a rule
  -- that such an endpoint offers, with a priority that is not below the priority of that endpoint,
  -- in whatever order its loop meets the APIs.
  pub get_compiled_rule-highest :
      {json : Json fl} (path id : Text) (api : ApiRegistration fl) (ep : Endpoint fl)
      (f : FileRegistry fl json)
      → Among (id, api) f.apis
      → Among ep api.endpoints
      → Offers path api ep
      → (rule : CompiledRule fl) × (get_compiled_rule fl path f ≡ some rule)
        × Offered path f.apis rule
        × (ep.priority ≤ℤ rule.priority)
  unfolding get_compiled_rule compile_rule
  get_compiled_rule-highest path id api ep f h l o =
      chosen (matching_rules fl path f.apis) refl
        (Offered-matching_rules path id api ep f.apis h l o)
    where
      chosen :
          (rules : List (CompiledRule fl))
          → matching_rules fl path f.apis ≡ rules
          → Among (compile_rule fl path api ep) rules
          → (rule : CompiledRule fl) × (get_compiled_rule fl path f ≡ some rule)
            × Offered path f.apis rule
            × (ep.priority ≤ℤ rule.priority)
      chosen [] e i = absurd i
      chosen (r ∷ rest) e i = (
        highest fl r rest,
        rw (e, get_compiled_rule) refl,
        matching_rules-Offered path f.apis (highest fl r rest) (rw e (highest-Among r rest)),
        Below-Among _ (compile_rule fl path api ep) (r ∷ rest) (highest-Below r rest) i,
      )
