-- ===== src/Cache/Service/Stored.antt =====
-- What is stored is found again, by the same request and by no other.
use tide_gate.Prelude.{
  sym, ap, [], ◌∷◌, ◌≢◌, get_or, ℕ, ◌≡◌, refl, Bool, true, ◌&&◌, none, some, List, inl, inr,
  Bool-cases,
}
use tide_gate.Prelude.Text.{codes_eq, codes, strip}
use tide_gate.Prelude.Dict.{lookup, lookup-insert_self, lookup-insert_ne}
use tide_gate.Cache.Keys.{
  CanonicalForm, canonical_form, round_given, canonical_messages, exact_key-digest,
}
use tide_gate.Cache.Service.{cache_store, cache_lookup, after_l1, StoreCalls, LookupCalls, key_of}
use tide_gate.Cache.Levels.{l1_set, l1_get, l2_store, Levels, answered, intact, carried_out}
use tide_gate.Core.{UnifiedRequest, UnifiedResponse, ChatMessage}
use tide_gate.Config.{TenantConfig, GatewayConfig}
use tide_gate.Cache.Gates.{can_store, read_decision}

-- the same text but for the white space around it
abbrev pub SameText : ChatMessage → ChatMessage → Type 0
SameText m n = strip (codes (get_or m.content "")) ≡ strip (codes (get_or n.content ""))

abbrev pub SameMessages : List ChatMessage → List ChatMessage → Type 0
SameMessages [] [] = Unit
SameMessages (m ∷ ms) (n ∷ ns) = (m.role ≡ n.role) × SameText m n × SameMessages ms ns
SameMessages [] (n ∷ ns) = ⊥
SameMessages (m ∷ ms) [] = ⊥

-- What makes two requests the same for the first level.
pub record SameRequest (x y : UnifiedRequest) : Type 0 where
  pub model : x.model ≡ y.model
  pub messages : SameMessages x.messages y.messages
  pub temperature : round_given x.temperature ≡ round_given y.temperature
  pub top_p : round_given x.top_p ≡ round_given y.top_p
  pub max_tokens : x.max_tokens ≡ y.max_tokens
  pub stop : x.stop ≡ y.stop
  pub prompt_version : x.prompt_version ≡ y.prompt_version

canonical_messages-Same :
    (ms ns : List ChatMessage) → SameMessages ms ns → canonical_messages ms ≡ canonical_messages ns
canonical_messages-Same [] [] h = refl
canonical_messages-Same [] (n ∷ ns) h = absurd h
canonical_messages-Same (m ∷ ms) [] h = absurd h
canonical_messages-Same (m ∷ ms) (n ∷ ns) (role, text, rest) =
    let more = canonical_messages-Same ms ns rest in cc

SameMessages-canonical :
    (ms ns : List ChatMessage) → canonical_messages ms ≡ canonical_messages ns → SameMessages ms ns
SameMessages-canonical [] [] e = tt
SameMessages-canonical [] (n ∷ ns) e = absurd (cc)
SameMessages-canonical (m ∷ ms) [] e = absurd (cc)
SameMessages-canonical (m ∷ ms) (n ∷ ns) e = (cc, cc, SameMessages-canonical ms ns (cc))

canonical_form-Same : (x y : UnifiedRequest) → SameRequest x y → canonical_form x ≡ canonical_form y
unfolding canonical_form
canonical_form-Same x y same =
    let messages = canonical_messages-Same x.messages y.messages same.messages in
    rw
      (
        canonical_form, same.model, messages, same.temperature, same.top_p, same.max_tokens,
        same.stop, same.prompt_version,
      )
      refl

Same-canonical_form : (x y : UnifiedRequest) → canonical_form x ≡ canonical_form y → SameRequest x y
unfolding canonical_form
Same-canonical_form x y e = record {
  model = ap (λ (f : CanonicalForm). f.model) e;
  messages =
      SameMessages-canonical x.messages y.messages (ap (λ (f : CanonicalForm). f.messages) e);
  temperature = ap (λ (f : CanonicalForm). f.temperature) e;
  top_p = ap (λ (f : CanonicalForm). f.top_p) e;
  max_tokens = ap (λ (f : CanonicalForm). f.max_tokens) e;
  stop = ap (λ (f : CanonicalForm). f.stop) e;
  prompt_version = ap (λ (f : CanonicalForm). f.prompt_version) e;
}

module _ (hash : CanonicalForm → List ℕ) (has_embedding : Bool) where
  -- A stored response stands under the request's key.
  stored_there :
      (req : UnifiedRequest) (tenant : TenantConfig) (response : UnifiedResponse)
      (settings : GatewayConfig) (degraded : Bool) (calls : StoreCalls) (s : Levels)
      → (can_store req tenant response settings degraded).0 ≡ true
      → calls.set ≡ answered
      → lookup
          (key_of hash has_embedding req tenant)
          (cache_store hash has_embedding req tenant response settings degraded calls s).l1
        ≡ some (intact response)
  unfolding cache_store l1_set l2_store
  stored_there req tenant response settings degraded calls s kept up =
      let key = key_of hash has_embedding req tenant in
      let there = lookup-insert_self key (intact response) s.l1 in
      elim (Bool-cases
        ((can_store req tenant response settings degraded).1 && has_embedding && calls.embedded)) [
          | inr first_only ↦ rw (cache_store, kept, up, first_only) there
          | inl both_ ↦ elim (Bool-cases (carried_out calls.hset)) [
            | inl done_ ↦ rw (cache_store, kept, up, both_, l2_store, done_) there
            | inr lost_ ↦ rw (cache_store, kept, up, both_, l2_store, lost_) there
          ]
        ]

  other_stays :
      (req : UnifiedRequest) (tenant : TenantConfig) (response : UnifiedResponse)
      (settings : GatewayConfig) (degraded : Bool) (calls : StoreCalls) (s : Levels) (key : List ℕ)
      → (can_store req tenant response settings degraded).0 ≡ true
      → calls.set ≡ answered
      → key_of hash has_embedding req tenant ≢ key
      → lookup key (cache_store hash has_embedding req tenant response settings degraded calls s).l1
        ≡ lookup key s.l1
  unfolding cache_store l1_set l2_store
  other_stays req tenant response settings degraded calls s key kept up ne =
      let there =
        lookup-insert_ne (key_of hash has_embedding req tenant) key (intact response) s.l1 ne in
      elim (Bool-cases
        ((can_store req tenant response settings degraded).1 && has_embedding && calls.embedded)) [
          | inr first_only ↦ rw (cache_store, kept, up, first_only) there
          | inl both_ ↦ elim (Bool-cases (carried_out calls.hset)) [
            | inl done_ ↦ rw (cache_store, kept, up, both_, l2_store, done_) there
            | inr lost_ ↦ rw (cache_store, kept, up, both_, l2_store, lost_) there
          ]
        ]

  -- Suppose that a response may be stored and the write arrives, and that the digests of the two requests'
  -- canonical forms do not collide. Then the same request of the tenant (the same model, the same roles and texts but for
  -- white space around them, the same temperature and `top_p` to two decimals, the same limit of tokens,
  -- stop words and prompt version), if it may read the first level and the read is answered, gets that
  -- response as an exact hit, while the levels stay as they are; and under the key of a request that is
  -- not the same stands what stood there before.
  pub cache_lookup-cache_store :
      (req req' : UnifiedRequest) (tenant : TenantConfig) (response : UnifiedResponse)
      (settings : GatewayConfig) (degraded stale : Bool) (calls : StoreCalls)
      (looking : LookupCalls) (s : Levels)
      → (hash (canonical_form req') ≡ hash (canonical_form req)
          → canonical_form req' ≡ canonical_form req)
      → (can_store req tenant response settings degraded).0 ≡ true
      → calls.set ≡ answered
      → (read_decision req' tenant settings).l1 ≡ true
      → looking.get ≡ answered
      → let s' = cache_store hash has_embedding req tenant response settings degraded calls s in
        (SameRequest req' req
          → cache_lookup hash has_embedding req' tenant settings stale looking s' ≡ (
            some (record {
              response = response;
              cache_header = "hit-exact";
              semcache_entry_id = none;
            }),
            s',
          ))
        × ((SameRequest req' req → ⊥)
            → lookup (key_of hash has_embedding req' tenant) s'.l1
              ≡ lookup (key_of hash has_embedding req' tenant) s.l1)
  unfolding cache_lookup l1_get after_l1
  cache_lookup-cache_store req req' tenant response settings degraded stale calls looking s apart
        kept up readable arrived =
      (
        λ alike.
            let same = canonical_form-Same req' req alike in
            let there = stored_there req tenant response settings degraded calls s kept up in
            rw (cache_lookup, readable, arrived, same, there) refl,
        λ unlike.
            other_stays req tenant response settings degraded calls s
              (key_of hash has_embedding req' tenant) kept up
              (λ e. unlike (
                Same-canonical_form req' req (
                  apart (
                    exact_key-digest (codes tenant.id) (hash (canonical_form req'))
                      (hash (canonical_form req)) (sym e))))),
      )
