-- ===== src/Cache/Keys.antt =====
-- cache/keys.py and cache/normalize.py: the key of a request in the first level. `hash` stands for the
-- hexadecimal digest of the canonical form's JSON.
use tide_gate.Prelude.{
  none, some, String, ℕ, ◌≡◌, refl, sym, Bool, false, Option, List, [], ◌∷◌, ◌++◌, any, true, ◌==◌,
  count_eq, get_or, arith, ◌^◌, ◌*◌, ◌/◌, ◌%◌, if◌then◌else◌, ltb, ◌+◌, some,
}
use tide_gate.Prelude.Text.{codes, strip}
use mathlib.Core.Path.{subst}
use tide_gate.Core.{Role, UnifiedRequest, ChatMessage}

-- the unit of a temperature or a `top_p`, the smallest double, in one
abbrev pub float_scale : ℕ
float_scale = 2 ^ 1074

-- `round(x, 2)`, in hundredths: to the nearest one, to the even one in the middle
unfoldable pub round_two : ℕ → ℕ
round_two x =
    let q = 100 * x / float_scale in
    let r = 100 * x % float_scale in
    if ltb (2 * r) float_scale then q else if ltb float_scale (2 * r) then q + 1 else q + q % 2

-- `None if x is None else round(x, 2)`
abbrev pub round_given : Option ℕ → Option ℕ
round_given none = none
round_given (some x) = some (round_two x)

pub record CanonicalForm : Type 0 where
  pub model : String
  pub messages : List (Role × List ℕ)
  pub temperature : Option ℕ
  pub top_p : Option ℕ
  pub max_tokens : Option ℕ
  pub stop : Option (List String)
  pub prompt_version : String

abbrev pub canonical_messages : List ChatMessage → List (Role × List ℕ)
canonical_messages [] = []
canonical_messages (m ∷ ms) = (m.role, strip (codes (get_or m.content ""))) ∷ canonical_messages ms

-- `canonical_form`
unfoldable pub canonical_form : UnifiedRequest → CanonicalForm
unfolding round_two
canonical_form req = record {
  model = req.model;
  messages = canonical_messages req.messages;
  temperature = round_given req.temperature;
  top_p = round_given req.top_p;
  max_tokens = req.max_tokens;
  stop = req.stop;
  prompt_version = req.prompt_version;
}

-- "\n".join
abbrev pub join_lines : List (Role × List ℕ) → List ℕ
join_lines [] = []
join_lines (m ∷ []) = m.1
join_lines (m ∷ n ∷ ms) = m.1 ++ 10 ∷ join_lines (n ∷ ms)

-- `semantic_text`
unfoldable pub semantic_text : UnifiedRequest → List ℕ
semantic_text req = join_lines (canonical_messages req.messages)

-- `exact_key`; 58 is the colon
unfoldable pub exact_key : List ℕ → List ℕ → List ℕ
exact_key tenant_id digest = codes "cache:exact:" ++ tenant_id ++ 58 ∷ digest

-- no colon occurs in it
abbrev pub NoColon : List ℕ → Type 0
NoColon cs = any (λ c. c == 58) cs ≡ false

has_colon : (xs zs : List ℕ) → any (λ c. c == 58) (xs ++ 58 ∷ zs) ≡ true
has_colon [] zs = ground (arith, count_eq.same_iff 58 58)
has_colon (x ∷ xs) zs = ground (arith, has_colon xs zs)

no_rest : (x : ℕ) (xs ys zs : List ℕ) → NoColon ys → (58 ∷ ys) ≡ (x ∷ xs ++ 58 ∷ zs) → ⊥
no_rest x xs ys zs h e =
    let free : NoColon (xs ++ 58 ∷ zs) = subst NoColon (cons_tail e) h in
    no_both (any (λ c. c == 58) (xs ++ 58 ∷ zs)) (has_colon xs zs) free
  where
    no_both : (b : Bool) → b ≡ true → b ≡ false → ⊥
    no_both b h k = ground arith

    cons_tail : {y : ℕ} {us vs : List ℕ} → (58 ∷ us) ≡ (y ∷ vs) → us ≡ vs
    cons_tail e = cc

split_at_last :
    (xs xs' ys ys' : List ℕ)
    → NoColon ys
    → NoColon ys'
    → (xs ++ 58 ∷ ys) ≡ (xs' ++ 58 ∷ ys')
    → xs ≡ xs'
split_at_last [] [] ys ys' h h' e = refl
split_at_last [] (x' ∷ xs') ys ys' h h' e = absurd (no_rest x' xs' ys ys' h e)
split_at_last (x ∷ xs) [] ys ys' h h' e = absurd (no_rest x xs ys' ys h' (sym e))
split_at_last (x ∷ xs) (x' ∷ xs') ys ys' h h' e = ground (arith, split_at_last xs xs' ys ys' h h')

strip_prefix : (ps xs ys : List ℕ) → (ps ++ xs) ≡ (ps ++ ys) → xs ≡ ys
strip_prefix [] xs ys e = e
strip_prefix (p ∷ ps) xs ys e = ground (arith, strip_prefix ps xs ys)

-- a key gives back the digest
pub exact_key-digest : (t d d' : List ℕ) → exact_key t d ≡ exact_key t d' → d ≡ d'
unfolding exact_key
exact_key-digest t d d' e =
    let colon_on = strip_prefix (codes "cache:exact:" ++ t) (58 ∷ d) (58 ∷ d') e in
    strip_prefix (58 ∷ []) d d' colon_on

-- the keys of different tenants are different
pub exact_key-tenant :
    (t t' d d' : List ℕ) → NoColon d → NoColon d' → exact_key t d ≡ exact_key t' d' → t ≡ t'
unfolding exact_key
exact_key-tenant t t' d d' h h' e =
    let prefix = codes "cache:exact:" in
    strip_prefix prefix t t' (split_at_last (prefix ++ t) (prefix ++ t') d d' h h' e)
