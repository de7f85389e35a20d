-- ===== src/Skill/Agent/Config/Laws.antt =====
-- The command line that the agent gives to order-execute.js, and its reading there.
use easyclaw.Base.{
  ℕ, ◌/◌, ◌≡◌, ◌≢◌, refl, ap, ◌∙◌, Bool, true, false, not, ◌&&◌, List, [], ◌∷◌, ◌++◌, All,
  All-append, if◌then◌else◌, ◌==◌, is_empty, Text, text, text_eq, lookup, insert, Result, ok, ◌>>=◌,
  ◌>>◌, guard,
}
use easyclaw.Skill.Words.{ArgValue, flag, given, usage_number}
use easyclaw.Skill.Args.{is_no_value, is_option, parse_args}
use easyclaw.Skill.Args.Laws.{Pair, tokens_of, IsValue, insert_all, parse_args-tokens_of}
use easyclaw.Skill.Plan.{
  Plan, option, big_int, side_to_index, type_to_index, default_market_price, read_plan,
}
use easyclaw.Skill.Agent.Config.{Config, pushed, build_order_args}

abbrev pub pairs_if : Bool → List Pair → List Pair
pairs_if test ps = if test then ps else []

-- The options of an order; the tests say whether it has a price, a deposit and the flag.
abbrev options_of : Bool → Bool → Bool → (m s t g l p d : Text) → List Pair
options_of limit deposit reduce m s t g l p d =
    (text "market-id", given m)
    ∷ (text "side", given s)
    ∷ (text "type", given t)
    ∷ (text "margin", given g)
    ∷ (text "ttl", given l)
    ∷ (pairs_if limit ((text "price", given p) ∷ [])
        ++ (pairs_if deposit ((text "deposit", given d) ∷ [])
            ++ pairs_if reduce ((text "reduce-only", flag) ∷ [])))

abbrev pub order_options : {N : Type 0} → Config N → Text → List Pair
order_options c side =
    options_of (text_eq c.order_type (text "limit")) (not (is_empty c.deposit)) c.reduce_only
      c.market_id side c.order_type c.margin c.ttl c.price c.deposit

-- No value looks like an option, and only the deposit may be left out.
pub record IsPlain {N : Type 0} (c : Config N) (side : Text) : Type 0 where
  pub market_id : is_no_value c.market_id ≡ false
  pub side_given : is_no_value side ≡ false
  pub order_type : is_no_value c.order_type ≡ false
  pub margin : is_no_value c.margin ≡ false
  pub ttl : is_no_value c.ttl ≡ false
  pub price : text_eq c.order_type (text "limit") ≡ true → is_no_value c.price ≡ false
  pub deposit : is_option c.deposit ≡ false

-- The plan that the configuration stands for, read from it directly.
plan_of : Bool → Bool → Bool → (m s t g l p d : Text) → ℕ → Result Plan
plan_of limit deposit reduce m s t g l p d now = do
  market_id ← usage_number (text "market-id") (given m)
  side ← side_to_index (given s)
  order_type ← type_to_index (given t)
  margin ← usage_number (text "margin") (given g)
  ttl_secs ← big_int (given l)
  amount ← if deposit then usage_number (text "deposit") (given d) else ok 0
  price ← if limit then usage_number (text "price") (given p) else ok (default_market_price side)
  guard (not (order_type == 1 && price == 0)) (text "--price must be > 0 for limit orders")
  ok (record {
    order = record {
      market_id = market_id;
      side = side;
      order_type = order_type;
      reduce_only = reduce;
      margin = margin;
      price = price;
      ttl_secs = ttl_secs;
      client_order_id = now / 1000;
    };
    deposit = amount;
    skip_create_position = false;
  })

unfoldable pub configured_plan : {N : Type 0} → Config N → Text → ℕ → Result Plan
unfolding plan_of
configured_plan c side now =
    plan_of (text_eq c.order_type (text "limit")) (not (is_empty c.deposit)) c.reduce_only
      c.market_id side c.order_type c.margin c.ttl c.price c.deposit now

tokens_tail :
    (limit deposit reduce : Bool) (p d : Text)
    → (pushed limit (text "--price" ∷ p ∷ [])
        ++ (pushed deposit (text "--deposit" ∷ d ∷ [])
            ++ pushed reduce (text "--reduce-only" ∷ [])))
      ≡ tokens_of (
          pairs_if limit ((text "price", given p) ∷ [])
          ++ (pairs_if deposit ((text "deposit", given d) ∷ [])
              ++ pairs_if reduce ((text "reduce-only", flag) ∷ [])))
unfolding text
tokens_tail false false false p d = refl
tokens_tail false false true p d = refl
tokens_tail false true false p d = refl
tokens_tail false true true p d = refl
tokens_tail true false false p d = refl
tokens_tail true false true p d = refl
tokens_tail true true false p d = refl
tokens_tail true true true p d = refl

read_plan-options_of :
    (limit deposit reduce : Bool) (a b e f h : ℕ) (m s t g l p d : Text) (now : ℕ)
    → (limit ≡ true → p ≢ [])
    → (deposit ≡ true → d ≢ [])
    → read_plan now (
        insert_all (options_of limit deposit reduce (a ∷ m) (b ∷ s) (e ∷ t) (f ∷ g) (h ∷ l) p d) [])
      ≡ plan_of limit deposit reduce (a ∷ m) (b ∷ s) (e ∷ t) (f ∷ g) (h ∷ l) p d now
unfolding read_plan option lookup insert text text_eq plan_of
read_plan-options_of false false false a b e f h m s t g l p d now hp hd = refl
read_plan-options_of false false true a b e f h m s t g l p d now hp hd = refl
read_plan-options_of false true false a b e f h m s t g l p (k ∷ d) now hp hd = refl
read_plan-options_of false true true a b e f h m s t g l p (k ∷ d) now hp hd = refl
read_plan-options_of true false false a b e f h m s t g l (i ∷ p) d now hp hd = refl
read_plan-options_of true false true a b e f h m s t g l (i ∷ p) d now hp hd = refl
read_plan-options_of true true false a b e f h m s t g l (i ∷ p) (k ∷ d) now hp hd = refl
read_plan-options_of true true true a b e f h m s t g l (i ∷ p) (k ∷ d) now hp hd = refl
read_plan-options_of true deposit reduce a b e f h m s t g l [] d now hp hd = absurd (hp refl refl)
read_plan-options_of limit true reduce a b e f h m s t g l p [] now hp hd = absurd (hd refl refl)

value-cons : (v : Text) → is_no_value v ≡ false → (a : ℕ) × (u : Text) × (v ≡ a ∷ u)
value-cons [] h = cc
value-cons (a ∷ u) h = (a, u, refl)

value_ne : (v : Text) → is_no_value v ≡ false → v ≢ []
value_ne [] h e = cc
value_ne (a ∷ u) h e = cc

not_empty_ne : (v : Text) → not (is_empty v) ≡ true → v ≢ []
not_empty_ne [] h e = cc
not_empty_ne (a ∷ u) h e = cc

deposit_value : (v : Text) → is_option v ≡ false → not (is_empty v) ≡ true → is_no_value v ≡ false
deposit_value [] h e = cc
deposit_value (a ∷ u) h e = h

abbrev pub IsValues : List Pair → Type 0
IsValues ps = All (λ q. IsValue q.1) ps

pub pairs_if-IsValues :
    (test : Bool) (k : Text) (v : ArgValue)
    → (test ≡ true → IsValue v)
    → IsValues (pairs_if test ((k, v) ∷ []))
pairs_if-IsValues false k v h = tt
pairs_if-IsValues true k v h = (h refl, tt)

options_of-IsValues :
    (limit deposit reduce : Bool) (m s t g l p d : Text)
    → is_no_value m ≡ false
    → is_no_value s ≡ false
    → is_no_value t ≡ false
    → is_no_value g ≡ false
    → is_no_value l ≡ false
    → (limit ≡ true → is_no_value p ≡ false)
    → (deposit ≡ true → is_no_value d ≡ false)
    → IsValues (options_of limit deposit reduce m s t g l p d)
options_of-IsValues limit deposit reduce m s t g l p d hm hs ht hg hl hp hd =
    let rest =
      All-append (λ q. IsValue q.1) _ _ (pairs_if-IsValues limit (text "price") (given p) hp)
        (All-append (λ q. IsValue q.1) _ _ (pairs_if-IsValues deposit (text "deposit") (given d) hd)
          (pairs_if-IsValues reduce (text "reduce-only") flag (λ _. tt))) in
    (hm, (hs, (ht, (hg, (hl, rest)))))

read_plan_plain :
    (limit deposit reduce : Bool) (m s t g l p d : Text) (now : ℕ)
    → is_no_value m ≡ false
    → is_no_value s ≡ false
    → is_no_value t ≡ false
    → is_no_value g ≡ false
    → is_no_value l ≡ false
    → (limit ≡ true → p ≢ [])
    → (deposit ≡ true → d ≢ [])
    → read_plan now (insert_all (options_of limit deposit reduce m s t g l p d) [])
      ≡ plan_of limit deposit reduce m s t g l p d now
read_plan_plain limit deposit reduce m s t g l p d now hm hs ht hg hl hp hd =
    let (a, m1, em) = value-cons m hm in
    let (b, s1, es) = value-cons s hs in
    let (e, t1, et) = value-cons t ht in
    let (f, g1, eg) = value-cons g hg in
    let (h, l1, el) = value-cons l hl in
    rw (em, es, et, eg, el)
      (read_plan-options_of limit deposit reduce a b e f h m1 s1 t1 g1 l1 p d now hp hd)

module _ {N : Type 0} (c : Config N) (side : Text) where
  build_order_args-tokens_of : build_order_args c side ≡ tokens_of (order_options c side)
  unfolding build_order_args text
  build_order_args-tokens_of = rw (
      tokens_tail (text_eq c.order_type (text "limit")) (not (is_empty c.deposit)) c.reduce_only
        c.price c.deposit)

  -- Given the command line of an order, whose values do not look like options, order-execute.js reads
  -- the plan that the agent's configuration stands for, or throws where that has an invalid number.
  pub read_plan-build_order_args :
      (now : ℕ)
      → IsPlain c side
      → read_plan now (parse_args (build_order_args c side)) ≡ configured_plan c side now
  unfolding configured_plan
  read_plan-build_order_args now plain =
      let values =
        options_of-IsValues (text_eq c.order_type (text "limit")) (not (is_empty c.deposit))
          c.reduce_only c.market_id side c.order_type c.margin c.ttl c.price c.deposit
          plain.market_id plain.side_given plain.order_type plain.margin plain.ttl plain.price
          (deposit_value c.deposit plain.deposit) in
      ap (λ tokens. read_plan now (parse_args tokens)) build_order_args-tokens_of
      ∙ ap (read_plan now) (parse_args-tokens_of (order_options c side) values)
      ∙ read_plan_plain (text_eq c.order_type (text "limit")) (not (is_empty c.deposit))
          c.reduce_only c.market_id side c.order_type c.margin c.ttl c.price c.deposit now
          plain.market_id plain.side_given plain.order_type plain.margin plain.ttl
          (λ e. value_ne c.price (plain.price e)) (not_empty_ne c.deposit)
