-- ===== src/Scripts/Names.antt =====
-- The two spellings of a method or account name, `toSnake` and `toCamel`, the account table that
-- answers to both, and the spellings under which `callRpc` looks for a method.
-- The same three pieces stand in bootstrap.ts and in faucet.ts.
pub mod Laws
use easyclaw.Base.{
  ℕ, ◌+◌, ◌-◌, Bool, true, false, ◌&&◌, List, [], ◌∷◌, if◌then◌else◌, ◌==◌, Text, text_eq, any,
  is_upper, is_lower, Dict, insert, lookup, text, not, filter, find, Option,
}

-- `value.replace(/[A-Z]/g, (match) => "_" + match.toLowerCase())`
unfoldable pub to_snake : Text → Text
to_snake [] = []
to_snake (c ∷ s) = let rest = to_snake s in if is_upper c then b'_' ∷ (c + 32) ∷ rest else c ∷ rest

-- `value.replace(/_([a-z])/g, (_, letter) => letter.toUpperCase())`
unfoldable pub to_camel : Text → Text
to_camel [] = []
to_camel (c ∷ []) = c ∷ []
to_camel (c ∷ d ∷ s) =
    let joined = (d - 32) ∷ to_camel s in
    let kept = c ∷ to_camel (d ∷ s) in if c == b'_' && is_lower d then joined else kept

module _ {K : Type 0} where
  -- One round of the loop over `Object.entries(accounts)`.
  unfoldable pub add_alias : Text → K → Dict K → Dict K
  add_alias key value aliases =
      insert (to_camel key) value (insert (to_snake key) value (insert key value aliases))

  add_aliases_from : Dict K → Dict K → Dict K
  add_aliases_from aliases [] = aliases
  add_aliases_from aliases ((key, value) ∷ accounts) =
      add_aliases_from (add_alias key value aliases) accounts

  unfoldable pub add_account_aliases : Dict K → Dict K
  unfolding add_aliases_from add_alias
  add_account_aliases accounts = add_aliases_from [] accounts

-- Named on an `unfolding` line, this opens what a look-up in a concrete table computes with.
unfoldable pub concrete_tables : Unit {0}
unfolding add_account_aliases add_alias to_snake to_camel lookup insert text text_eq
concrete_tables = tt

-- `Array.from(new Set(names))`: the first of equal names is kept.
unfoldable pub unique : List Text → List Text
unique [] = []
unique (x ∷ xs) = x ∷ filter (λ y. not (text_eq x y)) (unique xs)

unfoldable pub method_candidates : Text → List Text
unfolding unique
method_candidates name = unique (name ∷ to_camel name ∷ to_snake name ∷ [])

-- The spelling under which the program has the method, if it has one.
unfoldable pub resolve_method : (Text → Bool) → Text → Option Text
unfolding method_candidates
resolve_method has name = find has (method_candidates name)
