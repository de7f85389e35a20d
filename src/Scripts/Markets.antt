-- ===== src/Scripts/Markets.antt =====
-- `parseBootstrapMarkets` of bootstrap.ts: the markets that BOOTSTRAP_MARKET_IDS selects.
pub mod Laws
use easyclaw.Base.{
  ℕ, Bool, true, false, ◌&&◌, not, Option, none, some, List, [], ◌∷◌, ◌++◌, map, if◌then◌else◌,
  Text, text, trim, is_blank, any, filter, Result, ok, err, ◌>>=◌, ◌>>◌, guard, traverse,
  join_comma,
}
use easyclaw.Scripts.Defaults.{Market, markets}
use easyclaw.Scripts.Platform.{Numbers}
use easyclaw.Scripts.Env.{Env, list_items}

module _ (n : Numbers) where
  open n use {Num, number, of_ℕ, is_integer, is_positive, num_eq, show}

  unfoldable pub parse_market_id : Text → Result Num
  parse_market_id item =
      if is_integer (number item) && is_positive (number item)
      then ok (number item)
      else err (text "Invalid BOOTSTRAP_MARKET_IDS value: " ++ item)

  -- `new Set<number>(ids)`, in the order of insertion.
  unfoldable pub id_set : List Num → List Num
  id_set [] = []
  id_set (i ∷ ids) = i ∷ filter (λ j. not (num_eq i j)) (id_set ids)

  abbrev pub has_id : List Num → Market → Bool
  has_id ids market = any (λ i. num_eq i (of_ℕ market.market_id)) ids

  abbrev pub is_selected : List Market → Num → Bool
  is_selected selected i = any (λ m. num_eq i (of_ℕ m.market_id)) selected

  -- The last two statements: the missing ids are an error, otherwise the selection is the result.
  unfoldable pub checked_selection : List Market → List Num → Result (List Market)
  checked_selection selected [] = ok selected
  checked_selection selected (j ∷ missing) =
      err
        (text "Unknown market ids in BOOTSTRAP_MARKET_IDS: " ++ join_comma (map show (j ∷ missing)))

  -- What follows the construction of the set.
  unfoldable pub select_markets : List Num → Result (List Market)
  unfolding checked_selection
  select_markets [] = err (text "BOOTSTRAP_MARKET_IDS is empty")
  select_markets (i ∷ ids) =
      let requested = i ∷ ids in
      let selected = filter (has_id requested) markets in
      checked_selection selected (filter (λ j. not (is_selected selected j)) requested)

  unfoldable pub parse_bootstrap_markets : Env → Result (List Market)
  unfolding parse_market_id id_set select_markets
  parse_bootstrap_markets env = elim (env (text "BOOTSTRAP_MARKET_IDS")) [
    | none ↦ ok markets
    | some raw ↦
        if is_blank raw
        then ok markets
        else do ids ← traverse parse_market_id (list_items (trim raw)); select_markets (id_set ids)
  ]
