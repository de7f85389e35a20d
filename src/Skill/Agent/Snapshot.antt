-- ===== src/Skill/Agent/Snapshot.antt =====
-- What `printPositionSnapshot` of realtime-agent.js prints of the two answers of the API. It throws
-- nothing.
use easyclaw.Base.{
  ℕ, zero, suc, Bool, true, false, ◌||◌, Option, some, List, [], ◌∷◌, ◌++◌, if◌then◌else◌, ◌==◌,
  map, take, is_empty, length, filter, show_ℕ, Text, text, trim, Result, ok, err, ◌>>=◌, traverse,
}
use easyclaw.Numbers.{Numbers}
use easyclaw.Backend.Json.{Json, arr, obj, null, Fields, end, get_field}
use easyclaw.Skill.Words.{ℤ, pos, negsuc, show_ℤ, is_decimal, decimal_from}
use easyclaw.Skill.Agent.Values.{text_or_empty}
use easyclaw.Skill.Agent.Signals.{items_list}

abbrev negative : ℕ → ℤ
negative zero = pos 0
negative (suc k) = negsuc k

-- `/^-?\d+$/` and `BigInt`, of a trimmed text; another one is 0.
unfoldable pub bigint_from_text : Text → ℤ
unfolding decimal_from
bigint_from_text [] = pos 0
bigint_from_text (c ∷ s) =
    if c == b'-'
    then if is_decimal s then negative (decimal_from 0 s) else pos 0
    else if is_decimal (c ∷ s)
    then pos (decimal_from 0 (c ∷ s))
    else pos 0

-- `v > 0n`
abbrev is_positive : ℤ → Bool
is_positive (pos zero) = false
is_positive (pos (suc k)) = true
is_positive (negsuc k) = false

module _ (n : Numbers) where
  open n use {Num}

  unfoldable pub quantity : Text → Fields Num → ℤ
  unfolding bigint_from_text
  quantity name fs = bigint_from_text (trim (text_or_empty n (get_field name fs)))

  abbrev market_text : Text → Text
  market_text id = if is_empty id then text "?" else id

  unfoldable pub summarize_position_item : Fields Num → Text
  unfolding quantity
  summarize_position_item fs =
      text "market="
      ++ (market_text (trim (text_or_empty n (get_field (text "market_id") fs)))
          ++ (text " long_qty="
              ++ (show_ℤ (quantity (text "long_qty") fs)
                  ++ (text " short_qty="
                      ++ (show_ℤ (quantity (text "short_qty") fs)
                          ++ (text " long_notional="
                              ++ (show_ℤ (quantity (text "long_entry_notional") fs)
                                  ++ (text " short_notional="
                                      ++ show_ℤ (quantity (text "short_entry_notional") fs)))))))))

  -- `Array.isArray(answer?.items) ? answer.items : []`
  unfoldable pub answer_items : Option (Json Num) → List (Json Num)
  answer_items (some (obj fs)) = elim (get_field (text "items") fs) [
    | some (arr xs) ↦ items_list xs
    | _ ↦ []
  ]
  answer_items _ = []

  unfoldable pub position_fields : Json Num → Result (Fields Num)
  position_fields null = err (text "Cannot read properties of null (reading 'long_qty')")
  position_fields (obj fs) = ok fs
  position_fields _ = ok end

  abbrev pub is_active : Fields Num → Bool
  is_active fs =
      is_positive (quantity (text "long_qty") fs) || is_positive (quantity (text "short_qty") fs)

  state_lines : Text → List (Json Num) → List (Json Num) → List (Fields Num) → List Text
  state_lines user_margin positions history active =
      (text "[state] positions_total="
        ++ (show_ℕ (length positions)
            ++ (text " positions_active="
                ++ (show_ℕ (length active)
                    ++ (text " recent_history="
                        ++ (show_ℕ (length history) ++ (text " user_margin=" ++ user_margin)))))))
      ∷ map (λ fs. text "[state] " ++ summarize_position_item fs) (take 3 active)

  caught : Result (List Text) → List Text
  caught (ok lines) = lines
  caught (err message) = (text "[warn] snapshot fetch failed: " ++ message) ∷ []

  -- The lines, of the answers to the two requests.
  unfoldable pub position_snapshot :
      Text → Result (Option (Json Num)) → Result (Option (Json Num)) → List Text
  unfolding state_lines caught answer_items position_fields quantity traverse
  position_snapshot user_margin positions history = caught (
      positions >>= λ p. history >>= λ h. traverse position_fields (answer_items p) >>= λ all.
      ok (state_lines user_margin (answer_items p) (answer_items h) (filter is_active all)))
