-- ===== src/Skill/Agent/Signals.antt =====
-- The signals of a message of realtime-agent.js, and the texts that its decisions are explained with.
use easyclaw.Base.{
  Bool, true, false, Option, none, some, List, [], ◌∷◌, ◌++◌, if◌then◌else◌, leb, any, length, take,
  is_empty, is_space, is_some, Text, text, text_eq, trim, to_lower, Result, ok, err,
}
use easyclaw.Numbers.{Numbers}
use easyclaw.Backend.Json.{Json, Items, nil, cons, Fields, end, get_field}
use easyclaw.Skill.Agent.Values.{first_truthy, text_or_empty}

abbrev pub buy_words : List Text
buy_words = text "long" ∷ text "buy" ∷ text "bid" ∷ []

abbrev pub sell_words : List Text
sell_words = text "short" ∷ text "sell" ∷ text "ask" ∷ []

-- Of `String(side || "")`
unfoldable pub normalize_signal_side : Text → Text
normalize_signal_side side =
    let normalized = to_lower (trim side) in
    if any (text_eq normalized) buy_words
    then text "buy"
    else if any (text_eq normalized) sell_words
    then text "sell"
    else []

abbrev pub items_list : {N : Type 0} → Items N → List (Json N)
items_list nil = []
items_list (cons x xs) = x ∷ items_list xs

-- `value.replace(/\s+/g, " ")`; `spaced` when a space was just written.
unfoldable pub collapse : Bool → Text → Text
collapse spaced [] = []
collapse spaced (c ∷ s) =
    let within = collapse true s in
    let word = c ∷ collapse false s in
    if is_space c then if spaced then within else b' ' ∷ within else word

-- Of `String(value || "")`
unfoldable pub normalize_inline_text : Text → Text
unfolding collapse
normalize_inline_text value = trim (collapse false value)

unfoldable pub compact_strategy_summary : Text → Text
unfolding normalize_inline_text
compact_strategy_summary strategy_prompt =
    let normalized = normalize_inline_text strategy_prompt in
    if is_empty normalized
    then text "(none)"
    else if leb (length normalized) 120
    then normalized
    else take 117 normalized ++ text "..."

-- `details.join("; ")`
abbrev pub join_details : List Text → Text
join_details [] = []
join_details (d ∷ []) = d
join_details (d ∷ e ∷ ds) = d ++ (text "; " ++ join_details (e ∷ ds))

-- A text that is pushed where it is not empty.
abbrev pub detail : Text → Text → List Text
detail value line = if is_empty value then [] else line ∷ []

module _ (n : Numbers) where
  open n use {Num}

  -- `data` of an event.
  unfoldable pub data_items : Json Num → List (Json Num)
  data_items (Json.arr xs) = items_list xs
  data_items (Json.obj fs) = elim (get_field (text "items") fs) [
    | some (Json.arr xs) ↦ items_list xs
    | _ ↦
        if is_some
          (first_truthy n (get_field (text "agent_name") fs ∷ get_field (text "side") fs ∷ []))
        then Json.obj fs ∷ []
        else []
  ]
  data_items _ = []

  unfoldable pub event_items : Fields Num → List (Json Num)
  event_items fs = elim (get_field (text "type") fs) [
    | some (Json.str type) ↦
        let items = or_else_items (get_field (text "data") fs) in
        if text_eq type (text "event") then items else []
    | _ ↦ []
  ]
    where
      or_else_items : Option (Json Num) → List (Json Num)
      or_else_items none = []
      or_else_items (some data') = data_items data'

  unfoldable pub signal_items_from_envelope : Json Num → List (Json Num)
  unfolding event_items data_items
  signal_items_from_envelope (Json.obj fs) = event_items fs
  signal_items_from_envelope _ = []

  -- Reading a property of `null` throws; what is no object has none of the properties that are read.
  unfoldable pub signal_fields : Json Num → Result (Fields Num)
  signal_fields Json.null = err (text "Cannot read properties of null (reading 'agent_name')")
  signal_fields (Json.obj fs) = ok fs
  signal_fields _ = ok end

  unfoldable pub build_decision_reason : Fields Num → Text → Text
  unfolding normalize_inline_text compact_strategy_summary text_or_empty
  build_decision_reason signal strategy_prompt =
      let explicit = normalize_inline_text (
        text_or_empty n (
          first_truthy n (
            get_field (text "reason") signal
            ∷ get_field (text "rationale") signal
            ∷ get_field (text "thesis") signal
            ∷ get_field (text "note") signal
            ∷ get_field (text "comment") signal
            ∷ []))) in
      let price = trim (text_or_empty n (get_field (text "price") signal)) in
      let snippet = compact_strategy_summary strategy_prompt in
      let details =
        detail explicit explicit
        ++ (detail price (text "signal_price=" ++ price)
            ++ (if text_eq snippet (text "(none)")
                then []
                else (text "strategy=\"" ++ (snippet ++ text "\"")) ∷ [])) in
      if is_empty (join_details details)
      then text "signal side/confidence matched filters"
      else join_details details
