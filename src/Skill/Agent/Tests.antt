-- ===== src/Skill/Agent/Tests.antt =====
-- The agent on a few events: the theorems at concrete inputs.
use easyclaw.Base.{
  ℕ, ◌+◌, ◌≤◌, ◌<◌, ap, false, ◌≢◌, show_ℕ, to_lower, ◌≡◌, refl, true, false, Option, some, [], ◌∷◌,
  arith, ltb, or_else, starts_with, text, text_eq, is_blank,
}
use easyclaw.Samples.{naturals}
use easyclaw.Backend.Json.{Json, num, str, obj, Fields, end, field, get_field, string_of}
use easyclaw.Scripts.Rpc.{for_each, ◌>>◌}
use easyclaw.Skill.Args.{parse_args}
use easyclaw.Skill.Plan.{read_plan}
use easyclaw.Skill.Agent.Values.{Floats, to_number, finite_number, number_of, text_or_empty}
use easyclaw.Skill.Agent.Config.{Config, build_order_args}
use easyclaw.Skill.Agent.Config.Laws.{IsPlain, configured_plan, read_plan-build_order_args}
use easyclaw.Skill.Agent.Signals.{
  event_items, data_items, signal_items_from_envelope, signal_fields, normalize_signal_side,
}
use easyclaw.Skill.Agent.Runtime.{
  Runtime, idle, schedule_reconnect, connecting, opened, closing, create_runtime_state,
  connect_websocket, request_stop, maybe_finalize, on_open, on_close, on_message, take_task,
  take_signal, read_signal, applied, filter_signal, enqueue_signal_execution, is_filtered, job_of,
  dedupe_key, agent_of, side_of, run_task, handle_order,
}
use easyclaw.Skill.Agent.Runtime.Crash.{on_message_malformed}
use easyclaw.Skill.Agent.Steps.{
  Reachable, started, start, later, open_event, message_event, close_event, shutdown_event,
  task_event,
}
use easyclaw.Skill.Agent.Steps.Situations.{IsLinked}
use easyclaw.Skill.Agent.Steps.Links.{reachable-IsLinked}
use easyclaw.Skill.Agent.Steps.Discipline.{IsOrderly}
use easyclaw.Skill.Agent.Steps.Placed.{orders_so_far, reachable-IsBounded}
use easyclaw.Skill.Agent.Steps.Bounds.{IsPatient, reachable-IsPatient}
use easyclaw.Skill.Agent.Steps.Ending.{work, Moves, done, move, stop-Finishes}

abbrev floats : Floats naturals
floats = record {
  floor = λ v. v;
  less = λ v w. ltb (or_else v 0) (or_else w 0);
  to_ℕ = λ v. or_else v 0;
}

abbrev config : Config (Option ℕ)
config = record {
  market_id = text "1";
  margin = text "1000000";
  order_type = text "limit";
  price = text "3";
  ttl = text "300";
  deposit = text "5";
  reduce_only = true;
  min_confidence = some 1;
  cooldown_ms = 15000;
  max_orders = 1;
  channel = text "agent.signals";
  agent_name_filter = [];
  dry_run = false;
  strategy_prompt = [];
  reconnect_base_delay_ms = 1000;
  reconnect_max_delay_ms = 30000;
  max_reconnect_attempts = 3;
}

config-IsPlain : IsPlain config (text "buy")
unfolding text starts_with
config-IsPlain = record {
  market_id = refl;
  side_given = refl;
  order_type = refl;
  margin = refl;
  ttl = refl;
  price = λ e. refl;
  deposit = refl;
}

read_plan-build_order_args_example :
    read_plan 1700000000000 (parse_args (build_order_args config (text "buy")))
    ≡ configured_plan config (text "buy") 1700000000000
read_plan-build_order_args_example =
    read_plan-build_order_args config (text "buy") 1700000000000 config-IsPlain

-- A signal to buy, in an event.
abbrev signal : Json (Option ℕ) → Fields (Option ℕ)
signal confidence = field (text "agent_name") (str (text "alpha")) (
    field (text "side") (str (text "LONG"))
      (field (text "confidence") confidence (field (text "ts") (num (some 5)) end)))

abbrev event : Json (Option ℕ) → Json (Option ℕ)
event confidence =
    obj
      (field (text "type") (str (text "event")) (field (text "data") (obj (signal confidence)) end))

abbrev AgentState : Type 0
AgentState = Runtime (Option ℕ)

abbrev first_state : AgentState
first_state = started naturals floats config

abbrev told_state : AgentState
told_state =
    on_message naturals floats config (some (event (num (some 1)))) 9000 (on_open first_state)

-- The order's command has been started.
abbrev busy_state : AgentState
busy_state = take_task naturals config 20000 20000 told_state

busy_state_spawned : busy_state.spawned ≡ build_order_args config (text "buy") ∷ []
unfolding create_runtime_state connect_websocket on_open on_message take_signal read_signal
    signal_fields applied filter_signal enqueue_signal_execution is_filtered job_of dedupe_key
    agent_of side_of signal_items_from_envelope event_items data_items get_field text text_eq
    string_of to_number finite_number number_of for_each ◌>>◌ take_task run_task handle_order
    normalize_signal_side text_or_empty is_blank show_ℕ to_lower
busy_state_spawned = refl

told_state-Reachable : Reachable naturals floats config told_state
unfolding create_runtime_state connect_websocket on_open
told_state-Reachable =
    later (later start refl (open_event refl)) refl
      (message_event opened (some (event (num (some 1)))) 9000 refl)

told_state_waits : (told_state.crashed ≡ false) × (told_state.phase ≡ idle)
unfolding create_runtime_state connect_websocket on_open on_message take_signal read_signal
    signal_fields applied filter_signal enqueue_signal_execution is_filtered job_of dedupe_key
    agent_of side_of signal_items_from_envelope event_items data_items get_field text text_eq
    string_of to_number finite_number number_of for_each ◌>>◌ normalize_signal_side text_or_empty
    is_blank show_ℕ to_lower
told_state_waits = (refl, refl)

busy_state-Reachable : Reachable naturals floats config busy_state
busy_state-Reachable =
    later told_state-Reachable told_state_waits.0 (task_event 20000 20000 told_state_waits.1)

reachable-IsLinked_example : IsLinked busy_state
reachable-IsLinked_example =
    reachable-IsLinked naturals floats config busy_state busy_state-Reachable

reachable-IsBounded_example :
    let orders = orders_so_far naturals floats config busy_state busy_state-Reachable in
    (0 < config.max_orders → orders ≤ config.max_orders)
    × (busy_state.placed_orders ≡ orders)
    × IsOrderly config busy_state
reachable-IsBounded_example =
    reachable-IsBounded naturals floats config busy_state busy_state-Reachable

-- The first connection has failed.
abbrev waiting_state : AgentState
waiting_state = on_close config first_state

waiting_state_timer : waiting_state.timer ≡ some 1000
unfolding create_runtime_state connect_websocket on_close schedule_reconnect
waiting_state_timer = refl

waiting_state-Reachable : Reachable naturals floats config waiting_state
unfolding create_runtime_state connect_websocket
waiting_state-Reachable = later start refl (close_event connecting refl)

reachable-IsPatient_example : IsPatient config waiting_state
reachable-IsPatient_example =
    reachable-IsPatient naturals floats config (omega arith) waiting_state waiting_state-Reachable

-- A shutdown before the first connection is there.
abbrev stopped_state : AgentState
stopped_state = on_close config (request_stop (text "signal") first_state)

stopped_state-Reachable : Reachable naturals floats config stopped_state
unfolding create_runtime_state connect_websocket request_stop maybe_finalize
stopped_state-Reachable =
    later (later start refl (shutdown_event refl)) refl (close_event closing refl)

-- The `finish` that waits has its turn.
abbrev ended_state : AgentState
ended_state = take_task naturals config 0 0 stopped_state

stopped_state-Moves : Moves naturals floats config 1 stopped_state ended_state
unfolding create_runtime_state connect_websocket request_stop maybe_finalize on_close take_task
    run_task
stopped_state-Moves =
    move (task_event 0 0 refl) (λ e. let wrong : false ≡ true = ap (λ s. s.finished) e in cc) done

stop-Finishes_example :
    (1 + work ended_state ≤ work stopped_state)
    × (ended_state.spawned ≡ stopped_state.spawned)
    × (work ended_state ≡ 0 → ended_state.finished ≡ true)
    × (work ended_state ≢ 0 → (u : AgentState) × Moves naturals floats config 1 ended_state u)
unfolding create_runtime_state connect_websocket request_stop maybe_finalize on_close
stop-Finishes_example =
    stop-Finishes naturals floats config 1 stopped_state ended_state stopped_state-Reachable refl
      refl refl stopped_state-Moves

-- The confidence of the signal is the text `high`.
on_message_malformed_example :
    on_message naturals floats config (some (event (str (text "high")))) 9000 first_state
    ≡ record first_state { crashed = true }
unfolding signal_items_from_envelope event_items data_items get_field text text_eq is_blank
on_message_malformed_example =
    on_message_malformed naturals floats config (event (str (text "high"))) 9000 first_state
      (signal (str (text "high"))) [] (text "high") refl refl refl refl
