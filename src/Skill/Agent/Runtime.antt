-- ===== src/Skill/Agent/Runtime.antt =====
-- The running agent of realtime-agent.js: `createRuntimeState` with what `runRealtimeTrading` adds, and
-- one function per handler. The promise `activeOrder` is the list of what waits for its turn.
pub mod Crash
use easyclaw.Base.{
  ℕ, suc, ◌+◌, ◌-◌, ◌*◌, ◌/◌, ◌^◌, Bool, true, false, not, ◌&&◌, ◌||◌, Option, none, some, List, [],
  ◌∷◌, ◌++◌, if◌then◌else◌, ltb, leb, any, is_empty, is_some, Text, text, text_eq, trim, Result, ok,
  err, ◌>>=◌,
}
use easyclaw.Numbers.{Numbers}
use easyclaw.Backend.Json.{Json, Fields, get_field}
use easyclaw.Scripts.Rpc.{Script, for_each}
use easyclaw.Skill.Agent.Values.{Floats, text_or_empty, to_number}
use easyclaw.Skill.Agent.Config.{Config, build_order_args, min}
use easyclaw.Skill.Agent.Signals.{
  normalize_signal_side, signal_items_from_envelope, signal_fields, build_decision_reason,
}

-- `readyState` of the socket. A socket that is closed is dropped at once.
pub data Ready : Type 0 where
  connecting opened closing : Ready

-- A signal that was let through.
pub record Job (N : Type 0) : Type 0 where
  pub signal : Fields N
  pub side : Text
  pub key : Text

-- What waits for `activeOrder`: the handling of a signal, or the `finish` of `maybeFinalize`.
pub data Task (N : Type 0) : Type 0 where
  order : Job N → Task N
  finish : Task N

-- The order in progress: its command runs, or the positions are being printed.
pub data Phase : Type 0 where
  idle executing reporting : Phase

-- A line of `[decision]`.
pub record Decision : Type 0 where
  pub key : Text
  pub side : Text
  pub reason : Text

-- `timer` is the delay of the pending reconnection; `decided` and `spawned` are the decisions and the
-- commands so far.
pub record Runtime (N : Type 0) : Type 0 where
  pub seen_signals : List Text
  pub last_execution_at : ℕ
  pub tasks : List (Task N)
  pub phase : Phase
  pub placed_orders : ℕ
  pub reconnect_attempts : ℕ
  pub timer : Option ℕ
  pub socket : Option Ready
  pub stop_requested : Bool
  pub stop_reason : Text
  pub finished : Bool
  pub crashed : Bool
  pub exit_code : ℕ
  pub decided : List Decision
  pub spawned : List (List Text)

-- `socket.close`, of a socket that is open or opening
abbrev pub closed_down : Option Ready → Option Ready
closed_down none = none
closed_down (some r) = some closing

module _ {N : Type 0} where
  unfoldable pub create_runtime_state : Runtime N
  create_runtime_state = record {
    seen_signals = [];
    last_execution_at = 0;
    tasks = [];
    phase = idle;
    placed_orders = 0;
    reconnect_attempts = 0;
    timer = none;
    socket = none;
    stop_requested = false;
    stop_reason = [];
    finished = false;
    crashed = false;
    exit_code = 0;
    decided = [];
    spawned = [];
  }

  unfoldable pub maybe_finalize : Runtime N → Runtime N
  maybe_finalize s =
      if not s.stop_requested || is_some s.socket || is_some s.timer
      then s
      else record s { tasks = s.tasks ++ finish ∷ [] }

  abbrev pub stopping : Text → Runtime N → Runtime N
  stopping reason s = record s {
    stop_requested = true;
    stop_reason = reason;
    timer = none;
    socket = closed_down s.socket;
  }

  unfoldable pub request_stop : Text → Runtime N → Runtime N
  unfolding maybe_finalize
  request_stop reason s = if s.stop_requested then s else maybe_finalize (stopping reason s)

  -- `connectWebsocket`, up to its handlers. The endpoint is an address.
  unfoldable pub connect_websocket : Runtime N → Runtime N
  connect_websocket s = if s.stop_requested then s else record s { socket = some connecting }

  unfoldable pub schedule_reconnect : Config N → Runtime N → Runtime N
  unfolding request_stop
  schedule_reconnect c s =
      let next = suc s.reconnect_attempts in
      let backoff = min c.reconnect_max_delay_ms (c.reconnect_base_delay_ms * 2 ^ (next - 1)) in
      if s.stop_requested
      then s
      else if ltb 0 c.max_reconnect_attempts && ltb c.max_reconnect_attempts next
      then request_stop (text "max reconnect attempts reached") (record s { exit_code = 1 })
      else record s { reconnect_attempts = next; timer = some backoff }

  unfoldable pub on_open : Runtime N → Runtime N
  on_open s = record s { socket = some opened; reconnect_attempts = 0 }

  unfoldable pub on_close : Config N → Runtime N → Runtime N
  unfolding maybe_finalize schedule_reconnect
  on_close c s =
      let dropped = record s { socket = none } in
      if s.stop_requested then maybe_finalize dropped else schedule_reconnect c dropped

  -- The timer of `scheduleReconnect`.
  unfoldable pub on_timer : Runtime N → Runtime N
  unfolding connect_websocket
  on_timer s = connect_websocket (record s { timer = none })

  -- After a command that succeeded, or none: the time and the count.
  unfoldable pub count_order : ℕ → Runtime N → Runtime N
  count_order later s = record s {
    last_execution_at = later;
    placed_orders = suc s.placed_orders;
    phase = reporting;
  }

  -- `executeOrder` has resolved or rejected.
  unfoldable pub on_executed : Bool → ℕ → Runtime N → Runtime N
  unfolding count_order
  on_executed success later s = if success then count_order later s else record s { phase = idle }

  -- The positions are printed.
  unfoldable pub on_reported : Config N → Runtime N → Runtime N
  unfolding request_stop
  on_reported c s =
      let done = record s { phase = idle } in
      if ltb 0 c.max_orders && leb c.max_orders s.placed_orders
      then request_stop (text "max orders reached") done
      else done

module _ (n : Numbers) where
  open n use {Num, of_ℕ, show}

  -- The handling of a signal whose turn it is, up to its first wait. The clock shows `now`, and `later`
  -- after the line of a dry run.
  unfoldable pub handle_order : Config Num → ℕ → ℕ → Job Num → Runtime Num → Runtime Num
  unfolding request_stop count_order
  handle_order c now later j s =
      let decision : Decision = record {
        key = j.key;
        side = j.side;
        reason = build_decision_reason n j.signal c.strategy_prompt;
      } in
      let told = record s { decided = s.decided ++ decision ∷ [] } in
      if s.stop_requested
      then s
      else if ltb 0 c.cooldown_ms && ltb now (s.last_execution_at + c.cooldown_ms)
      then s
      else if ltb 0 c.max_orders && leb c.max_orders s.placed_orders
      then request_stop (text "max orders reached") s
      else if c.dry_run
      then count_order later told
      else record told { phase = executing; spawned = s.spawned ++ build_order_args c j.side ∷ [] }

  -- The next of what waits has its turn.
  unfoldable pub run_task : Config Num → ℕ → ℕ → List (Task Num) → Runtime Num → Runtime Num
  unfolding handle_order
  run_task c now later [] s = s
  run_task c now later (order j ∷ rest) s = handle_order c now later j (record s { tasks = rest })
  run_task c now later (finish ∷ rest) s = record s { tasks = rest; finished = true }

  unfoldable pub take_task : Config Num → ℕ → ℕ → Runtime Num → Runtime Num
  unfolding run_task
  take_task c now later s = run_task c now later s.tasks s

  unfoldable pub agent_of : Fields Num → Text
  agent_of signal = trim (text_or_empty n (get_field (text "agent_name") signal))

  -- `dedupeKey`, with the time of the signal as a text
  unfoldable pub dedupe_key : Fields Num → Text → Text → Text
  unfolding agent_of
  dedupe_key signal side ts =
      let agent = if is_empty (agent_of signal) then text "unknown-agent" else agent_of signal in
      agent ++ b':' ∷ (side ++ b':' ∷ ts)

  abbrev pub enqueued : Job Num → Runtime Num → Runtime Num
  enqueued j s = record s { seen_signals = j.key ∷ s.seen_signals; tasks = s.tasks ++ order j ∷ [] }

  -- `enqueueSignalExecution`
  unfoldable pub enqueue_signal_execution : Job Num → Runtime Num → Runtime Num
  enqueue_signal_execution j s = if any (text_eq j.key) s.seen_signals then s else enqueued j s

  unfoldable pub side_of : Fields Num → Text
  side_of signal = normalize_signal_side (text_or_empty n (get_field (text "side") signal))

  module _ (m : Floats n) (c : Config Num) where
    open m use {floor, less}

    -- Whether a signal with its confidence is left out.
    unfoldable pub is_filtered : Fields Num → Num → Bool
    unfolding agent_of side_of
    is_filtered signal confidence =
        is_empty (side_of signal)
        || (not (is_empty c.agent_name_filter)
            && not (text_eq (agent_of signal) c.agent_name_filter))
        || less confidence c.min_confidence

    unfoldable pub job_of : Fields Num → Num → Job Num
    unfolding dedupe_key side_of
    job_of signal ts = record {
      signal = signal;
      side = side_of signal;
      key = dedupe_key signal (side_of signal) (show (floor ts));
    }

    unfoldable pub filter_signal : Fields Num → Num → Num → Runtime Num → Runtime Num
    unfolding enqueue_signal_execution is_filtered job_of
    filter_signal signal confidence ts s =
        let queued = enqueue_signal_execution (job_of signal ts) s in
        if is_filtered signal confidence then s else queued

    -- The numbers of a signal.
    unfoldable pub read_signal : ℕ → Json Num → Result (Fields Num × (Num × Num))
    read_signal now value = signal_fields n value >>= λ signal.
        to_number n (get_field (text "confidence") signal) (of_ℕ 0) >>= λ confidence.
        to_number n (get_field (text "ts") signal) (of_ℕ (now / 1000)) >>= λ ts.
        ok (signal, (confidence, ts))

    unfoldable pub applied : Result (Fields Num × (Num × Num)) → Script (Runtime Num) (Unit {0})
    applied (ok (signal, (confidence, ts))) s = (ok tt, filter_signal signal confidence ts s)
    applied (err message) s = (err message, s)

    -- One round of the loop over a message's signals.
    unfoldable pub take_signal : ℕ → Json Num → Script (Runtime Num) (Unit {0})
    unfolding read_signal filter_signal applied
    take_signal now value s = applied (read_signal now value) s

    -- A listener that throws ends the process.
    abbrev pub survived : Result (Unit {0}) × Runtime Num → Runtime Num
    survived (ok _, s) = s
    survived (err _, s) = record s { crashed = true }

    unfoldable pub on_message : Option (Json Num) → ℕ → Runtime Num → Runtime Num
    unfolding take_signal
    on_message none now s = s
    on_message (some envelope) now s =
        survived (for_each (take_signal now) (signal_items_from_envelope n envelope) s)
