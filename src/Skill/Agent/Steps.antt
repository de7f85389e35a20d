-- ===== src/Skill/Agent/Steps.antt =====
-- The events that realtime-agent.js handles, in any order, and the states that it can get into.
pub mod Messages
pub mod Counts
pub mod Situations
pub mod Discipline
pub mod Links
pub mod Orders
pub mod Placed
pub mod Bounds
pub mod Ending
use easyclaw.Base.{ℕ, ◌≡◌, Bool, true, false, Option, none, some, Text, text}
use easyclaw.Numbers.{Numbers}
use easyclaw.Backend.Json.{Json}
use easyclaw.Skill.Agent.Values.{Floats}
use easyclaw.Skill.Agent.Config.{Config}
use easyclaw.Skill.Agent.Runtime.{
  Runtime, Ready, connecting, idle, executing, reporting, create_runtime_state, connect_websocket,
  request_stop, on_open, on_close, on_timer, on_executed, on_reported, on_message, take_task,
}

module _ (n : Numbers) (m : Floats n) (c : Config n.Num) where
  open n use {Num}

  -- One event. A message is `none` where `JSON.parse` throws; times and results are any.
  pub data Step (s : Runtime Num) : Runtime Num → Type 0 where
    open_event : s.socket ≡ some connecting → Step s (on_open s)
    message_event :
        (r : Ready) (message : Option (Json Num)) (now : ℕ)
        → s.socket ≡ some r
        → Step s (on_message n m c message now s)
    close_event : (r : Ready) → s.socket ≡ some r → Step s (on_close c s)
    timer_event : (delay : ℕ) → s.timer ≡ some delay → Step s (on_timer s)
    shutdown_event : s.finished ≡ false → Step s (request_stop (text "signal") s)
    task_event : (now later : ℕ) → s.phase ≡ idle → Step s (take_task n c now later s)
    executed_event :
        (success : Bool) (later : ℕ) → s.phase ≡ executing → Step s (on_executed success later s)
    reported_event : s.phase ≡ reporting → Step s (on_reported c s)

  -- `runRealtimeTrading`, up to its first wait
  abbrev pub started : Runtime Num
  started = connect_websocket create_runtime_state

  -- A process that has crashed does nothing more.
  pub data Reachable : Runtime Num → Type 0 where
    start : Reachable started
    later : {s t : Runtime Num} → Reachable s → s.crashed ≡ false → Step s t → Reachable t
