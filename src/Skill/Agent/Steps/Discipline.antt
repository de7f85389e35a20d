-- ===== src/Skill/Agent/Steps/Discipline.antt =====
-- What is asked of the orders of the agent, and what its handlers keep.
use easyclaw.Base.{
  ℕ, suc, ◌+◌, ◌≤◌, ◌<◌, ◌≡◌, refl, Bool, true, false, not, ◌&&◌, ◌||◌, if-holds, none, List, [],
  ◌∷◌, arith, All, All-append, ltb, leb, is_some, Text, text,
}
use easyclaw.Skill.Agent.Config.{Config, build_order_args}
use easyclaw.Skill.Agent.Runtime.{
  Runtime, Task, order, finish, idle, executing, connect_websocket, maybe_finalize, stopping,
  request_stop, schedule_reconnect, on_open, on_close, on_timer, count_order, on_executed,
  on_reported,
}
use easyclaw.Skill.Agent.Steps.Counts.{count, queued, decisions, queued-append}
use easyclaw.Skill.Agent.Steps.Messages.{IsSide}

abbrev pub IsSided : {N : Type 0} → Task N → Type 0
IsSided (order j) = IsSide j.side
IsSided finish = Unit

-- The command line of an order of this configuration.
abbrev pub IsCommand : {N : Type 0} → Config N → List Text → Type 0
IsCommand c line = (side : Text) × IsSide side × (line ≡ build_order_args c side)

-- With `--max-orders` there are no more orders than that, also while one is in progress. No key is
-- seen twice, or decided on more often than seen. Every command is an order of the configuration for
-- one of the two sides, and a dry run has none.
pub record IsOrderly {N : Type 0} (c : Config N) (s : Runtime N) : Type 0 where
  pub placed : 0 < c.max_orders → s.placed_orders ≤ c.max_orders
  pub running : s.phase ≡ executing → 0 < c.max_orders → s.placed_orders < c.max_orders
  pub decided_once : (k : Text) → decisions k s.decided + queued k s.tasks ≤ count k s.seen_signals
  pub seen_once : (k : Text) → count k s.seen_signals ≤ 1
  pub sided : All IsSided s.tasks
  pub commands : All (IsCommand c) s.spawned
  pub dry : c.dry_run ≡ true → s.spawned ≡ []

module _ {N : Type 0} (c : Config N) where
  -- What the orders depend on.
  pub carried :
      (s t : Runtime N)
      → t.placed_orders ≡ s.placed_orders
      → (t.phase ≡ executing → s.phase ≡ executing)
      → t.seen_signals ≡ s.seen_signals
      → t.decided ≡ s.decided
      → t.spawned ≡ s.spawned
      → ((k : Text) → queued k t.tasks ≤ queued k s.tasks)
      → All IsSided t.tasks
      → IsOrderly c s
      → IsOrderly c t
  carried s t ep eh es ed ec eq sides h = record {
    placed = λ pos. rw ep (h.placed pos);
    running = λ now pos. rw ep (h.running (eh now) pos);
    decided_once = λ k. rw (ed, es) (omega (arith, h.decided_once k, eq k));
    seen_once = λ k. rw es (h.seen_once k);
    sided = sides;
    commands = rw ec h.commands;
    dry = λ d. rw ec (h.dry d);
  }

  pub same_orders :
      (s t : Runtime N)
      → t.placed_orders ≡ s.placed_orders
      → (t.phase ≡ executing → s.phase ≡ executing)
      → t.seen_signals ≡ s.seen_signals
      → t.decided ≡ s.decided
      → t.spawned ≡ s.spawned
      → t.tasks ≡ s.tasks
      → IsOrderly c s
      → IsOrderly c t
  same_orders s t ep eh es ed ec et h =
      carried s t ep eh es ed ec (λ k. rw et (omega arith)) (rw et h.sided) h

  maybe_finalize-IsOrderly : (s : Runtime N) → IsOrderly c s → IsOrderly c (maybe_finalize s)
  unfolding maybe_finalize
  maybe_finalize-IsOrderly s h =
      if-holds (IsOrderly c) (not s.stop_requested || is_some s.socket || is_some s.timer) s _
        (λ no. h)
        (λ yes.
          carried s _ refl (λ e. e) refl refl refl
            (λ k. omega (arith, queued-append k s.tasks (finish ∷ [])))
            (All-append IsSided s.tasks (finish ∷ []) h.sided (tt, tt)) h)

  pub request_stop-IsOrderly :
      (reason : Text) (s : Runtime N) → IsOrderly c s → IsOrderly c (request_stop reason s)
  unfolding request_stop
  request_stop-IsOrderly reason s h =
      if-holds (IsOrderly c) s.stop_requested s _ (λ stopped. h)
        (λ running.
          maybe_finalize-IsOrderly (stopping reason s)
            (same_orders s _ refl (λ e. e) refl refl refl refl h))

  schedule_reconnect-IsOrderly :
      (s : Runtime N) → IsOrderly c s → IsOrderly c (schedule_reconnect c s)
  unfolding schedule_reconnect
  schedule_reconnect-IsOrderly s h =
      if-holds (IsOrderly c) s.stop_requested s _ (λ stopped. h)
        (λ running.
          if-holds (IsOrderly c)
            (ltb 0 c.max_reconnect_attempts
              && ltb c.max_reconnect_attempts (suc s.reconnect_attempts))
            _ _
            (λ given_up.
              request_stop-IsOrderly _ (record s { exit_code = 1 })
                (same_orders s _ refl (λ e. e) refl refl refl refl h))
            (λ again. same_orders s _ refl (λ e. e) refl refl refl refl h))

  pub on_open-IsOrderly : (s : Runtime N) → IsOrderly c s → IsOrderly c (on_open s)
  unfolding on_open
  on_open-IsOrderly s h = same_orders s _ refl (λ e. e) refl refl refl refl h

  pub on_close-IsOrderly : (s : Runtime N) → IsOrderly c s → IsOrderly c (on_close c s)
  unfolding on_close
  on_close-IsOrderly s h =
      let dropped =
        same_orders s (record s { socket = none }) refl (λ e. e) refl refl refl refl h in
      if-holds (IsOrderly c) s.stop_requested _ _
        (λ stopped. maybe_finalize-IsOrderly (record s { socket = none }) dropped)
        (λ running. schedule_reconnect-IsOrderly (record s { socket = none }) dropped)

  pub on_timer-IsOrderly : (s : Runtime N) → IsOrderly c s → IsOrderly c (on_timer s)
  unfolding on_timer connect_websocket
  on_timer-IsOrderly s h =
      if-holds (IsOrderly c) s.stop_requested _ _
        (λ stopped. same_orders s _ refl (λ e. e) refl refl refl refl h)
        (λ running. same_orders s _ refl (λ e. e) refl refl refl refl h)

  pub on_executed-IsOrderly :
      (success : Bool) (after : ℕ) (s : Runtime N)
      → s.phase ≡ executing
      → IsOrderly c s
      → IsOrderly c (on_executed success after s)
  unfolding on_executed count_order
  on_executed-IsOrderly true after s now h = record {
    placed = λ pos. h.running now pos;
    running = λ e. cc;
    decided_once = h.decided_once;
    seen_once = h.seen_once;
    sided = h.sided;
    commands = h.commands;
    dry = h.dry;
  }
  on_executed-IsOrderly false after s now h = same_orders s _ refl (λ e. cc) refl refl refl refl h

  pub on_reported-IsOrderly : (s : Runtime N) → IsOrderly c s → IsOrderly c (on_reported c s)
  unfolding on_reported
  on_reported-IsOrderly s h =
      let done = same_orders s (record s { phase = idle }) refl (λ e. cc) refl refl refl refl h in
      if-holds (IsOrderly c) (ltb 0 c.max_orders && leb c.max_orders s.placed_orders) _ _
        (λ full.
          request_stop-IsOrderly (text "max orders reached") (record s { phase = idle }) done)
        (λ free. done)
