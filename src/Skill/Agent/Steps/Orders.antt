-- ===== src/Skill/Agent/Steps/Orders.antt =====
-- The orders of the agent: their number, the signals behind them and what they ask for.
use easyclaw.Base.{
  ℕ, ◌+◌, ◌≤◌, ◌<◌, ◌≡◌, refl, ap, subst, inl, inr, false, ◌&&◌, Bool-cases, if-holds, List, [],
  ◌∷◌, ◌++◌, arith, All, All-append, ltb, leb, any, Text, text, text_eq, text_eq_iff,
}
use easyclaw.Numbers.{Numbers}
use easyclaw.Skill.Agent.Values.{Floats}
use easyclaw.Skill.Agent.Config.{Config}
use easyclaw.Skill.Agent.Runtime.{
  Runtime, Job, Task, order, finish, idle, Decision, create_runtime_state, connect_websocket,
  count_order, handle_order, run_task, take_task, enqueued,
}
use easyclaw.Skill.Agent.Steps.{
  Step, Reachable, start, later, open_event, message_event, close_event, timer_event,
  shutdown_event, task_event, executed_event, reported_event,
}
use easyclaw.Skill.Agent.Steps.Counts.{
  hit, count, queued, decisions, queued-append, decisions-append, unseen,
}
use easyclaw.Skill.Agent.Steps.Messages.{IsSide, on_message-holds}
use easyclaw.Skill.Agent.Steps.Discipline.{
  IsSided, IsCommand, IsOrderly, carried, same_orders, request_stop-IsOrderly, on_open-IsOrderly,
  on_close-IsOrderly, on_timer-IsOrderly, on_executed-IsOrderly, on_reported-IsOrderly,
}

module _ (n : Numbers) (m : Floats n) (c : Config n.Num) where
  open n use {Num}

  -- A decision, when there is room for the order.
  decided_on :
      (j : Job Num) (d : Decision) (s : Runtime Num)
      → d.key ≡ j.key
      → ((k : Text)
          → decisions k s.decided + (hit k j.key + queued k s.tasks) ≤ count k s.seen_signals)
      → (k : Text) → decisions k (s.decided ++ d ∷ []) + queued k s.tasks ≤ count k s.seen_signals
  decided_on j d s same room k =
      omega (arith, room k, decisions-append k s.decided d, ap (hit k) same)

  handle_order-IsOrderly :
      (now after : ℕ) (j : Job Num) (s : Runtime Num)
      → s.phase ≡ idle
      → IsSide j.side
      → ((k : Text)
          → decisions k s.decided + (hit k j.key + queued k s.tasks) ≤ count k s.seen_signals)
      → IsOrderly c s
      → IsOrderly c (handle_order n c now after j s)
  unfolding handle_order count_order
  handle_order-IsOrderly now after j s free side room h =
      if-holds (IsOrderly c) s.stop_requested s _ (λ stopped. h)
        (λ running.
          if-holds (IsOrderly c)
            (ltb 0 c.cooldown_ms && ltb now (s.last_execution_at + c.cooldown_ms)) s _
            (λ cooling. h)
            (λ ready.
              if-holds (IsOrderly c) (ltb 0 c.max_orders && leb c.max_orders s.placed_orders) _ _
                (λ full. request_stop-IsOrderly c (text "max orders reached") s h)
                (λ room_left.
                  if-holds (IsOrderly c) c.dry_run _ _
                    (λ dry. record {
                      placed = λ pos. below pos room_left;
                      running = λ e. cc;
                      decided_once = decided_on j _ s refl room;
                      seen_once = h.seen_once;
                      sided = h.sided;
                      commands = h.commands;
                      dry = h.dry;
                    })
                    (λ wet. record {
                      placed = h.placed;
                      running = λ e pos. below pos room_left;
                      decided_once = decided_on j _ s refl room;
                      seen_once = h.seen_once;
                      sided = h.sided;
                      commands =
                          All-append (IsCommand c) s.spawned _ h.commands
                            ((j.side, side, refl), tt);
                      dry = λ d. cc;
                    }))))
    where
      below :
          0 < c.max_orders
          → (ltb 0 c.max_orders && leb c.max_orders s.placed_orders) ≡ false
          → s.placed_orders < c.max_orders
      below pos room = ground arith

  run_task-IsOrderly :
      (now after : ℕ) (ts : List (Task Num)) (s : Runtime Num)
      → s.tasks ≡ ts
      → s.phase ≡ idle
      → IsOrderly c s
      → IsOrderly c (run_task n c now after ts s)
  unfolding run_task
  run_task-IsOrderly now after [] s e free h = h
  run_task-IsOrderly now after (order j ∷ rest) s e free h =
      let sides = subst (All IsSided) e h.sided in
      handle_order-IsOrderly now after j (record s { tasks = rest }) free sides.0
        (λ k. omega (arith, h.decided_once k, ap (queued k) e))
        (carried c s (record s { tasks = rest }) refl (λ x. x) refl refl refl
          (λ k. omega (arith, ap (queued k) e)) sides.1 h)
  run_task-IsOrderly now after (finish ∷ rest) s e free h =
      let sides = subst (All IsSided) e h.sided in
      carried c s _ refl (λ x. x) refl refl refl (λ k. omega (arith, ap (queued k) e)) sides.1 h

  enqueued-IsOrderly :
      (j : Job Num) (s : Runtime Num)
      → IsSide j.side
      → any (text_eq j.key) s.seen_signals ≡ false
      → IsOrderly c s
      → IsOrderly c (enqueued n j s)
  enqueued-IsOrderly j s side new h = record {
    placed = h.placed;
    running = h.running;
    decided_once = λ k. omega (arith, h.decided_once k, queued-append k s.tasks (order j ∷ []));
    seen_once = λ k. elim (Bool-cases (text_eq k j.key)) [
      | inl same ↦
          let first = unseen j.key s.seen_signals new in
          ground (arith, ap (λ l. count l s.seen_signals) ((text_eq_iff k j.key).0 same))
      | inr other ↦ ground (arith, h.seen_once k)
    ];
    sided = All-append IsSided s.tasks (order j ∷ []) h.sided (side, tt);
    commands = h.commands;
    dry = h.dry;
  }

  step-IsOrderly : (s t : Runtime Num) → IsOrderly c s → Step n m c s t → IsOrderly c t
  unfolding take_task
  step-IsOrderly s t h (open_event here) = on_open-IsOrderly c s h
  step-IsOrderly s t h (message_event r message now here) =
      on_message-holds n m c (IsOrderly c) enqueued-IsOrderly
        (λ u k. same_orders c u _ refl (λ e. e) refl refl refl refl k) message now s h
  step-IsOrderly s t h (close_event r here) = on_close-IsOrderly c s h
  step-IsOrderly s t h (timer_event delay here) = on_timer-IsOrderly c s h
  step-IsOrderly s t h (shutdown_event here) = request_stop-IsOrderly c (text "signal") s h
  step-IsOrderly s t h (task_event now after here) =
      run_task-IsOrderly now after s.tasks s refl here h
  step-IsOrderly s t h (executed_event success after here) =
      on_executed-IsOrderly c success after s here h
  step-IsOrderly s t h (reported_event here) = on_reported-IsOrderly c s h

  -- In every state that the agent can reach, its orders are in order: within `--max-orders`, no signal
  -- decided on twice, every command an order of the configuration, and none in a dry run.
  pub reachable-IsOrderly : (s : Runtime Num) → Reachable n m c s → IsOrderly c s
  unfolding create_runtime_state connect_websocket
  reachable-IsOrderly s start = record {
    placed = λ pos. omega arith;
    running = λ e. cc;
    decided_once = λ k. omega arith;
    seen_once = λ k. omega arith;
    sided = tt;
    commands = tt;
    dry = λ d. refl;
  }
  reachable-IsOrderly t (later {s} r alive step) = step-IsOrderly s t (reachable-IsOrderly s r) step
