-- ===== src/Skill/Agent/Steps/Placed.antt =====
-- About the orders that a run of the agent carries out, beside the counter that the agent keeps of them.
use easyclaw.Base.{
  ℕ, suc, ◌+◌, ◌-◌, ◌≤◌, ◌<◌, ◌≡◌, refl, subst, true, false, not, ◌&&◌, ◌||◌, if-holds, none, List,
  [], ◌∷◌, ◌++◌, arith, if◌then◌else◌, ltb, leb, is_some, length, Text, text,
}
use easyclaw.Numbers.{Numbers}
use easyclaw.Skill.Agent.Values.{Floats}
use easyclaw.Skill.Agent.Config.{Config}
use easyclaw.Skill.Agent.Runtime.{
  Runtime, Job, Task, order, finish, create_runtime_state, connect_websocket, maybe_finalize,
  stopping, request_stop, schedule_reconnect, on_open, on_close, on_timer, count_order, on_executed,
  on_reported, handle_order, run_task, take_task,
}
use easyclaw.Skill.Agent.Steps.{
  Step, Reachable, start, later, open_event, message_event, close_event, timer_event,
  shutdown_event, task_event, executed_event, reported_event,
}
use easyclaw.Skill.Agent.Steps.Messages.{on_message-holds}
use easyclaw.Skill.Agent.Steps.Discipline.{IsOrderly}
use easyclaw.Skill.Agent.Steps.Orders.{reachable-IsOrderly}

length-snoc {ℓ} : {A : Type ℓ} (xs : List A) (x : A) → length (xs ++ x ∷ []) ≡ suc (length xs)
length-snoc [] x = refl
length-snoc (y ∷ xs) x = omega (arith, length-snoc xs x)

-- Neither the counter nor the decisions have changed.
abbrev Quiet : {N : Type 0} → Runtime N → Runtime N → Type 0
Quiet s t = (t.placed_orders ≡ s.placed_orders) × (t.decided ≡ s.decided)

module _ {N : Type 0} (r : Runtime N) where
  maybe_finalize-Quiet : (s : Runtime N) → Quiet r s → Quiet r (maybe_finalize s)
  unfolding maybe_finalize
  maybe_finalize-Quiet s h =
      if-holds (Quiet r) (not s.stop_requested || is_some s.socket || is_some s.timer) s _ (λ no. h)
        (λ yes. h)

  request_stop-Quiet : (reason : Text) (s : Runtime N) → Quiet r s → Quiet r (request_stop reason s)
  unfolding request_stop
  request_stop-Quiet reason s h =
      if-holds (Quiet r) s.stop_requested s _ (λ stopped. h)
        (λ running. maybe_finalize-Quiet (stopping reason s) h)

  connect_websocket-Quiet : (s : Runtime N) → Quiet r s → Quiet r (connect_websocket s)
  unfolding connect_websocket
  connect_websocket-Quiet s h =
      if-holds (Quiet r) s.stop_requested s _ (λ stopped. h) (λ running. h)

  schedule_reconnect-Quiet :
      (c : Config N) (s : Runtime N) → Quiet r s → Quiet r (schedule_reconnect c s)
  unfolding schedule_reconnect
  schedule_reconnect-Quiet c s h =
      if-holds (Quiet r) s.stop_requested s _ (λ stopped. h)
        (λ running.
          if-holds (Quiet r)
            (ltb 0 c.max_reconnect_attempts
              && ltb c.max_reconnect_attempts (suc s.reconnect_attempts))
            _ _ (λ given_up. request_stop-Quiet _ (record s { exit_code = 1 }) h) (λ again. h))

  on_close-Quiet : (c : Config N) (s : Runtime N) → Quiet r s → Quiet r (on_close c s)
  unfolding on_close
  on_close-Quiet c s h =
      if-holds (Quiet r) s.stop_requested _ _
        (λ stopped. maybe_finalize-Quiet (record s { socket = none }) h)
        (λ running. schedule_reconnect-Quiet c (record s { socket = none }) h)

  on_reported-Quiet : (c : Config N) (s : Runtime N) → Quiet r s → Quiet r (on_reported c s)
  unfolding on_reported
  on_reported-Quiet c s h =
      if-holds (Quiet r) (ltb 0 c.max_orders && leb c.max_orders s.placed_orders) _ _
        (λ full. request_stop-Quiet (text "max orders reached") _ h) (λ free. h)

module _ (n : Numbers) (m : Floats n) (c : Config n.Num) where
  open n use {Num}

  -- The orders of a turn: in a dry run every decision is one.
  abbrev pub dry_orders : Runtime Num → Runtime Num → ℕ
  dry_orders s t = if c.dry_run then length t.decided - length s.decided else 0

  -- The orders that an event carries out: a command that succeeded is one.
  abbrev pub orders_of : (s t : Runtime Num) → Step n m c s t → ℕ
  orders_of s t (open_event here) = 0
  orders_of s t (message_event r message now here) = 0
  orders_of s t (close_event r here) = 0
  orders_of s t (timer_event delay here) = 0
  orders_of s t (shutdown_event here) = 0
  orders_of s t (task_event now after here) = dry_orders s t
  orders_of s t (executed_event success after here) = if success then 1 else 0
  orders_of s t (reported_event here) = 0

  -- The orders of the run behind a state.
  abbrev pub orders_so_far : (s : Runtime Num) → Reachable n m c s → ℕ
  orders_so_far s start = 0
  orders_so_far t (later {s} r alive step) = orders_of s t step + orders_so_far s r

  Counted : Runtime Num → Runtime Num → Type 0
  Counted s t = t.placed_orders ≡ dry_orders s t + s.placed_orders

  Quiet-Counted : (s t : Runtime Num) → Quiet s t → Counted s t
  unfolding Counted
  Quiet-Counted s t (placed, decided) = rw (placed, decided) (ground arith)

  handle_order-Counted :
      (now after : ℕ) (j : Job Num) (s : Runtime Num) → Counted s (handle_order n c now after j s)
  unfolding handle_order count_order Counted
  handle_order-Counted now after j s =
      if-holds (Counted s) s.stop_requested s _ (λ stopped. Quiet-Counted s s (refl, refl))
        (λ running.
          if-holds (Counted s)
            (ltb 0 c.cooldown_ms && ltb now (s.last_execution_at + c.cooldown_ms)) s _
            (λ cooling. Quiet-Counted s s (refl, refl))
            (λ ready.
              if-holds (Counted s) (ltb 0 c.max_orders && leb c.max_orders s.placed_orders) _ _
                (λ full.
                  Quiet-Counted s (request_stop (text "max orders reached") s)
                    (request_stop-Quiet s (text "max orders reached") s (refl, refl)))
                (λ room.
                  if-holds (Counted s) c.dry_run _ _
                    (λ dry. rw dry (omega (arith, length-snoc s.decided _)))
                    (λ wet. rw wet (omega arith)))))

  run_task-Counted :
      (now after : ℕ) (ts : List (Task Num)) (s : Runtime Num)
      → Counted s (run_task n c now after ts s)
  unfolding run_task
  run_task-Counted now after [] s = Quiet-Counted s s (refl, refl)
  run_task-Counted now after (order j ∷ rest) s =
      unfold Counted in handle_order-Counted now after j (record s { tasks = rest })
  run_task-Counted now after (finish ∷ rest) s = Quiet-Counted s _ (refl, refl)

  step-placed :
      (s t : Runtime Num) (e : Step n m c s t) → t.placed_orders ≡ orders_of s t e + s.placed_orders
  unfolding take_task on_open on_timer on_executed count_order
  step-placed s t (open_event here) = omega arith
  step-placed s t (message_event r message now here) = omega (
    arith,
    on_message-holds n m c (λ u. u.placed_orders ≡ s.placed_orders) (λ j u side new h. h) (λ u h. h)
        message now s refl,
  )
  step-placed s t (close_event r here) = omega (arith, (on_close-Quiet s c s (refl, refl)).0)
  step-placed s t (timer_event delay here) =
      omega (arith, (connect_websocket-Quiet s (record s { timer = none }) (refl, refl)).0)
  step-placed s t (shutdown_event here) =
      omega (arith, (request_stop-Quiet s (text "signal") s (refl, refl)).0)
  step-placed s t (task_event now after here) =
      unfold Counted in run_task-Counted now after s.tasks s
  step-placed s t (executed_event true after here) = omega arith
  step-placed s t (executed_event false after here) = omega arith
  step-placed s t (reported_event here) = omega (arith, (on_reported-Quiet s c s (refl, refl)).0)

  reachable-placed : (s : Runtime Num) (r : Reachable n m c s) → s.placed_orders ≡ orders_so_far s r
  unfolding create_runtime_state connect_websocket
  reachable-placed s start = refl
  reachable-placed t (later {s} r alive step) =
      omega (arith, step-placed s t step, reachable-placed s r)

  -- Along every run of the agent, whatever its events and their order: with `--max-orders` the commands
  -- that succeeded, or in a dry run the decisions, are never more than that, and the counter is their
  -- number. No signal is decided on more often than once, every command is an order of the configuration
  -- for one of the two sides, and a dry run has none.
  pub reachable-IsBounded :
      (s : Runtime Num) (r : Reachable n m c s)
      → (0 < c.max_orders → orders_so_far s r ≤ c.max_orders)
        × (s.placed_orders ≡ orders_so_far s r)
        × IsOrderly c s
  reachable-IsBounded s r =
      let orderly = reachable-IsOrderly n m c s r in
      let counted = reachable-placed s r in
      (λ pos. subst (λ k. k ≤ c.max_orders) counted (orderly.placed pos), counted, orderly)
