-- ===== src/Skill/Agent/Steps/Bounds.antt =====
-- The delays and attempts of the reconnections.
use easyclaw.Base.{
  ℕ, zero, suc, ◌+◌, ◌-◌, ◌*◌, ◌^◌, ◌≤◌, ◌<◌, ◌≡◌, refl, sym, subst, ◌∙◌, Bool, true, false, not,
  ◌&&◌, ◌||◌, Bool-cases, inl, inr, if-holds, none, some, List, [], ◌∷◌, arith, ltb, leb, is_some,
  Text, text,
}
use easyclaw.Numbers.{Numbers}
use easyclaw.Skill.Agent.Values.{Floats}
use easyclaw.Skill.Agent.Config.{Config, min}
use easyclaw.Skill.Agent.Runtime.{
  Runtime, Job, Task, order, finish, idle, create_runtime_state, connect_websocket, maybe_finalize,
  stopping, request_stop, schedule_reconnect, on_open, on_close, on_timer, count_order, on_executed,
  on_reported, handle_order, run_task, take_task,
}
use easyclaw.Skill.Agent.Steps.{
  Step, Reachable, start, later, open_event, message_event, close_event, timer_event,
  shutdown_event, task_event, executed_event, reported_event,
}
use easyclaw.Skill.Agent.Steps.Messages.{on_message-holds}

-- A pending reconnection waits at least the base delay and at most the longest, and there are no more
-- attempts in a row than allowed.
pub record IsPatient {N : Type 0} (c : Config N) (s : Runtime N) : Type 0 where
  pub attempts : 0 < c.max_reconnect_attempts → s.reconnect_attempts ≤ c.max_reconnect_attempts
  pub delay :
      (d : ℕ) → s.timer ≡ some d → (c.reconnect_base_delay_ms ≤ d) × (d ≤ c.reconnect_max_delay_ms)

pow_pos : (k : ℕ) → 0 < 2 ^ k
pow_pos zero = omega arith
pow_pos (suc k) = omega (arith, pow_pos k)

grows : (b p : ℕ) → 0 < p → b ≤ b * p
grows b zero h = omega arith
grows b (suc q) h = omega arith

some_eq : {x y : ℕ} → some x ≡ some y → x ≡ y
some_eq e = cc

backoff_bounds :
    (most base k : ℕ)
    → base ≤ most
    → (base ≤ min most (base * 2 ^ k)) × (min most (base * 2 ^ k) ≤ most)
backoff_bounds most base k h =
    let large = grows base (2 ^ k) (pow_pos k) in
    elim (Bool-cases (ltb (base * 2 ^ k) most)) [
      | inl less ↦ rw less (large, ground (arith, less))
      | inr more ↦ rw more (h, omega arith)
    ]

module _ {N : Type 0} (c : Config N)
    (sane : c.reconnect_base_delay_ms ≤ c.reconnect_max_delay_ms) where
  same_delay :
      (s t : Runtime N)
      → t.reconnect_attempts ≡ s.reconnect_attempts
      → t.timer ≡ s.timer
      → IsPatient c s
      → IsPatient c t
  same_delay s t ea et h = record {
    attempts = λ pos. rw ea (h.attempts pos);
    delay = λ d e. h.delay d (sym et ∙ e);
  }

  untimed :
      (s t : Runtime N)
      → t.reconnect_attempts ≡ s.reconnect_attempts
      → t.timer ≡ none
      → IsPatient c s
      → IsPatient c t
  untimed s t ea et h = record { attempts = λ pos. rw ea (h.attempts pos); delay = λ d e. cc }

  maybe_finalize-IsPatient : (s : Runtime N) → IsPatient c s → IsPatient c (maybe_finalize s)
  unfolding maybe_finalize
  maybe_finalize-IsPatient s h =
      if-holds (IsPatient c) (not s.stop_requested || is_some s.socket || is_some s.timer) s _
        (λ no. h) (λ yes. same_delay s _ refl refl h)

  request_stop-IsPatient :
      (reason : Text) (s : Runtime N) → IsPatient c s → IsPatient c (request_stop reason s)
  unfolding request_stop
  request_stop-IsPatient reason s h =
      if-holds (IsPatient c) s.stop_requested s _ (λ stopped. h)
        (λ running. maybe_finalize-IsPatient (stopping reason s) (untimed s _ refl refl h))

  room_left :
      (s : Runtime N)
      → (ltb 0 c.max_reconnect_attempts && ltb c.max_reconnect_attempts (suc s.reconnect_attempts))
        ≡ false
      → 0 < c.max_reconnect_attempts
      → suc s.reconnect_attempts ≤ c.max_reconnect_attempts
  room_left s again pos = ground arith

  schedule_reconnect-IsPatient :
      (s : Runtime N) → IsPatient c s → IsPatient c (schedule_reconnect c s)
  unfolding schedule_reconnect
  schedule_reconnect-IsPatient s h =
      if-holds (IsPatient c) s.stop_requested s _ (λ stopped. h)
        (λ running.
          if-holds (IsPatient c)
            (ltb 0 c.max_reconnect_attempts
              && ltb c.max_reconnect_attempts (suc s.reconnect_attempts))
            _ _
            (λ given_up.
              request_stop-IsPatient _ (record s { exit_code = 1 }) (same_delay s _ refl refl h))
            (λ again. record {
              attempts = room_left s again;
              delay = λ d e.
                  subst (λ x. (c.reconnect_base_delay_ms ≤ x) × (x ≤ c.reconnect_max_delay_ms))
                    (some_eq e)
                    (backoff_bounds c.reconnect_max_delay_ms c.reconnect_base_delay_ms
                      (suc s.reconnect_attempts - 1) sane);
            }))

  on_close-IsPatient : (s : Runtime N) → IsPatient c s → IsPatient c (on_close c s)
  unfolding on_close
  on_close-IsPatient s h =
      let dropped = same_delay s (record s { socket = none }) refl refl h in
      if-holds (IsPatient c) s.stop_requested _ _
        (λ stopped. maybe_finalize-IsPatient (record s { socket = none }) dropped)
        (λ running. schedule_reconnect-IsPatient (record s { socket = none }) dropped)

  on_timer-IsPatient : (s : Runtime N) → IsPatient c s → IsPatient c (on_timer s)
  unfolding on_timer connect_websocket
  on_timer-IsPatient s h =
      if-holds (IsPatient c) s.stop_requested _ _ (λ stopped. untimed s _ refl refl h)
        (λ running. untimed s _ refl refl h)

  on_executed-IsPatient :
      (success : Bool) (after : ℕ) (s : Runtime N)
      → IsPatient c s
      → IsPatient c (on_executed success after s)
  unfolding on_executed count_order
  on_executed-IsPatient true after s h = same_delay s _ refl refl h
  on_executed-IsPatient false after s h = same_delay s _ refl refl h

  on_reported-IsPatient : (s : Runtime N) → IsPatient c s → IsPatient c (on_reported c s)
  unfolding on_reported
  on_reported-IsPatient s h =
      let done = same_delay s (record s { phase = idle }) refl refl h in
      if-holds (IsPatient c) (ltb 0 c.max_orders && leb c.max_orders s.placed_orders) _ _
        (λ full.
          request_stop-IsPatient (text "max orders reached") (record s { phase = idle }) done)
        (λ free. done)

module _ (n : Numbers) (m : Floats n) (c : Config n.Num)
    (sane : c.reconnect_base_delay_ms ≤ c.reconnect_max_delay_ms) where
  open n use {Num}

  handle_order-IsPatient :
      (now after : ℕ) (j : Job Num) (s : Runtime Num)
      → IsPatient c s
      → IsPatient c (handle_order n c now after j s)
  unfolding handle_order count_order
  handle_order-IsPatient now after j s h =
      if-holds (IsPatient c) s.stop_requested s _ (λ stopped. h)
        (λ running.
          if-holds (IsPatient c)
            (ltb 0 c.cooldown_ms && ltb now (s.last_execution_at + c.cooldown_ms)) s _
            (λ cooling. h)
            (λ ready.
              if-holds (IsPatient c) (ltb 0 c.max_orders && leb c.max_orders s.placed_orders) _ _
                (λ full. request_stop-IsPatient c sane (text "max orders reached") s h)
                (λ free.
                  if-holds (IsPatient c) c.dry_run _ _ (λ dry. same_delay c sane s _ refl refl h)
                    (λ wet. same_delay c sane s _ refl refl h))))

  run_task-IsPatient :
      (now after : ℕ) (ts : List (Task Num)) (s : Runtime Num)
      → IsPatient c s
      → IsPatient c (run_task n c now after ts s)
  unfolding run_task
  run_task-IsPatient now after [] s h = h
  run_task-IsPatient now after (order j ∷ rest) s h =
      handle_order-IsPatient now after j (record s { tasks = rest })
        (same_delay c sane s _ refl refl h)
  run_task-IsPatient now after (finish ∷ rest) s h = same_delay c sane s _ refl refl h

  step-IsPatient : (s t : Runtime Num) → IsPatient c s → Step n m c s t → IsPatient c t
  unfolding take_task on_open
  step-IsPatient s t h (open_event here) = record { attempts = λ pos. omega arith; delay = h.delay }
  step-IsPatient s t h (message_event r message now here) =
      on_message-holds n m c (IsPatient c) (λ j u side new k. same_delay c sane u _ refl refl k)
        (λ u k. same_delay c sane u _ refl refl k) message now s h
  step-IsPatient s t h (close_event r here) = on_close-IsPatient c sane s h
  step-IsPatient s t h (timer_event delay here) = on_timer-IsPatient c sane s h
  step-IsPatient s t h (shutdown_event here) = request_stop-IsPatient c sane (text "signal") s h
  step-IsPatient s t h (task_event now after here) = run_task-IsPatient now after s.tasks s h
  step-IsPatient s t h (executed_event success after here) =
      on_executed-IsPatient c sane success after s h
  step-IsPatient s t h (reported_event here) = on_reported-IsPatient c sane s h

  -- With a base delay of at most the longest, as `main` makes it, a reconnection that is pending in a
  -- state that the agent can reach waits within the two, and the attempts stay within their limit.
  pub reachable-IsPatient : (s : Runtime Num) → Reachable n m c s → IsPatient c s
  unfolding create_runtime_state connect_websocket
  reachable-IsPatient s start = record { attempts = λ pos. omega arith; delay = λ d e. cc }
  reachable-IsPatient t (later {s} r alive step) = step-IsPatient s t (reachable-IsPatient s r) step
