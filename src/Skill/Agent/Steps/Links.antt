-- ===== src/Skill/Agent/Steps/Links.antt =====
-- The situations of the running agent: its socket, its timer and its end.
use easyclaw.Base.{ℕ, ◌+◌, ◌≡◌, refl, true, ◌&&◌, if-holds, List, [], ◌∷◌, ltb, leb, text}
use easyclaw.Numbers.{Numbers}
use easyclaw.Skill.Agent.Values.{Floats}
use easyclaw.Skill.Agent.Config.{Config}
use easyclaw.Skill.Agent.Steps.Messages.{on_message-holds}
use easyclaw.Skill.Agent.Runtime.{
  run_task, enqueued, Runtime, connecting, Job, Task, order, finish, create_runtime_state,
  connect_websocket, count_order, handle_order, take_task,
}
use easyclaw.Skill.Agent.Steps.{
  Step, Reachable, start, later, open_event, message_event, close_event, timer_event,
  shutdown_event, task_event, executed_event, reported_event,
}
use easyclaw.Skill.Agent.Steps.Situations.{
  IsLinked, has_finish-append, request_stop-IsLinked, on_open-IsLinked, on_close-IsLinked,
  on_timer-IsLinked, same-IsLinked, on_executed-IsLinked, on_reported-IsLinked, online, waiting,
  leaving, ending,
}

module _ (n : Numbers) (m : Floats n) (c : Config n.Num) where
  open n use {Num}

  handle_order-IsLinked :
      (now after : ℕ) (j : Job Num) (s : Runtime Num)
      → IsLinked s
      → IsLinked (handle_order n c now after j s)
  unfolding handle_order count_order
  handle_order-IsLinked now after j s h =
      if-holds IsLinked s.stop_requested _ _ (λ stopped. h)
        (λ running.
          if-holds IsLinked (ltb 0 c.cooldown_ms && ltb now (s.last_execution_at + c.cooldown_ms)) _
            _ (λ cooling. h)
            (λ ready.
              if-holds IsLinked (ltb 0 c.max_orders && leb c.max_orders s.placed_orders) _ _
                (λ full. request_stop-IsLinked (text "max orders reached") s h)
                (λ free.
                  if-holds IsLinked c.dry_run _ _
                    (λ dry. same-IsLinked s _ refl refl refl refl refl h)
                    (λ wet. same-IsLinked s _ refl refl refl refl refl h))))

  finished-IsLinked :
      (s : Runtime Num) (rest : List (Task Num))
      → IsLinked (record s { tasks = finish ∷ rest })
      → IsLinked (record s { tasks = rest; finished = true })
  finished-IsLinked s rest (online r stop socket timer fin tasks) = cc
  finished-IsLinked s rest (waiting delay stop socket timer fin tasks) = cc
  finished-IsLinked s rest (leaving stop socket timer fin tasks) = cc
  finished-IsLinked s rest (ending stop socket timer fin) = ending stop socket timer refl

  run_task-IsLinked :
      (now after : ℕ) (ts : List (Task Num)) (s : Runtime Num)
      → s.tasks ≡ ts
      → IsLinked s
      → IsLinked (run_task n c now after ts s)
  unfolding run_task
  run_task-IsLinked now after [] s e h = h
  run_task-IsLinked now after (order j ∷ rest) s e h =
      handle_order-IsLinked now after j (record s { tasks = rest })
        (same-IsLinked s _ refl refl refl refl (rw e refl) h)
  run_task-IsLinked now after (finish ∷ rest) s e h =
      finished-IsLinked s rest (same-IsLinked s _ refl refl refl refl (rw e refl) h)

  enqueued-IsLinked : (j : Job Num) (s : Runtime Num) → IsLinked s → IsLinked (enqueued n j s)
  enqueued-IsLinked j s h =
      same-IsLinked s _ refl refl refl refl (has_finish-append s.tasks (order j)) h

  crashed-IsLinked : (s : Runtime Num) → IsLinked s → IsLinked (record s { crashed = true })
  crashed-IsLinked s h = same-IsLinked s _ refl refl refl refl refl h

  step-IsLinked : (s t : Runtime Num) → IsLinked s → Step n m c s t → IsLinked t
  unfolding take_task
  step-IsLinked s t h (open_event here) = on_open-IsLinked s here h
  step-IsLinked s t h (message_event r message now here) =
      on_message-holds n m c IsLinked (λ j u side new. enqueued-IsLinked j u) crashed-IsLinked
        message now s h
  step-IsLinked s t h (close_event r here) = on_close-IsLinked c s r here h
  step-IsLinked s t h (timer_event delay here) = on_timer-IsLinked s delay here h
  step-IsLinked s t h (shutdown_event here) = request_stop-IsLinked (text "signal") s h
  step-IsLinked s t h (task_event now after here) = run_task-IsLinked now after s.tasks s refl h
  step-IsLinked s t h (executed_event success after here) = on_executed-IsLinked success after s h
  step-IsLinked s t h (reported_event here) = on_reported-IsLinked c s h

  -- In every state that the agent can reach it is in one of the four situations. It never stops
  -- reconnecting unless a stop was requested, and a stop never leaves a timer or an open socket behind.
  pub reachable-IsLinked : (s : Runtime Num) → Reachable n m c s → IsLinked s
  unfolding create_runtime_state connect_websocket
  reachable-IsLinked s start = online connecting refl refl refl refl refl
  reachable-IsLinked t (later {s} r alive step) = step-IsLinked s t (reachable-IsLinked s r) step
