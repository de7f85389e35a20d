-- ===== src/Skill/Agent/Steps/Ending.antt =====
-- About the agent after a stop.
use easyclaw.Base.{
  ℕ, suc, ◌+◌, ◌≤◌, ◌≡◌, refl, sym, ap, subst, if-holds, ltb, leb, ◌∙◌, ◌≢◌, Bool, true, false,
  ◌&&◌, none, List, [], ◌∷◌, arith, length, Text, text,
}
use easyclaw.Numbers.{Numbers}
use easyclaw.Skill.Agent.Values.{Floats}
use easyclaw.Skill.Agent.Config.{Config}
use easyclaw.Skill.Agent.Runtime.{
  Runtime, Task, order, finish, Phase, idle, executing, reporting, request_stop, count_order,
  on_executed, on_reported, handle_order, run_task, take_task,
}
use easyclaw.Skill.Agent.Steps.{
  Step, Reachable, later, open_event, message_event, close_event, timer_event, shutdown_event,
  task_event, executed_event, reported_event,
}
use easyclaw.Skill.Agent.Steps.Situations.{IsLinked, online, waiting, leaving, ending, has_finish}
use easyclaw.Skill.Agent.Steps.Links.{reachable-IsLinked}

-- What the order in progress still has to do: its command, and the positions.
abbrev pub phase_work : Phase → ℕ
phase_work idle = 0
phase_work executing = 2
phase_work reporting = 1

abbrev pub work : {N : Type 0} → Runtime N → ℕ
work s = phase_work s.phase + length s.tasks

module _ (n : Numbers) (m : Floats n) (c : Config n.Num) where
  open n use {Num}

  -- A number of steps that change something, one after the other.
  pub data Moves : ℕ → Runtime Num → Runtime Num → Type 0 where
    done : {s : Runtime Num} → Moves 0 s s
    move : {k : ℕ} {s t u : Runtime Num} → Step n m c s t → s ≢ t → Moves k t u → Moves (suc k) s u

  -- A stop was requested and the socket has closed.
  record IsOver (s : Runtime Num) : Type 0 where
    alive : s.crashed ≡ false
    stop : s.stop_requested ≡ true
    gone : s.socket ≡ none

  -- One of its moves: less is left to do, and no command is started.
  abbrev Progress : Runtime Num → Runtime Num → Type 0
  Progress s t = (suc (work t) ≤ work s) × (t.spawned ≡ s.spawned) × IsOver t

  stopped_stays : (reason : Text) (s : Runtime Num) → IsOver s → request_stop reason s ≡ s
  unfolding request_stop
  stopped_stays reason s over =
      if-holds (λ x. x ≡ s) s.stop_requested s _ (λ yes. refl)
        (λ no. let over_stop = over.stop in cc)

  taken :
      (now after : ℕ) (task : Task Num) (ts : List (Task Num)) (s : Runtime Num)
      → s.tasks ≡ task ∷ ts
      → IsOver s
      → Progress s (run_task n c now after (task ∷ ts) s)
  unfolding run_task handle_order
  taken now after (order j) ts s e over =
      let rest : Runtime Num = record s { tasks = ts } in
      if-holds (Progress s) s.stop_requested rest _
        (λ yes. (
          omega (arith, ap length e),
          refl,
          record { alive = over.alive; stop = over.stop; gone = over.gone },
        ))
        (λ running. let stop = over.stop in cc)
  taken now after finish ts s e over = (
    omega (arith, ap length e),
    refl,
    record { alive = over.alive; stop = over.stop; gone = over.gone },
  )

  task_taken :
      (now after : ℕ) (ts : List (Task Num)) (s : Runtime Num)
      → s.tasks ≡ ts
      → IsOver s
      → s ≢ run_task n c now after ts s
      → Progress s (run_task n c now after ts s)
  task_taken now after [] s e over moved = absurd (moved (unfold run_task in refl))
  task_taken now after (task ∷ ts) s e over moved = taken now after task ts s e over

  executed :
      (success : Bool) (after : ℕ) (s : Runtime Num)
      → s.phase ≡ executing
      → IsOver s
      → Progress s (on_executed success after s)
  unfolding on_executed count_order
  executed true after s now over = (
    omega (arith, ap phase_work now),
    refl,
    record { alive = over.alive; stop = over.stop; gone = over.gone },
  )
  executed false after s now over = (
    omega (arith, ap phase_work now),
    refl,
    record { alive = over.alive; stop = over.stop; gone = over.gone },
  )

  reported : (s : Runtime Num) → s.phase ≡ reporting → IsOver s → Progress s (on_reported c s)
  unfolding on_reported
  reported s now over =
      let quiet : Runtime Num = record s { phase = idle } in
      let over_quiet : IsOver quiet = record {
        alive = over.alive;
        stop = over.stop;
        gone = over.gone;
      } in
      let ends : Progress s quiet = (omega (arith, ap phase_work now), refl, over_quiet) in
      if-holds (Progress s) (ltb 0 c.max_orders && leb c.max_orders s.placed_orders) _ _
        (λ full.
          subst (Progress s) (sym (stopped_stays (text "max orders reached") quiet over_quiet))
            ends)
        (λ room. ends)

  no_timer : (s : Runtime Num) → IsOver s → IsLinked s → s.timer ≡ none
  no_timer s over (online r stop socket timer fin tasks) = timer
  no_timer s over (waiting delay stop socket timer fin tasks) = let on = over.stop in cc
  no_timer s over (leaving stop socket timer fin tasks) = timer
  no_timer s over (ending stop socket timer fin) = timer

  step-Progress :
      (s t : Runtime Num) → IsLinked s → IsOver s → Step n m c s t → s ≢ t → Progress s t
  unfolding take_task
  step-Progress s t linked over (open_event here) moved = let gone = over.gone in cc
  step-Progress s t linked over (message_event r message now here) moved =
      let gone = over.gone in cc
  step-Progress s t linked over (close_event r here) moved = let gone = over.gone in cc
  step-Progress s t linked over (timer_event delay here) moved =
      let none_set = no_timer s over linked in cc
  step-Progress s t linked over (shutdown_event here) moved =
      absurd (moved (sym (stopped_stays (text "signal") s over)))
  step-Progress s t linked over (task_event now after here) moved =
      task_taken now after s.tasks s refl over moved
  step-Progress s t linked over (executed_event success after here) moved =
      executed success after s here over
  step-Progress s t linked over (reported_event here) moved = reported s here over

  Moves-Progress :
      (k : ℕ) (s t : Runtime Num)
      → Reachable n m c s
      → IsOver s
      → Moves k s t
      → (k + work t ≤ work s) × (t.spawned ≡ s.spawned) × IsOver t × Reachable n m c t
  Moves-Progress k s t r over done = (omega arith, refl, over, r)
  Moves-Progress k s t r over (move {k = j} {t = u} step moved moves) =
      let (less, same, over_u) = step-Progress s u (reachable-IsLinked n m c s r) over step moved in
      let (count, quiet, over_t, r_t) =
        Moves-Progress j u t (later r over.alive step) over_u moves in
      (omega (arith, less, count), quiet ∙ same, over_t, r_t)

  finished_at : (s : Runtime Num) → IsOver s → IsLinked s → work s ≡ 0 → s.finished ≡ true
  finished_at s over (online r stop socket timer fin tasks) h = let on = over.stop in cc
  finished_at s over (waiting delay stop socket timer fin tasks) h = let on = over.stop in cc
  finished_at s over (leaving stop socket timer fin tasks) h = let gone = over.gone in cc
  finished_at s over (ending stop socket timer fin) h = idle_end s.tasks refl
    where
      idle_end : (ts : List (Task Num)) → s.tasks ≡ ts → s.finished ≡ true
      idle_end [] e = ground (arith, fin, ap has_finish e)
      idle_end (task ∷ ts) e = absurd (omega (arith, ap length e, h))

  -- A state with less to do is another one.
  make_move : (s t : Runtime Num) → Step n m c s t → Progress s t → Moves 1 s t
  make_move s t step (less, same, over) = move step (λ e. omega (arith, less, ap work e)) done

  can_move : (s : Runtime Num) → IsOver s → work s ≢ 0 → (t : Runtime Num) × Moves 1 s t
  can_move s over busy = go s.phase refl s.tasks refl
    where
      go :
          (p : Phase)
          → s.phase ≡ p
          → (ts : List (Task Num)) → s.tasks ≡ ts
          → (t : Runtime Num) × Moves 1 s t
      go executing now ts e =
          (_, make_move s _ (executed_event true 0 now) (executed true 0 s now over))
      go reporting now ts e = (_, make_move s _ (reported_event now) (reported s now over))
      go idle now [] e = absurd (busy (omega (arith, ap phase_work now, ap length e)))
      go idle now (task ∷ ts) e = (
        _,
        make_move s _ (task_event 0 0 now) (
            unfold take_task in
            subst (λ l. Progress s (run_task n c 0 0 l s)) (sym e) (taken 0 0 task ts s e over)),
      )

  -- From a state that the agent can reach, once a stop was requested and the socket has closed, whatever
  -- happens and in whatever order, every event that changes something leaves less to do: one
  -- for each task that waits, two while a command runs and one while the positions are printed. As long
  -- as there is something to do such an event is possible; when there is nothing the agent has finished;
  -- and no further command is started.
  pub stop-Finishes :
      (k : ℕ) (s t : Runtime Num)
      → Reachable n m c s
      → s.crashed ≡ false
      → s.stop_requested ≡ true
      → s.socket ≡ none
      → Moves k s t
      → (k + work t ≤ work s)
        × (t.spawned ≡ s.spawned)
        × (work t ≡ 0 → t.finished ≡ true)
        × (work t ≢ 0 → (u : Runtime Num) × Moves 1 t u)
  stop-Finishes k s t r alive stop gone moves =
      let (count, same, over, reached) =
        Moves-Progress k s t r (record { alive = alive; stop = stop; gone = gone }) moves in
      (count, same, finished_at t over (reachable-IsLinked n m c t reached), can_move t over)
