-- ===== src/Skill/Agent/Steps/Situations.antt =====
-- The situations of the running agent, and what its handlers make of them.
use easyclaw.Base.{
  ℕ, suc, ◌≡◌, refl, ◌∙◌, inl, inr, Bool, true, false, ◌&&◌, ◌||◌, Bool-cases, if-holds, none, some,
  List, [], ◌∷◌, ◌++◌, arith, ltb, leb, any, Text, text,
}
use easyclaw.Skill.Agent.Config.{Config}
use easyclaw.Skill.Agent.Runtime.{
  Runtime, Ready, idle, connecting, closing, Task, order, finish, connect_websocket, maybe_finalize,
  request_stop, schedule_reconnect, on_open, on_close, on_timer, count_order, on_executed,
  on_reported,
}

abbrev pub is_finish : {N : Type 0} → Task N → Bool
is_finish (order j) = false
is_finish finish = true

abbrev pub has_finish : {N : Type 0} → List (Task N) → Bool
has_finish tasks = any is_finish tasks

-- The four situations of the agent. It is online or waits for its timer; once a stop was requested it
-- waits for its socket to close, and then has finished or will when the tasks before are done.
pub data IsLinked {N : Type 0} (s : Runtime N) : Type 0 where
  online :
      (r : Ready)
      → s.stop_requested ≡ false
      → s.socket ≡ some r
      → s.timer ≡ none
      → s.finished ≡ false
      → has_finish s.tasks ≡ false
      → IsLinked s
  waiting :
      (delay : ℕ)
      → s.stop_requested ≡ false
      → s.socket ≡ none
      → s.timer ≡ some delay
      → s.finished ≡ false
      → has_finish s.tasks ≡ false
      → IsLinked s
  leaving :
      s.stop_requested ≡ true
      → s.socket ≡ some closing
      → s.timer ≡ none
      → s.finished ≡ false
      → has_finish s.tasks ≡ false
      → IsLinked s
  ending :
      s.stop_requested ≡ true
      → s.socket ≡ none
      → s.timer ≡ none
      → (s.finished || has_finish s.tasks) ≡ true
      → IsLinked s

module _ {N : Type 0} where
  pub has_finish-append :
      (ts : List (Task N)) (t : Task N) → has_finish (ts ++ t ∷ []) ≡ (is_finish t || has_finish ts)
  has_finish-append [] t = refl
  has_finish-append (u ∷ ts) t = ground (arith, has_finish-append ts t)

  pub finishes : (b : Bool) (ts : List (Task N)) → (b || has_finish (ts ++ finish ∷ [])) ≡ true
  finishes b ts = ground (arith, has_finish-append ts finish)

  pub request_stop-IsLinked :
      (reason : Text) (s : Runtime N) → IsLinked s → IsLinked (request_stop reason s)
  unfolding request_stop maybe_finalize
  request_stop-IsLinked reason s (online r stop socket timer fin tasks) =
      rw (stop, socket) (leaving refl refl refl fin tasks)
  request_stop-IsLinked reason s (waiting delay stop socket timer fin tasks) =
      rw (stop, socket) (ending refl refl refl (finishes s.finished s.tasks))
  request_stop-IsLinked reason s (leaving stop socket timer fin tasks) =
      rw stop (leaving refl socket timer fin tasks)
  request_stop-IsLinked reason s (ending stop socket timer fin) =
      rw stop (ending refl socket timer fin)

  -- Without a socket or a timer the agent is on its way out when it stops, and waits when it
  -- reconnects.
  schedule_reconnect-IsLinked :
      (c : Config N) (s : Runtime N)
      → s.stop_requested ≡ false
      → s.socket ≡ none
      → s.timer ≡ none
      → s.finished ≡ false
      → has_finish s.tasks ≡ false
      → IsLinked (schedule_reconnect c s)
  unfolding schedule_reconnect request_stop maybe_finalize
  schedule_reconnect-IsLinked c s stop socket timer fin tasks =
      elim (Bool-cases (
        ltb 0 c.max_reconnect_attempts
        && ltb c.max_reconnect_attempts (suc s.reconnect_attempts))) [
          | inl h ↦ rw (h, stop, socket) (ending refl refl refl (finishes s.finished s.tasks))
          | inr h ↦ rw (h, stop) (waiting _ refl socket refl fin tasks)
        ]

  pub on_open-IsLinked :
      (s : Runtime N) → s.socket ≡ some connecting → IsLinked s → IsLinked (on_open s)
  unfolding on_open
  on_open-IsLinked s here (online r stop socket timer fin tasks) =
      online _ stop refl timer fin tasks
  on_open-IsLinked s here (waiting delay stop socket timer fin tasks) = cc
  on_open-IsLinked s here (leaving stop socket timer fin tasks) = cc
  on_open-IsLinked s here (ending stop socket timer fin) = cc

  stopped_close-IsLinked :
      (s : Runtime N)
      → s.stop_requested ≡ true
      → IsLinked s
      → IsLinked (maybe_finalize (record s { socket = none }))
  unfolding maybe_finalize
  stopped_close-IsLinked s here (online r stop socket timer fin tasks) = cc
  stopped_close-IsLinked s here (waiting delay stop socket timer fin tasks) = cc
  stopped_close-IsLinked s here (leaving stop socket timer fin tasks) =
      rw (stop, timer) (ending refl refl refl (finishes s.finished s.tasks))
  stopped_close-IsLinked s here (ending stop socket timer fin) =
      rw (stop, timer) (ending refl refl refl (finishes s.finished s.tasks))

  running_close-IsLinked :
      (c : Config N) (s : Runtime N) (r : Ready)
      → s.socket ≡ some r
      → s.stop_requested ≡ false
      → IsLinked s
      → IsLinked (schedule_reconnect c (record s { socket = none }))
  running_close-IsLinked c s r here running (online q stop socket timer fin tasks) =
      schedule_reconnect-IsLinked c (record s { socket = none }) stop refl timer fin tasks
  running_close-IsLinked c s r here running (waiting delay stop socket timer fin tasks) = cc
  running_close-IsLinked c s r here running (leaving stop socket timer fin tasks) = cc
  running_close-IsLinked c s r here running (ending stop socket timer fin) = cc

  pub on_close-IsLinked :
      (c : Config N) (s : Runtime N) (r : Ready)
      → s.socket ≡ some r
      → IsLinked s
      → IsLinked (on_close c s)
  unfolding on_close
  on_close-IsLinked c s r here h =
      if-holds IsLinked s.stop_requested _ _ (λ stopped. stopped_close-IsLinked s stopped h)
        (λ running. running_close-IsLinked c s r here running h)

  pub on_timer-IsLinked :
      (s : Runtime N) (delay : ℕ) → s.timer ≡ some delay → IsLinked s → IsLinked (on_timer s)
  unfolding on_timer connect_websocket
  on_timer-IsLinked s delay here (online r stop socket timer fin tasks) = cc
  on_timer-IsLinked s delay here (waiting d stop socket timer fin tasks) =
      rw stop (online connecting refl refl refl fin tasks)
  on_timer-IsLinked s delay here (leaving stop socket timer fin tasks) = cc
  on_timer-IsLinked s delay here (ending stop socket timer fin) = cc

  -- What a situation depends on.
  pub same-IsLinked :
      (s t : Runtime N)
      → t.stop_requested ≡ s.stop_requested
      → t.socket ≡ s.socket
      → t.timer ≡ s.timer
      → t.finished ≡ s.finished
      → has_finish t.tasks ≡ has_finish s.tasks
      → IsLinked s
      → IsLinked t
  same-IsLinked s t es el et ef ek (online r stop socket timer fin tasks) =
      online r (es ∙ stop) (el ∙ socket) (et ∙ timer) (ef ∙ fin) (ek ∙ tasks)
  same-IsLinked s t es el et ef ek (waiting delay stop socket timer fin tasks) =
      waiting delay (es ∙ stop) (el ∙ socket) (et ∙ timer) (ef ∙ fin) (ek ∙ tasks)
  same-IsLinked s t es el et ef ek (leaving stop socket timer fin tasks) =
      leaving (es ∙ stop) (el ∙ socket) (et ∙ timer) (ef ∙ fin) (ek ∙ tasks)
  same-IsLinked s t es el et ef ek (ending stop socket timer fin) =
      ending (es ∙ stop) (el ∙ socket) (et ∙ timer) (rw (ef, ek) fin)

  pub on_executed-IsLinked :
      (success : Bool) (after : ℕ) (s : Runtime N)
      → IsLinked s
      → IsLinked (on_executed success after s)
  unfolding on_executed count_order
  on_executed-IsLinked true after s h = same-IsLinked s _ refl refl refl refl refl h
  on_executed-IsLinked false after s h = same-IsLinked s _ refl refl refl refl refl h

  pub on_reported-IsLinked :
      (c : Config N) (s : Runtime N) → IsLinked s → IsLinked (on_reported c s)
  unfolding on_reported
  on_reported-IsLinked c s h =
      let done = same-IsLinked s (record s { phase = idle }) refl refl refl refl refl h in
      if-holds IsLinked (ltb 0 c.max_orders && leb c.max_orders s.placed_orders) _ _
        (λ full. request_stop-IsLinked (text "max orders reached") _ done) (λ free. done)
