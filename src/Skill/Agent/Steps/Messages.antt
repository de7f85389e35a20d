-- ===== src/Skill/Agent/Steps/Messages.antt =====
-- What the signals of a message keep.
use easyclaw.Base.{
  ◌≡◌, refl, ◌⊎◌, inl, inr, Bool, true, false, not, ◌&&◌, ◌||◌, if-holds, Option, none, some, List,
  [], ◌∷◌, ℕ, if◌then◌else◌, any, is_empty, to_lower, trim, Text, text, text_eq, Result, ok, err,
}
use easyclaw.Numbers.{Numbers}
use easyclaw.Backend.Json.{Json, Fields, get_field}
use easyclaw.Scripts.Rpc.{for_each, then_run, ◌>>◌}
use easyclaw.Skill.Agent.Values.{Floats, text_or_empty}
use easyclaw.Skill.Agent.Config.{Config}
use easyclaw.Skill.Agent.Signals.{
  buy_words, sell_words, normalize_signal_side, signal_items_from_envelope,
}
use easyclaw.Skill.Agent.Runtime.{
  Runtime, Job, enqueued, enqueue_signal_execution, side_of, is_filtered, job_of, filter_signal,
  applied, agent_of, read_signal, take_signal, survived, on_message,
}

-- A side that an order can have.
abbrev pub IsSide : Text → Type 0
IsSide side = (side ≡ text "buy") ⊎ (side ≡ text "sell")

normalize_signal_side-IsSide :
    (side : Text)
    → is_empty (normalize_signal_side side) ≡ false
    → IsSide (normalize_signal_side side)
unfolding normalize_signal_side
normalize_signal_side-IsSide side =
    let word = to_lower (trim side) in
    if-side (any (text_eq word) buy_words) (any (text_eq word) sell_words)
  where
    if-side :
        (a b : Bool)
        → is_empty (if a then text "buy" else if b then text "sell" else []) ≡ false
        → IsSide (if a then text "buy" else if b then text "sell" else [])
    if-side true b h = inl refl
    if-side false true h = inr refl
    if-side false false h = cc

first_of_three : (a b d : Bool) → (a || b || d) ≡ false → a ≡ false
first_of_three true b d h = cc
first_of_three false b d h = refl

module _ (n : Numbers) (m : Floats n) (c : Config n.Num) where
  open n use {Num}

  job_of-IsSide :
      (signal : Fields Num) (confidence ts : Num)
      → is_filtered n m c signal confidence ≡ false
      → IsSide (job_of n m c signal ts).side
  unfolding is_filtered job_of side_of
  job_of-IsSide signal confidence ts through =
      normalize_signal_side-IsSide (text_or_empty n (get_field (text "side") signal)) (
        first_of_three (is_empty (side_of n signal))
          (not (is_empty c.agent_name_filter)
            && not (text_eq (agent_of n signal) c.agent_name_filter))
          (m.less confidence c.min_confidence) through)

  module _ (P : Runtime Num → Type 0)
      (enqueues : (j : Job Num) (s : Runtime Num)
        → IsSide j.side
        → any (text_eq j.key) s.seen_signals ≡ false
        → P s
        → P (enqueued n j s))
      (crashes : (s : Runtime Num) → P s → P (record s { crashed = true })) where
    filter_signal-holds :
        (signal : Fields Num) (confidence ts : Num) (s : Runtime Num)
        → P s
        → P (filter_signal n m c signal confidence ts s)
    unfolding filter_signal enqueue_signal_execution
    filter_signal-holds signal confidence ts s h =
        let j = job_of n m c signal ts in
        if-holds P (is_filtered n m c signal confidence) s (enqueue_signal_execution n j s)
          (λ out. h)
          (λ through.
            if-holds P (any (text_eq j.key) s.seen_signals) s (enqueued n j s) (λ known. h)
              (λ new. enqueues j s (job_of-IsSide signal confidence ts through) new h))

    applied-holds :
        (r : Result (Fields Num × (Num × Num))) (s : Runtime Num) → P s → P (applied n m c r s).1
    unfolding applied
    applied-holds (ok (signal, (confidence, ts))) s h = filter_signal-holds signal confidence ts s h
    applied-holds (err message) s h = h

    loop-holds :
        (now : ℕ) (values : List (Json Num)) (s : Runtime Num)
        → P s
        → P (for_each (take_signal n m c now) values s).1
    unfolding for_each ◌>>◌ take_signal
    loop-holds now [] s h = h
    loop-holds now (v ∷ vs) s h =
        then_run-holds (applied n m c (read_signal n m c now v) s)
          (applied-holds (read_signal n m c now v) s h) (λ t kept. loop-holds now vs t kept)
      where
        then_run-holds :
            (p : Result (Unit {0}) × Runtime Num)
            → P p.1
            → ((t : Runtime Num) → P t → P (for_each (take_signal n m c now) vs t).1)
            → P (then_run (λ _. for_each (take_signal n m c now) vs) p).1
        then_run-holds (ok _, t) h rest = rest t h
        then_run-holds (err _, t) h rest = h

    survived-holds : (p : Result (Unit {0}) × Runtime Num) → P p.1 → P (survived n m c p)
    survived-holds (ok _, s) h = h
    survived-holds (err _, s) h = crashes s h

    pub on_message-holds :
        (message : Option (Json Num)) (now : ℕ) (s : Runtime Num)
        → P s
        → P (on_message n m c message now s)
    unfolding on_message
    on_message-holds none now s h = h
    on_message-holds (some envelope) now s h =
        survived-holds _ (loop-holds now (signal_items_from_envelope n envelope) s h)
