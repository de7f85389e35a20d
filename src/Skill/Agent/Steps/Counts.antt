-- ===== src/Skill/Agent/Steps/Counts.antt =====
-- Counting the keys of signals.
use easyclaw.Base.{
  ℕ, ◌+◌, ◌≡◌, refl, false, List, [], ◌∷◌, ◌++◌, arith, if◌then◌else◌, any, Text, text_eq,
}
use easyclaw.Skill.Agent.Runtime.{Task, order, finish, Decision}

abbrev pub hit : Text → Text → ℕ
hit k key = if text_eq k key then 1 else 0

-- How often a key is among those seen, among the tasks that wait, and among the decisions.
abbrev pub count : Text → List Text → ℕ
count k [] = 0
count k (key ∷ keys) = hit k key + count k keys

abbrev pub queued : {N : Type 0} → Text → List (Task N) → ℕ
queued k [] = 0
queued k (order j ∷ ts) = hit k j.key + queued k ts
queued k (finish ∷ ts) = queued k ts

abbrev pub decisions : Text → List Decision → ℕ
decisions k [] = 0
decisions k (d ∷ ds) = hit k d.key + decisions k ds

pub queued-append :
    {N : Type 0} (k : Text) (ts us : List (Task N))
    → queued k (ts ++ us) ≡ queued k ts + queued k us
queued-append k [] us = omega arith
queued-append k (order j ∷ ts) us = omega (arith, queued-append k ts us)
queued-append k (finish ∷ ts) us = queued-append k ts us

pub decisions-append :
    (k : Text) (ds : List Decision) (d : Decision)
    → decisions k (ds ++ d ∷ []) ≡ decisions k ds + hit k d.key
decisions-append k [] d = omega arith
decisions-append k (e ∷ ds) d = omega (arith, decisions-append k ds d)

pub unseen : (k : Text) (keys : List Text) → any (text_eq k) keys ≡ false → count k keys ≡ 0
unseen k [] h = refl
unseen k (key ∷ keys) h = ground (arith, unseen k keys)
