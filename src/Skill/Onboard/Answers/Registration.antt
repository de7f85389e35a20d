-- ===== src/Skill/Onboard/Answers/Registration.antt =====
-- About `waitForRegistration`, the loop that asks whether the wallet is registered.
use easyclaw.Base.{
  ◌≡◌, refl, sym, ap, ◌∙◌, ◌⊎◌, inl, inr, Bool, true, false, Option, none, some, List, [], ◌∷◌,
  ◌++◌, if◌then◌else◌, arith, any, All, Text, text, text_eq, to_lower, trim, Result, ok, err,
}
use easyclaw.Skill.Onboard.Answers.{
  Session, Outcome, done, threw, waiting, outcome_of, answer_or, ask_until, registration,
  wait_for_registration,
}
use easyclaw.Skill.Onboard.Answers.Laws.{Ends, ask_until-Ends}

-- An answer is one of the words when it is written in any case, between any spaces.
abbrev pub says : List Text → Text → Bool
says words answer = any (λ w. text_eq w (to_lower (trim answer))) words

abbrev pub done_words : List Text
done_words = text "done" ∷ text "d" ∷ text "complete" ∷ text "completed" ∷ []

abbrev pub quit_words : List Text
quit_words = text "quit" ∷ text "q" ∷ text "stop" ∷ text "cancel" ∷ []

abbrev pub IsIdle : Text → Type 0
IsIdle answer = (says done_words answer ≡ false) × (says quit_words answer ≡ false)

abbrev canceled : Text
canceled = text "onboarding canceled by user before registration confirmation"

-- What the answer that ends the loop makes of it.
abbrev pub Settles : Text → Outcome (Unit {0}) → Type 0
Settles answer o =
    ((says done_words answer ≡ true) × (o ≡ done tt))
    ⊎ ((says done_words answer ≡ false)
        × (says quit_words answer ≡ true)
        × (o ≡ threw (text "onboarding canceled by user before registration confirmation")))

answer_or-empty : (line : Text) → answer_or [] line ≡ trim line
unfolding answer_or
answer_or-empty line = ground arith

registration_words :
    (line : Text)
    → registration line ≡ (
        if says done_words line
        then some (ok tt)
        else if says quit_words line
        then some (err canceled)
        else none)
unfolding registration
registration_words line = rw (answer_or-empty line) refl

idle : (line : Text) → registration line ≡ none → IsIdle line
idle line e =
    let words : (if says done_words line
          then some (ok tt)
          else if says quit_words line
          then some (err canceled)
          else none)
        ≡ none =
      sym (registration_words line) ∙ e in
    go (says done_words line) (says quit_words line) words
  where
    go :
        (a b : Bool)
        → ◌≡◌ {A = Option (Result (Unit {0}))}
            (if a then some (ok tt) else if b then some (err canceled) else none)
            none
        → (a ≡ false) × (b ≡ false)
    go true b e = cc
    go false true e = cc
    go false false e = (refl, refl)

settles :
    (line : Text) (r : Result (Unit {0})) → registration line ≡ some r → Settles line (outcome_of r)
settles line r e =
    go (says done_words line) (says quit_words line) refl refl (sym (registration_words line) ∙ e)
  where
    go :
        (a b : Bool)
        → says done_words line ≡ a
        → says quit_words line ≡ b
        → ◌≡◌ {A = Option (Result (Unit {0}))}
            (if a then some (ok tt) else if b then some (err canceled) else none)
            (some r)
        → Settles line (outcome_of r)
    go true b ea eb e = let same : ok tt ≡ r = cc in inl (ea, ap outcome_of (sym same))
    go false true ea eb e =
        let same : err canceled ≡ r = cc in inr (ea, eb, ap outcome_of (sym same))
    go false false ea eb e = cc

All-idle : (lines : List Text) → All (λ b. registration b ≡ none) lines → All IsIdle lines
All-idle [] h = tt
All-idle (l ∷ lines) (here, rest) = (idle l here, All-idle lines rest)

-- The wait for the registration ends at the first answer that is one of the words for `done` or for
-- `quit`, in any case and between any spaces: it returns for the former and throws for the latter, and
-- the answers after it are left. Where there is no such answer it takes all of them and goes on waiting.
-- It writes no file and starts no agent.
pub wait_for_registration-Ends :
    (s : Session)
    → let (o, t) = wait_for_registration s in
      (((before : List Text) × (answer : Text) × (s.answers ≡ before ++ (answer ∷ t.answers))
          × All IsIdle before
          × Settles answer o)
        ⊎ (All IsIdle s.answers × (o ≡ waiting) × (t.answers ≡ [])))
      × (t.files ≡ s.files)
      × (t.started ≡ s.started)
unfolding wait_for_registration
wait_for_registration-Ends s =
    let (ends, files, none_started) = ask_until-Ends registration s in
    (go (ask_until registration s).0 (ask_until registration s).1 ends, files, none_started)
  where
    go :
        (o : Outcome (Unit {0})) (t : Session)
        → Ends registration s.answers o t.answers
        → ((before : List Text) × (answer : Text) × (s.answers ≡ before ++ (answer ∷ t.answers))
            × All IsIdle before
            × Settles answer o)
          ⊎ (All IsIdle s.answers × (o ≡ waiting) × (t.answers ≡ []))
    go o t (inl (before, a, r, split, unsettled, e, same)) =
        inl (before, a, split, All-idle before unsettled, rw same (settles a r e))
    go o t (inr (unsettled, waits, rest)) = inr (All-idle s.answers unsettled, waits, rest)
