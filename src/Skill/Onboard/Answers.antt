-- ===== src/Skill/Onboard/Answers.antt =====
-- The dialog of onboard.js: the answers that are still to come, the files and the agents that were
-- started. Where the answers run out, the script goes on waiting for the next one.
pub mod Laws
pub mod Registration
use easyclaw.Base.{
  ℕ, Bool, true, false, ◌&&◌, ◌||◌, not, Option, none, some, List, [], ◌∷◌, if◌then◌else◌, is_empty,
  any, Text, text, text_eq, trim, to_lower, Dict, lookup, insert, Result, ok, err,
}

-- An agent's process: its arguments and the wallet that its environment names.
abbrev pub Started : Type 0
Started = List Text × Text

pub record Session : Type 0 where
  pub answers : List Text
  pub files : Dict Text
  pub started : List Started

pub data Outcome (A : Type 0) : Type 0 where
  done : A → Outcome A
  threw : Text → Outcome A
  waiting : Outcome A

abbrev pub Dialog : Type 0 → Type 0
Dialog A = Session → Outcome A × Session

abbrev pub outcome_of : {A : Type 0} → Result A → Outcome A
outcome_of (ok a) = done a
outcome_of (err message) = threw message

unfoldable pub pure : {A : Type 0} → A → Dialog A
pure a s = (done a, s)

unfoldable pub lift : {A : Type 0} → Result A → Dialog A
lift r s = (outcome_of r, s)

module _ {A B : Type 0} where
  unfoldable pub continue : Outcome A → (A → Dialog B) → Dialog B
  continue (done a) next s = next a s
  continue (threw message) next s = (threw message, s)
  continue waiting next s = (waiting, s)

  infixl 5 ◌>>=◌
  unfoldable pub ◌>>=◌ : Dialog A → (A → Dialog B) → Dialog B
  unfolding continue
  ◌>>=◌ m next s = let (o, t) = m s in continue o next t

infixl 5 ◌>>◌
abbrev pub ◌>>◌ : {B : Type 0} → Dialog (Unit {0}) → Dialog B → Dialog B
m >> next = m >>= λ u. next

-- The files as they are.
unfoldable pub get_files : Dialog (Dict Text)
get_files s = (done s.files, s)

-- `fs.writeFileSync(path, content)`
unfoldable pub write_file : Text → Text → Dialog (Unit {0})
write_file path content s = (done tt, record s { files = insert path content s.files })

module _ {A : Type 0} where
  -- A loop that asks until an answer settles it: what it returns or throws, and the later answers.
  abbrev pub settled : Option (Result A) → List Text → Outcome A × List Text → Outcome A × List Text
  settled none answers again = again
  settled (some r) answers again = (outcome_of r, answers)

  unfoldable pub settle : (Text → Option (Result A)) → List Text → Outcome A × List Text
  settle f [] = (waiting, [])
  settle f (a ∷ answers) = settled (f a) answers (settle f answers)

  unfoldable pub ask_until : (Text → Option (Result A)) → Dialog A
  unfolding settle
  ask_until f s = let (o, rest) = settle f s.answers in (o, record s { answers = rest })

-- What `ask` makes of an answer.
unfoldable pub answer_or : Text → Text → Text
answer_or fallback answer =
    if is_empty (trim answer) && not (is_empty fallback) then fallback else trim answer

unfoldable pub ask : Text → Dialog Text
unfolding ask_until answer_or
ask fallback = ask_until (λ answer. some (ok (answer_or fallback answer)))

abbrev pub is_one_of : List Text → Text → Bool
is_one_of words s = any (λ w. text_eq w s) words

unfoldable pub yes_no : Bool → Text → Bool
yes_no default_yes answer =
    let normalized = to_lower answer in
    if is_empty answer
    then default_yes
    else if is_one_of (text "y" ∷ text "yes" ∷ text "1" ∷ text "true" ∷ []) normalized
    then true
    else if is_one_of (text "n" ∷ text "no" ∷ text "0" ∷ text "false" ∷ []) normalized
    then false
    else default_yes

unfoldable pub ask_yes_no : Bool → Dialog Bool
unfolding ask yes_no
ask_yes_no default_yes = ask [] >>= λ answer. pure (yes_no default_yes answer)

-- The answers `done` and `quit` of the registration, in their spellings.
unfoldable pub registration : Text → Option (Result (Unit {0}))
unfolding answer_or
registration line =
    let answer = to_lower (answer_or [] line) in
    if is_one_of (text "done" ∷ text "d" ∷ text "complete" ∷ text "completed" ∷ []) answer
    then some (ok tt)
    else if is_one_of (text "quit" ∷ text "q" ∷ text "stop" ∷ text "cancel" ∷ []) answer
    then some (err (text "onboarding canceled by user before registration confirmation"))
    else none

unfoldable pub wait_for_registration : Dialog (Unit {0})
unfolding registration ask_until
wait_for_registration = ask_until registration
