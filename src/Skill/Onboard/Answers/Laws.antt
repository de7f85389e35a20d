-- ===== src/Skill/Onboard/Answers/Laws.antt =====
-- About the steps of a dialog of onboard.js: the answers that they take, and what they start.
use easyclaw.Base.{
  ◌≡◌, refl, sym, ap, ◌∙◌, ◌⊎◌, inl, inr, Bool, true, false, Option, none, some, List, [], ◌∷◌,
  ◌++◌, append_assoc, if◌then◌else◌, All, Text, Result,
}
use easyclaw.Skill.Onboard.Answers.{
  Session, Outcome, done, threw, waiting, Dialog, outcome_of, pure, lift, continue, ◌>>=◌,
  get_files, write_file, settled, settle, ask_until,
}

-- The session afterwards: some answers are taken, from the front, and nothing was started.
pub record Careful {A : Type 0} (m : Dialog A) : Type 0 where
  pub takes : (s : Session) → (used : List Text) × (s.answers ≡ used ++ (m s).1.answers)
  pub starts_none : (s : Session) → (m s).1.started ≡ s.started

module _ {A : Type 0} where
  pub Careful-pure : (a : A) → Careful (pure a)
  unfolding pure
  Careful-pure a = record { takes = λ s. ([], refl); starts_none = λ s. refl }

  pub Careful-lift : (r : Result A) → Careful (lift r)
  unfolding lift
  Careful-lift r = record { takes = λ s. ([], refl); starts_none = λ s. refl }

  settle_taken :
      (f : Text → Option (Result A)) (answers : List Text)
      → (used : List Text) × (answers ≡ used ++ (settle f answers).1)
  unfolding settle
  settle_taken f [] = ([], refl)
  settle_taken f (a ∷ answers) = go (f a) (settle_taken f answers)
    where
      go :
          (o : Option (Result A))
          → (used : List Text) × (answers ≡ used ++ (settle f answers).1)
          → (used : List Text) × (a ∷ answers ≡ used ++ (settled o answers (settle f answers)).1)
      go none (used, e) = (a ∷ used, ap (λ l. a ∷ l) e)
      go (some r) taken = (a ∷ [], refl)

  pub Careful-ask_until : (f : Text → Option (Result A)) → Careful (ask_until f)
  unfolding ask_until
  Careful-ask_until f = record { takes = λ s. settle_taken f s.answers; starts_none = λ s. refl }

  -- What the first answer that settles the question gives, or that there is none.
  abbrev pub Ends : (Text → Option (Result A)) → List Text → Outcome A → List Text → Type 0
  Ends f answers o rest =
      ((before : List Text) × (a : Text) × (r : Result A) × (answers ≡ before ++ (a ∷ rest))
        × All (λ b. f b ≡ none) before
        × (f a ≡ some r)
        × (o ≡ outcome_of r))
      ⊎ (All (λ b. f b ≡ none) answers × (o ≡ waiting) × (rest ≡ []))

  settle-Ends :
      (f : Text → Option (Result A)) (answers : List Text)
      → Ends f answers (settle f answers).0 (settle f answers).1
  unfolding settle
  settle-Ends f [] = inr (tt, refl, refl)
  settle-Ends f (a ∷ answers) = go (f a) refl (settle-Ends f answers)
    where
      go :
          (o : Option (Result A))
          → f a ≡ o
          → Ends f answers (settle f answers).0 (settle f answers).1
          → Ends f
              (a ∷ answers)
              (settled o answers (settle f answers)).0
              (settled o answers (settle f answers)).1
      go none e (inl (before, b, r, split, unsettled, settles, o)) =
          inl (a ∷ before, b, r, ap (λ l. a ∷ l) split, (e, unsettled), settles, o)
      go none e (inr (unsettled, o, rest)) = inr ((e, unsettled), o, rest)
      go (some r) e ends = inl ([], a, r, refl, tt, e, refl)

  -- A loop of the dialog ends at the first answer that settles it, with what that answer gives and the
  -- answers after it left; where none settles it, all are taken and it waits.
  pub ask_until-Ends :
      (f : Text → Option (Result A)) (s : Session)
      → let (o, t) = ask_until f s in
        Ends f s.answers o t.answers × (t.files ≡ s.files) × (t.started ≡ s.started)
  unfolding ask_until
  ask_until-Ends f s = (settle-Ends f s.answers, refl, refl)

pub Careful-get_files : Careful get_files
unfolding get_files
Careful-get_files = record { takes = λ s. ([], refl); starts_none = λ s. refl }

pub Careful-write_file : (path content : Text) → Careful (write_file path content)
unfolding write_file
Careful-write_file path content = record { takes = λ s. ([], refl); starts_none = λ s. refl }

module _ {A B : Type 0} where
  pub Careful->>= :
      (m : Dialog A) (next : A → Dialog B)
      → Careful m
      → ((a : A) → Careful (next a))
      → Careful (m >>= next)
  unfolding ◌>>=◌ continue
  Careful->>= m next first later = record {
    takes = λ s. taken (m s).0 s (m s).1 (first.takes s);
    starts_none = λ s. none_started (m s).0 (m s).1 ∙ first.starts_none s;
  }
    where
      taken :
          (o : Outcome A) (s t : Session)
          → (used : List Text) × (s.answers ≡ used ++ t.answers)
          → (used : List Text) × (s.answers ≡ used ++ (continue o next t).1.answers)
      taken (done a) s t (used, e) =
          let (more, e2) = (later a).takes t in
          (used ++ more, e ∙ ap (λ l. used ++ l) e2 ∙ sym (append_assoc used more _))
      taken (threw message) s t u = u
      taken waiting s t u = u

      none_started : (o : Outcome A) (t : Session) → (continue o next t).1.started ≡ t.started
      none_started (done a) t = (later a).starts_none t
      none_started (threw message) t = refl
      none_started waiting t = refl

pub Careful-if :
    {A : Type 0} (b : Bool) (m k : Dialog A) → Careful m → Careful k → Careful (if b then m else k)
Careful-if true m k hm hk = hm
Careful-if false m k hm hk = hk

pub ruleset careful_rules = (
  Careful-pure, Careful-lift, Careful-ask_until, Careful-get_files, Careful-write_file, Careful->>=,
  Careful-if,
)
