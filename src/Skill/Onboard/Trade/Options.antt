-- ===== src/Skill/Onboard/Trade/Options.antt =====
-- Options that are given under a test, and what is read of them.
use easyclaw.Base.{
  ◌≡◌, refl, sym, ap, ◌∙◌, Bool, true, false, Option, none, some, or_option, List, [], ◌∷◌, ◌++◌,
  if◌then◌else◌, Text, text_eq, trim, or_else, Dict, lookup, insert, lookup-insert, is_empty,
}
use easyclaw.Skill.Words.{ArgValue, flag, given, arg_text}
use easyclaw.Skill.Args.{is_no_value}
use easyclaw.Skill.Args.Laws.{Pair, tokens_of, insert_all}
use easyclaw.Skill.Agent.Values.{to_bool}
use easyclaw.Skill.Plan.{option}
use easyclaw.Skill.Agent.Config.{text_option, pushed}
use easyclaw.Skill.Agent.Config.Laws.{pairs_if}

-- The last value that is given to a key.
abbrev pub last_of : Text → List Pair → Option ArgValue
last_of k [] = none
last_of k ((j, v) ∷ ps) = or_option (last_of k ps) (if text_eq j k then some v else none)

or_option_assoc :
    {A : Type 0} (a b c : Option A) → or_option (or_option a b) c ≡ or_option a (or_option b c)
or_option_assoc none b c = refl
or_option_assoc (some v) b c = refl

or_option_if :
    (b : Bool) (v : ArgValue) (o : Option ArgValue)
    → (if b then some v else o) ≡ or_option (if b then some v else none) o
or_option_if true v o = refl
or_option_if false v o = refl

lookup-insert_all :
    (k : Text) (ps : List Pair) (d : Dict ArgValue)
    → lookup k (insert_all ps d) ≡ or_option (last_of k ps) (lookup k d)
lookup-insert_all k [] d = refl
lookup-insert_all k ((j, v) ∷ ps) d =
    lookup-insert_all k ps (insert j v d)
    ∙ ap (or_option (last_of k ps))
        (lookup-insert j k v d ∙ or_option_if (text_eq j k) v (lookup k d))
    ∙ sym (or_option_assoc (last_of k ps) _ (lookup k d))

pub or_option-none : {A : Type 0} (o : Option A) → or_option o none ≡ o
or_option-none none = refl
or_option-none (some a) = refl

pub last_of-append :
    (k : Text) (ps qs : List Pair) → last_of k (ps ++ qs) ≡ or_option (last_of k qs) (last_of k ps)
last_of-append k [] qs = sym (or_option-none (last_of k qs))
last_of-append k ((j, v) ∷ ps) qs =
    ap (λ o. or_option o (if text_eq j k then some v else none)) (last_of-append k ps qs)
    ∙ or_option_assoc (last_of k qs) (last_of k ps) _

pub lookup_options : (k : Text) (ps : List Pair) → lookup k (insert_all ps []) ≡ last_of k ps
unfolding lookup
lookup_options k ps = lookup-insert_all k ps [] ∙ or_option-none (last_of k ps)

-- Of another key, and of the key itself.
pub last_of_other :
    (b : Bool) (j k : Text) (v : ArgValue)
    → text_eq j k ≡ false
    → last_of k (pairs_if b ((j, v) ∷ [])) ≡ none
last_of_other true j k v h = rw h
last_of_other false j k v h = refl

pub last_of_same :
    (b : Bool) (k : Text) (v : ArgValue)
    → text_eq k k ≡ true
    → last_of k (pairs_if b ((k, v) ∷ [])) ≡ (if b then some v else none)
last_of_same true k v h = rw h
last_of_same false k v h = refl

-- A text that an option can have: no option itself, not empty, without white space round it.
pub record IsWord (v : Text) : Type 0 where
  pub no_option : is_no_value v ≡ false
  pub trimmed_word : trim v ≡ v

module _ (name : Text) (d : Dict ArgValue) (v fallback : Text) where
  pub text_option_given :
      lookup name d ≡ some (given v) → IsWord v → text_option name d fallback ≡ v
  unfolding option
  text_option_given e word = rw e (go v word.no_option word.trimmed_word)
    where
      go :
          (v : Text)
          → is_no_value v ≡ false
          → trim v ≡ v
          → trim (arg_text (or_else (if is_empty v then none else some (given v)) (given fallback)))
            ≡ v
      go [] h t = cc
      go (c ∷ s) h t = t

  pub text_option_absent :
      lookup name d ≡ none → trim fallback ≡ fallback → text_option name d fallback ≡ fallback
  unfolding option
  text_option_absent e t = rw e t

-- A text under a test.
pub text_option_if :
    (name : Text) (d : Dict ArgValue) (b : Bool) (v : Text)
    → lookup name d ≡ (if b then some (given v) else none)
    → (b ≡ true → IsWord v)
    → text_option name d [] ≡ (if b then v else [])
text_option_if name d true v e word = text_option_given name d v [] e (word refl)
text_option_if name d false v e word = text_option_absent name d [] [] e (unfold trim in refl)

tokens_of-append : (ps qs : List Pair) → tokens_of (ps ++ qs) ≡ tokens_of ps ++ tokens_of qs
tokens_of-append [] qs = refl
tokens_of-append ((k, flag) ∷ ps) qs = ap (λ l. (b'-' ∷ b'-' ∷ k) ∷ l) (tokens_of-append ps qs)
tokens_of-append ((k, given v) ∷ ps) qs =
    ap (λ l. (b'-' ∷ b'-' ∷ k) ∷ v ∷ l) (tokens_of-append ps qs)

-- The tokens of an option under a test.
tokens_if :
    (b : Bool) (ps rest : List Pair)
    → tokens_of (pairs_if b ps ++ rest) ≡ pushed b (tokens_of ps) ++ tokens_of rest
tokens_if true ps rest = tokens_of-append ps rest
tokens_if false ps rest = refl

tokens_last : (b : Bool) (ps : List Pair) → tokens_of (pairs_if b ps) ≡ pushed b (tokens_of ps)
tokens_last true ps = refl
tokens_last false ps = refl

pub word_ne : (v : Text) → IsWord v → is_empty v ≡ false
word_ne v word = go v word.no_option
  where
    go : (v : Text) → is_no_value v ≡ false → is_empty v ≡ false
    go [] h = cc
    go (c ∷ s) h = refl

-- Five groups of options under tests.
pub tokens_five :
    (b1 b2 b3 b4 b5 : Bool) (p d r a y : List Pair)
    → tokens_of
        (pairs_if b1 p ++ (pairs_if b2 d ++ (pairs_if b3 r ++ (pairs_if b4 a ++ pairs_if b5 y))))
      ≡ pushed b1 (tokens_of p)
        ++ (pushed b2 (tokens_of d)
            ++ (pushed b3 (tokens_of r) ++ (pushed b4 (tokens_of a) ++ pushed b5 (tokens_of y))))
tokens_five b1 b2 b3 b4 b5 p d r a y =
    tokens_if b1 p _
    ∙ ap (λ l. pushed b1 (tokens_of p) ++ l)
        (tokens_if b2 d _
          ∙ ap (λ l. pushed b2 (tokens_of d) ++ l)
              (tokens_if b3 r _
                ∙ ap (λ l. pushed b3 (tokens_of r) ++ l)
                    (tokens_if b4 a _ ∙ ap (λ l. pushed b4 (tokens_of a) ++ l) (tokens_last b5 y))))

pub last_of-five :
    (k : Text) (f p d r a y : List Pair)
    → last_of k (f ++ (p ++ (d ++ (r ++ (a ++ y)))))
      ≡ or_option
          (or_option
            (or_option
              (or_option (or_option (last_of k y) (last_of k a)) (last_of k r))
              (last_of k d))
            (last_of k p))
          (last_of k f)
last_of-five k f p d r a y =
    last_of-append k f _
    ∙ ap (λ o. or_option o (last_of k f))
        (last_of-append k p _
          ∙ ap (λ o. or_option o (last_of k p))
              (last_of-append k d _
                ∙ ap (λ o. or_option o (last_of k d))
                    (last_of-append k r _
                      ∙ ap (λ o. or_option o (last_of k r)) (last_of-append k a y))))

-- A flag under a test.
pub to_bool_if :
    (b : Bool) (o : Option ArgValue) → o ≡ (if b then some flag else none) → to_bool o ≡ b
unfolding to_bool
to_bool_if true o e = rw e
to_bool_if false o e = rw e
