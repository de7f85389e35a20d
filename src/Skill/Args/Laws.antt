-- ===== src/Skill/Args/Laws.antt =====
-- Command lines that are written option by option.
use easyclaw.Base.{
  ◌≡◌, refl, ◌∙◌, true, false, List, [], ◌∷◌, All, Text, text, starts_with, Dict, insert,
}
use easyclaw.Skill.Words.{ArgValue, flag, given}
use easyclaw.Skill.Args.{is_option, is_no_value, parse_from, parse_args}

-- An option with its value, or alone.
abbrev pub Pair : Type 0
Pair = Text × ArgValue

-- `--key value`, or `--key`
abbrev pub tokens_of : List Pair → List Text
tokens_of [] = []
tokens_of ((k, flag) ∷ ps) = (b'-' ∷ b'-' ∷ k) ∷ tokens_of ps
tokens_of ((k, given v) ∷ ps) = (b'-' ∷ b'-' ∷ k) ∷ v ∷ tokens_of ps

-- A value that is taken for one: neither empty nor an option.
abbrev pub IsValue : ArgValue → Type 0
IsValue flag = Unit
IsValue (given v) = is_no_value v ≡ false

abbrev pub insert_all : List Pair → Dict ArgValue → Dict ArgValue
insert_all [] d = d
insert_all ((k, v) ∷ ps) d = insert_all ps (insert k v d)

dashes : (k : Text) → is_option (b'-' ∷ b'-' ∷ k) ≡ true
unfolding starts_with text
dashes k = refl

parse_from-flag :
    (k : Text) (ps : List Pair) (d : Dict ArgValue)
    → parse_from ((b'-' ∷ b'-' ∷ k) ∷ tokens_of ps) d ≡ parse_from (tokens_of ps) (insert k flag d)
unfolding parse_from starts_with text
parse_from-flag k [] d = refl
parse_from-flag k ((j, flag) ∷ ps) d = refl
parse_from-flag k ((j, given v) ∷ ps) d = refl

parse_from-given :
    (k v : Text) (tokens : List Text) (d : Dict ArgValue)
    → is_no_value v ≡ false
    → parse_from ((b'-' ∷ b'-' ∷ k) ∷ v ∷ tokens) d ≡ parse_from tokens (insert k (given v) d)
unfolding parse_from starts_with text
parse_from-given k v tokens d h = rw h

parse_from-tokens_of :
    (ps : List Pair) (d : Dict ArgValue)
    → All (λ p. IsValue p.1) ps
    → parse_from (tokens_of ps) d ≡ insert_all ps d
parse_from-tokens_of [] d h = unfold parse_from in refl
parse_from-tokens_of ((k, flag) ∷ ps) d h =
    parse_from-flag k ps d ∙ parse_from-tokens_of ps (insert k flag d) h.1
parse_from-tokens_of ((k, given v) ∷ ps) d h =
    parse_from-given k v (tokens_of ps) d h.0 ∙ parse_from-tokens_of ps (insert k (given v) d) h.1

-- A command line of options with values that are neither empty nor options themselves is read as
-- those options, the last of equal ones counting.
pub parse_args-tokens_of :
    (ps : List Pair) → All (λ p. IsValue p.1) ps → parse_args (tokens_of ps) ≡ insert_all ps []
unfolding parse_args
parse_args-tokens_of ps h = parse_from-tokens_of ps [] h
