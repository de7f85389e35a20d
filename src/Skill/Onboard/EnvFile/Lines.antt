-- ===== src/Skill/Onboard/EnvFile/Lines.antt =====
-- The lines of a text, and where `find_from` finds one.
use easyclaw.Base.{
  ℕ, ◌≡◌, refl, ap, ◌∙◌, inl, inr, Bool, true, false, not, ◌&&◌, Option, none, some, [], ◌∷◌, ◌++◌,
  arith, ◌==◌, all, is_empty, option_map, append_assoc, Text, starts_with, Bool-cases, if-holds,
}
use easyclaw.Skill.Onboard.EnvFile.{
  is_terminator, line_of, after_line, Match, preceded, find_from, expand, ends_with_newline,
}

-- No line ends in the text.
abbrev pub is_one_line : Text → Bool
is_one_line s = all (λ c. not (is_terminator c)) s

-- The text after `b` begins a line.
unfoldable pub closed : Bool → Text → Bool
closed start [] = start
closed start (c ∷ b) = closed (is_terminator c) b

-- No line of `b` begins with the prefix.
unfoldable pub clear : Bool → Text → Text → Bool
clear start p [] = true
clear start p (c ∷ b) = not (start && starts_with p (c ∷ b)) && clear (is_terminator c) p b

-- A prefix without an end of line does not reach beyond one.
starts_with-closed :
    (start : Bool) (p : Text) (c : ℕ) (b x : Text)
    → is_one_line p ≡ true
    → closed start (c ∷ b) ≡ true
    → starts_with p ((c ∷ b) ++ x) ≡ starts_with p (c ∷ b)
unfolding starts_with closed
starts_with-closed start [] c b x one end = refl
starts_with-closed start (d ∷ p) c [] x one end = ground arith
starts_with-closed start (d ∷ p) c (e ∷ b) x one end =
    ap (λ r. d == c && r) (starts_with-closed (is_terminator c) p e b x (ground arith) end)

starts_with-newline :
    (p s : Text) → is_one_line p ≡ true → starts_with p (s ++ 10 ∷ []) ≡ starts_with p s
unfolding starts_with
starts_with-newline [] s one = refl
starts_with-newline (d ∷ p) [] one = ground arith
starts_with-newline (d ∷ p) (c ∷ s) one =
    ap (λ r. d == c && r) (starts_with-newline p s (ground arith))

-- What a line ends before: nothing, or an end of line.
unfoldable pub ends_line : Text → Bool
ends_line [] = true
ends_line (c ∷ s) = is_terminator c

line_of-after_line :
    (s : Text) → (line_of s ++ after_line s ≡ s) × (ends_line (after_line s) ≡ true)
unfolding line_of after_line ends_line
line_of-after_line [] = (refl, refl)
line_of-after_line (c ∷ s) = elim (Bool-cases (is_terminator c)) [
  | inl h ↦ (rw h, rw h h)
  | inr h ↦ let (whole, end) = line_of-after_line s in (rw h (ap (λ r. c ∷ r) whole), rw h end)
]

-- What `find_from` has gone past, and where a line begins with the prefix.
abbrev pub Split : Bool → Text → Text → Option Match → Type 0
Split start p s none = clear start p s ≡ true
Split start p s (some m) =
    (m.before ++ (m.matched ++ m.after) ≡ s)
    × (closed start m.before ≡ true)
    × (clear start p m.before ≡ true)
    × (ends_line m.after ≡ true)

pub find_from-Split :
    (start : Bool) (p s : Text) → is_one_line p ≡ true → Split start p s (find_from start p s)
unfolding find_from closed clear ends_line
find_from-Split start p [] one =
    if-holds (Split start p []) (start && starts_with p []) _ _
      (λ here. (refl, ground arith, refl, refl)) (λ past. refl)
find_from-Split start p (c ∷ s) one =
    if-holds (Split start p (c ∷ s)) (start && starts_with p (c ∷ s)) _ _
      (λ here. let (whole, end) = line_of-after_line (c ∷ s) in (whole, ground arith, refl, end))
      (λ past.
        go past (find_from (is_terminator c) p s) (find_from-Split (is_terminator c) p s one))
  where
    go :
        (start && starts_with p (c ∷ s)) ≡ false
        → (o : Option Match) → Split (is_terminator c) p s o
        → Split start p (c ∷ s) (option_map (preceded c) o)
    go past none cleared = rw (past, cleared)
    go past (some m) (whole, end, cleared, last) = (
      ap (λ r. c ∷ r) whole,
      end,
      rw (
        ← starts_with-closed start p c m.before (m.matched ++ m.after) one end,
        whole,
        past,
        cleared,
      ),
      last,
    )

starts_with_append : (p v : Text) → starts_with p (p ++ v) ≡ true
unfolding starts_with
starts_with_append [] v = refl
starts_with_append (d ∷ p) v = ground (arith, starts_with_append p v)

pub is_one_line_append :
    (p v : Text) → is_one_line p ≡ true → is_one_line v ≡ true → is_one_line (p ++ v) ≡ true
is_one_line_append [] v onep onev = onev
is_one_line_append (d ∷ p) v onep onev = ground (arith, is_one_line_append p v)

line_of_append :
    (s rest : Text)
    → is_one_line s ≡ true
    → ends_line rest ≡ true
    → (line_of (s ++ rest) ≡ s) × (after_line (s ++ rest) ≡ rest)
unfolding line_of after_line ends_line
line_of_append [] [] one end = (refl, refl)
line_of_append [] (c ∷ rest) one end = (rw end, rw end)
line_of_append (d ∷ s) rest one end =
    let here : is_terminator d ≡ false = ground arith in
    let (line, after) = line_of_append s rest (ground arith) end in
    (rw (here, line), rw (here, after))

find_from-here :
    (p : Text) (c : ℕ) (s : Text)
    → starts_with p (c ∷ s) ≡ true
    → find_from true p (c ∷ s)
      ≡ some (record { before = []; matched = line_of (c ∷ s); after = after_line (c ∷ s) })
unfolding find_from
find_from-here p c s h = rw h

find_from-past :
    (start : Bool) (p : Text) (c : ℕ) (s : Text)
    → (start && starts_with p (c ∷ s)) ≡ false
    → find_from start p (c ∷ s) ≡ option_map (preceded c) (find_from (is_terminator c) p s)
unfolding find_from
find_from-past start p c s h = rw h

-- A line that begins with the prefix is found after lines that do not.
pub find_from_placed :
    (start : Bool) (p b v rest : Text) (d : ℕ)
    → is_one_line (d ∷ p) ≡ true
    → is_one_line v ≡ true
    → ends_line rest ≡ true
    → closed start b ≡ true
    → clear start (d ∷ p) b ≡ true
    → find_from start (d ∷ p) (b ++ ((d ∷ p ++ v) ++ rest))
      ≡ some (record { before = b; matched = d ∷ p ++ v; after = rest })
unfolding closed clear
find_from_placed start p [] v rest d onep onev ends end cleared =
    let whole = is_one_line_append (d ∷ p) v onep onev in
    let (line, after) = line_of_append (d ∷ p ++ v) rest whole ends in
    let here : starts_with (d ∷ p) (d ∷ p ++ (v ++ rest)) ≡ true =
      starts_with_append (d ∷ p) (v ++ rest) in
    let again : starts_with (d ∷ p) ((d ∷ p ++ v) ++ rest) ≡ true =
      rw (append_assoc (d ∷ p) v rest) here in
    rw end (
      find_from-here (d ∷ p) d ((p ++ v) ++ rest) again
      ∙ ap (λ m. some m)
          (ap (λ m. record { before = []; matched = m; after = after_line ((d ∷ p ++ v) ++ rest) })
              line
            ∙ ap (λ a. record { before = []; matched = d ∷ p ++ v; after = a }) after))
find_from_placed start p (c ∷ b) v rest d onep onev ends end cleared =
    let past : (start && starts_with (d ∷ p) (c ∷ b)) ≡ false = ground arith in
    let later = find_from_placed (is_terminator c) p b v rest d onep onev ends end (ground arith) in
    find_from-past start (d ∷ p) c (b ++ ((d ∷ p ++ v) ++ rest))
      (rw (starts_with-closed start (d ∷ p) c b ((d ∷ p ++ v) ++ rest) onep end) past)
    ∙ ap (option_map (preceded c)) later

pub clear_newline :
    (start : Bool) (d : ℕ) (p s : Text)
    → is_one_line (d ∷ p) ≡ true
    → clear start (d ∷ p) s ≡ true
    → (clear start (d ∷ p) (s ++ 10 ∷ []) ≡ true) × (closed start (s ++ 10 ∷ []) ≡ true)
unfolding clear closed
clear_newline start d p [] one cleared = (newline start, refl)
  where
    newline : (b : Bool) → clear b (d ∷ p) (10 ∷ []) ≡ true
    newline false = refl
    newline true = let other : (d == 10) ≡ false = ground arith in unfold starts_with in rw other
clear_newline start d p (c ∷ s) one cleared =
    let (later, end) = clear_newline (is_terminator c) d p s one (ground arith) in
    (rw (starts_with-newline (d ∷ p) (c ∷ s) one, later) (ground arith), end)

ends_with_newline-closed :
    (start : Bool) (s : Text) → ends_with_newline s ≡ true → closed start s ≡ true
unfolding ends_with_newline closed
ends_with_newline-closed start [] h = cc
ends_with_newline-closed start (c ∷ []) h = ground arith
ends_with_newline-closed start (c ∷ d ∷ s) h = ends_with_newline-closed (is_terminator c) (d ∷ s) h

pub ended :
    (s : Text) → (not (ends_with_newline s) && not (is_empty s)) ≡ false → closed true s ≡ true
ended [] h = unfold closed in refl
ended (c ∷ s) h = ends_with_newline-closed true (c ∷ s) (ground arith)

-- No dollar sign.
abbrev pub is_literal : Text → Bool
is_literal s = all (λ c. not (c == b'$')) s

pub expand_literal : (m : Match) (s : Text) → is_literal s ≡ true → expand m s ≡ s
unfolding expand
expand_literal m [] h = refl
expand_literal m (c ∷ []) h = refl
expand_literal m (c ∷ d ∷ s) h =
    let here : (c == b'$') ≡ false = ground arith in
    rw (here, expand_literal m (d ∷ s) (ground arith))
