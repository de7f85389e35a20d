-- ===== src/Skill/Onboard/EnvFile/Laws.antt =====
-- About `upsertEnvValue` for the keys that stand for themselves in its pattern.
use easyclaw.Base.{
  ℕ, ◌≡◌, refl, sym, ap, subst, ◌⊎◌, ◌||◌, ◌==◌, leb, all, arith, inl, inr, Bool, true, false, not,
  ◌&&◌, Option, none, some, [], ◌∷◌, ◌++◌, if◌then◌else◌, is_empty, append_assoc, Text, text,
}
use easyclaw.Skill.Onboard.EnvFile.{Match, find_from, ends_with_newline, upserted, upsert_env_value}
use easyclaw.Skill.Onboard.EnvFile.Lines.{
  is_one_line, closed, clear, ends_line, Split, find_from-Split, is_one_line_append,
  find_from_placed, clear_newline, is_literal, expand_literal, ended,
}

-- A letter of a key that stands for itself in a pattern: a capital one, or an underscore.
abbrev pub is_key_letter : ℕ → Bool
is_key_letter c = (leb 65 c && leb c 90) || c == 95

key-one_line : (key : Text) → all is_key_letter key ≡ true → is_one_line key ≡ true
key-one_line [] h = refl
key-one_line (c ∷ key) h = ground (arith, key-one_line key)

abbrev pub prefix_of : Text → Text
prefix_of key = key ++ text "="

-- Where the source had such a line, the texts around it are kept.
abbrev pub IsKept : Text → Text → Match → Type 0
IsKept key source m =
    ((old : Match) × (find_from true (prefix_of key) source ≡ some old)
      × (old.before ≡ m.before)
      × (old.after ≡ m.after))
    ⊎ ((find_from true (prefix_of key) source ≡ none)
        × ((m.before ≡ source) ⊎ (m.before ≡ source ++ 10 ∷ []))
        × (m.after ≡ 10 ∷ []))

abbrev pub IsWritten : Text → Text → Text → Match → Type 0
IsWritten key value result m =
    (result ≡ m.before ++ (m.matched ++ m.after))
    × (m.matched ≡ prefix_of key ++ value)
    × (find_from true (prefix_of key) result ≡ some m)

module _ (d : ℕ) (k value source : Text) (onek : is_one_line (d ∷ k) ≡ true)
    (onev : is_one_line value ≡ true) where
  prefix-one_line : is_one_line (prefix_of (d ∷ k)) ≡ true
  prefix-one_line = is_one_line_append (d ∷ k) (text "=") onek (unfold text in refl)

  placed :
      (b rest : Text)
      → ends_line rest ≡ true
      → closed true b ≡ true
      → clear true (prefix_of (d ∷ k)) b ≡ true
      → find_from true (prefix_of (d ∷ k)) (b ++ ((prefix_of (d ∷ k) ++ value) ++ rest))
        ≡ some (record { before = b; matched = prefix_of (d ∷ k) ++ value; after = rest })
  placed b rest ends end cleared =
      find_from_placed true (k ++ text "=") b value rest d prefix-one_line onev ends end cleared

  -- The two texts that are appended, by whether the source ends a line.
  appended :
      find_from true (prefix_of (d ∷ k)) source ≡ none
      → clear true (prefix_of (d ∷ k)) source ≡ true
      → (b : Bool) → (b ≡ false → closed true source ≡ true)
      → let result =
          if b
          then source ++ (10 ∷ ((prefix_of (d ∷ k) ++ value) ++ (10 ∷ [])))
          else source ++ ((prefix_of (d ∷ k) ++ value) ++ (10 ∷ [])) in
        (m : Match) × IsWritten (d ∷ k) value result m × IsKept (d ∷ k) source m
  unfolding ends_line
  appended gone cleared true end =
      let (clears, ends) = clear_newline true d (k ++ text "=") source prefix-one_line cleared in
      let shape = append_assoc source (10 ∷ []) ((prefix_of (d ∷ k) ++ value) ++ (10 ∷ [])) in
      (
        record {
          before = source ++ 10 ∷ [];
          matched = prefix_of (d ∷ k) ++ value;
          after = 10 ∷ [];
        },
        (
          sym shape,
          refl,
          subst
              (λ r.
                find_from true (prefix_of (d ∷ k)) r
                ≡ some (record {
                  before = source ++ 10 ∷ [];
                  matched = prefix_of (d ∷ k) ++ value;
                  after = 10 ∷ [];
                }))
              shape (placed (source ++ 10 ∷ []) (10 ∷ []) refl ends clears),
        ),
        inr (gone, inr refl, refl),
      )
  appended gone cleared false end = (
    record { before = source; matched = prefix_of (d ∷ k) ++ value; after = 10 ∷ [] },
    (refl, refl, placed source (10 ∷ []) refl (end refl) cleared),
    inr (gone, inl refl, refl),
  )

  upsert_one_line-IsWritten :
      is_literal (prefix_of (d ∷ k) ++ value) ≡ true
      → (m : Match) × IsWritten (d ∷ k) value (upsert_env_value source (d ∷ k) value) m
        × IsKept (d ∷ k) source m
  unfolding upsert_env_value upserted
  upsert_one_line-IsWritten plain =
      go (find_from true (prefix_of (d ∷ k)) source) refl
        (find_from-Split true (prefix_of (d ∷ k)) source prefix-one_line)
    where
      go :
          (o : Option Match)
          → find_from true (prefix_of (d ∷ k)) source ≡ o
          → Split true (prefix_of (d ∷ k)) source o
          → let result = upserted source (prefix_of (d ∷ k) ++ value) o in
            (m : Match) × IsWritten (d ∷ k) value result m × IsKept (d ∷ k) source m
      go none gone cleared =
          appended gone cleared (not (ends_with_newline source) && not (is_empty source))
            (ended source)
      go (some m) found (whole, end, cleared, ends) = (
        record { before = m.before; matched = prefix_of (d ∷ k) ++ value; after = m.after },
        (
          ap (λ line. m.before ++ (line ++ m.after))
              (expand_literal m (prefix_of (d ∷ k) ++ value) plain),
          refl,
          rw (expand_literal m (prefix_of (d ∷ k) ++ value) plain)
              (placed m.before m.after ends end cleared),
        ),
        inl (m, found, refl, refl),
      )

-- Whatever the file, a key of capital letters and underscores that is not empty, and a value of one line,
-- both without a dollar sign: after `upsertEnvValue` the first line of the key is `key=value`; the file
-- around it is as it was, where the file had a line of the key, and else the line was appended to the
-- file.
pub upsert_env_value-IsWritten :
    (d : ℕ) (k value source : Text)
    → all is_key_letter (d ∷ k) ≡ true
    → is_one_line value ≡ true
    → is_literal (prefix_of (d ∷ k) ++ value) ≡ true
    → (m : Match) × IsWritten (d ∷ k) value (upsert_env_value source (d ∷ k) value) m
      × IsKept (d ∷ k) source m
upsert_env_value-IsWritten d k value source key one_line =
    upsert_one_line-IsWritten d k value source (key-one_line (d ∷ k) key) one_line
