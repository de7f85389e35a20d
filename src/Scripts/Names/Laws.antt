-- ===== src/Scripts/Names/Laws.antt =====
-- About the spellings of names and the alias table of `callRpc`.
use easyclaw.Base.{
  ℕ, ◌+◌, ◌≡◌, refl, sym, ◌∙◌, ap, ◌≢◌, inl, inr, true, [], ◌∷◌, arith, Bool-cases, All, Text,
  text_eq, text_eq_ne, text_eq_refl, is_upper, Dict, lookup, insert, lookup-insert, some,
  if◌then◌else◌,
}
use easyclaw.Scripts.Names.{to_snake, to_camel, add_alias, add_aliases_from, add_account_aliases}

-- No code unit of the name is an underscore.
abbrev pub IsCamel : Text → Type 0
IsCamel s = All (λ c. c ≢ b'_') s

to_camel-cons : (c : ℕ) (s : Text) → c ≢ b'_' → to_camel (c ∷ s) ≡ c ∷ to_camel s
unfolding to_camel
to_camel-cons c [] h = refl
to_camel-cons c (d ∷ s) h = ground arith

to_camel-join :
    (c : ℕ) (s : Text) → is_upper c ≡ true → to_camel (b'_' ∷ (c + 32) ∷ s) ≡ c ∷ to_camel s
unfolding to_camel
to_camel-join c s h = ground arith

-- A name without an underscore survives the trip through snake case.
pub to_camel-to_snake : (s : Text) → IsCamel s → to_camel (to_snake s) ≡ s
unfolding to_snake
to_camel-to_snake [] h = unfold to_camel in refl
to_camel-to_snake (c ∷ s) h = elim (Bool-cases (is_upper c)) [
  | inl up ↦ rw up (to_camel-join c (to_snake s) up ∙ ap (λ r. c ∷ r) (to_camel-to_snake s h.1))
  | inr low ↦ rw low (to_camel-cons c (to_snake s) h.0 ∙ ap (λ r. c ∷ r) (to_camel-to_snake s h.1))
]

pub to_camel_id : (s : Text) → IsCamel s → to_camel s ≡ s
to_camel_id [] h = unfold to_camel in refl
to_camel_id (c ∷ s) h = to_camel-cons c s h.0 ∙ ap (λ r. c ∷ r) (to_camel_id s h.1)

-- A snake-case form that is camel case too was not changed.
pub to_snake_id : (s : Text) → IsCamel (to_snake s) → to_snake s ≡ s
unfolding to_snake
to_snake_id [] h = refl
to_snake_id (c ∷ s) h = elim (Bool-cases (is_upper c)) [
  | inl up ↦ absurd ((rw up at h).0 refl)
  | inr low ↦ rw low (ap (λ r. c ∷ r) (to_snake_id s (rw low at h).1))
]

pub to_snake_injective : (a b : Text) → IsCamel a → IsCamel b → to_snake a ≡ to_snake b → a ≡ b
to_snake_injective a b ha hb e =
    sym (to_camel-to_snake a ha) ∙ ap to_camel e ∙ to_camel-to_snake b hb

-- What one account of the table makes of a later reading.
lookup-add_alias :
    {K : Type 0} (j k : Text) (v : K) (d : Dict K)
    → lookup j (add_alias k v d) ≡ (
        if text_eq (to_camel k) j
        then some v
        else if text_eq (to_snake k) j
        then some v
        else if text_eq k j
        then some v
        else lookup j d)
unfolding add_alias
lookup-add_alias j k v d =
    lookup-insert (to_camel k) j v (insert (to_snake k) v (insert k v d))
    ∙ ap (λ r. if text_eq (to_camel k) j then some v else r)
        (lookup-insert (to_snake k) j v (insert k v d)
          ∙ ap (λ r. if text_eq (to_snake k) j then some v else r) (lookup-insert k j v d))

-- The names under which an account is found.
abbrev pub Answers : {K : Type 0} → Text → K → Dict K → Type 0
Answers k v d = (lookup k d ≡ some v) × (lookup (to_snake k) d ≡ some v)

add_alias-Answers : {K : Type 0} (k : Text) (v : K) (d : Dict K) → Answers k v (add_alias k v d)
add_alias-Answers k v d = (
  rw lookup-add_alias (ground (arith, text_eq_refl k)),
  rw lookup-add_alias (ground (arith, text_eq_refl (to_snake k))),
)

-- Another account of a camel-case table takes neither of the two names.
add_alias-keeps :
    {K : Type 0} (j k : Text) (v w : K) (d : Dict K)
    → IsCamel j
    → IsCamel k
    → j ≢ k
    → Answers j w d
    → Answers j w (add_alias k v d)
add_alias-keeps j k v w d hj hk ne (plain, snake) =
    let crossed : to_snake k ≢ j = λ e. ne (sym e ∙ to_snake_id k (rw (← e) at hj)) in
    let crossed' : k ≢ to_snake j = λ e. ne (sym (to_snake_id j (rw e at hk)) ∙ sym e) in
    let apart : to_snake k ≢ to_snake j = λ e. ne (sym (to_snake_injective k j hk hj e)) in
    (
      rw (lookup-add_alias, to_camel_id k hk)
          (rw (text_eq_ne k j (λ e. ne (sym e)), text_eq_ne (to_snake k) j crossed) plain),
      rw (lookup-add_alias, to_camel_id k hk)
          (rw (text_eq_ne k (to_snake j) crossed', text_eq_ne (to_snake k) (to_snake j) apart)
            snake),
    )

-- The keys of a table: camel case, and no two alike.
abbrev pub IsTable : {K : Type 0} → Dict K → Type 0
IsTable [] = Unit
IsTable ((k, v) ∷ d) = IsCamel k × All (λ e. (e.0 ≢ k) × IsCamel e.0) d × IsTable d

add_aliases_from-keeps :
    {K : Type 0} (k : Text) (v : K) (aliases accounts : Dict K)
    → IsCamel k
    → All (λ e. (e.0 ≢ k) × IsCamel e.0) accounts
    → Answers k v aliases
    → Answers k v (add_aliases_from aliases accounts)
unfolding add_aliases_from
add_aliases_from-keeps k v aliases [] hk others h = h
add_aliases_from-keeps k v aliases ((j, w) ∷ accounts) hk ((ne, hj), others) h =
    add_aliases_from-keeps k v (add_alias j w aliases) accounts hk others
      (add_alias-keeps k j w v aliases hk hj (λ e. ne (sym e)) h)

add_aliases_from-Answers :
    {K : Type 0} (aliases accounts : Dict K)
    → IsTable accounts
    → All (λ e. Answers e.0 e.1 (add_aliases_from aliases accounts)) accounts
unfolding add_aliases_from
add_aliases_from-Answers aliases [] h = tt
add_aliases_from-Answers aliases ((k, v) ∷ accounts) (hk, others, rest) = (
  add_aliases_from-keeps k v (add_alias k v aliases) accounts hk others
      (add_alias-Answers k v aliases),
  add_aliases_from-Answers (add_alias k v aliases) accounts rest,
)

-- In a table whose keys are camel case and all different, every account is found under its own
-- key and under the snake-case form of its key.
pub add_account_aliases-Answers :
    {K : Type 0} (accounts : Dict K)
    → IsTable accounts
    → All (λ e. Answers e.0 e.1 (add_account_aliases accounts)) accounts
unfolding add_account_aliases
add_account_aliases-Answers accounts h = add_aliases_from-Answers [] accounts h
