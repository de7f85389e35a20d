-- ===== src/Wallet/Address/Laws.antt =====
-- About the texts that `toBase58` returns.
use easyclaw.Base.{
  ℕ, zero, suc, ◌-◌, ◌≤◌, ◌≡◌, refl, ◌↔◌, inl, inr, true, false, ◌&&◌, not, Option, none, some,
  List, [], ◌∷◌, ◌++◌, arith, Bool-cases, all, leb, if◌then◌else◌, or_option, option_bind, length,
  take, drop, length-append, Text, text, text_eq, text_eq_ne, trim, trim_start, trim_end, is_space,
  is_empty,
}
use easyclaw.Wallet.Objects.{
  Value, nullish, falsy, str, other, ref, Method, missing, throws, returns_text, returns_other,
  Store,
}
use easyclaw.Wallet.Address.{
  is_base58, matches_address, normalize_base58_address, address_from, to_base58_from, to_base58,
  format_wallet_address,
}

-- Between 32 and 44 characters of the base58 alphabet.
pub record IsAddress (s : Text) : Type 0 where
  pub long_enough : 32 ≤ length s
  pub short_enough : length s ≤ 44
  pub alphabet : all is_base58 s ≡ true

matches_address-IsAddress : (s : Text) → matches_address s ≡ true → IsAddress s
unfolding matches_address
matches_address-IsAddress s h = ground arith

normalize-IsAddress : (s : Text) {a : Text} → normalize_base58_address s ≡ some a → IsAddress a
unfolding normalize_base58_address
normalize-IsAddress s {a} e = matches_address-IsAddress a (ground arith)

address_from-IsAddress : (m : Method) {a : Text} → address_from m ≡ some a → IsAddress a
unfolding address_from
address_from-IsAddress missing e = cc
address_from-IsAddress throws e = cc
address_from-IsAddress (returns_text s) e = normalize-IsAddress s e
address_from-IsAddress returns_other e = cc

-- If there is a text, it is an address.
abbrev pub IsSound : Option Text → Type 0
IsSound o = (a : Text) → o ≡ some a → IsAddress a

or_option-IsSound : (o p : Option Text) → IsSound o → IsSound p → IsSound (or_option o p)
or_option-IsSound none p ho hp = hp
or_option-IsSound (some b) p ho hp = ho

option_bind-IsSound :
    {A : Type 0} (o : Option A) (f : A → Option Text)
    → ((x : A) → IsSound (f x))
    → IsSound (option_bind o f)
option_bind-IsSound none f h = λ a e. cc
option_bind-IsSound (some x) f h = h x

to_base58_from-IsSound : (h : Store) (fuel : ℕ) (v : Value) → IsSound (to_base58_from h fuel v)
unfolding to_base58_from
to_base58_from-IsSound h zero v = λ a e. cc
to_base58_from-IsSound h (suc fuel) nullish = λ a e. cc
to_base58_from-IsSound h (suc fuel) falsy = λ a e. cc
to_base58_from-IsSound h (suc fuel) (str s) = λ a e. normalize-IsAddress s e
to_base58_from-IsSound h (suc fuel) other = λ a e. cc
to_base58_from-IsSound h (suc fuel) (ref r) =
    or_option-IsSound (option_bind (h r).address normalize_base58_address) _
      (option_bind-IsSound (h r).address _ (λ s a. normalize-IsAddress s))
      (or_option-IsSound (option_bind (h r).public_key (to_base58_from h fuel)) _
        (option_bind-IsSound (h r).public_key _ (to_base58_from-IsSound h fuel))
        (or_option-IsSound (address_from (h r).to_base58) _
          (λ a. address_from-IsAddress (h r).to_base58)
          (λ a. address_from-IsAddress (h r).to_string)))

-- Whatever value a wallet hands over, cyclic objects included, what `toBase58` makes of it is
-- nothing or 32 to 44 characters of the base58 alphabet.
pub to_base58-IsAddress : (h : Store) (v : Value) {a : Text} → to_base58 h v ≡ some a → IsAddress a
unfolding to_base58
to_base58-IsAddress h v {a} e = to_base58_from-IsSound h 6 v a e

-- The alphabet has no white space, so trimming leaves an address alone.
is_base58-not_space : (c : ℕ) → is_base58 c ≡ true → is_space c ≡ false
unfolding is_base58 is_space
is_base58-not_space c h = ground arith

trim_end_id : (s : Text) → all is_base58 s ≡ true → trim_end s ≡ s
unfolding trim_end
trim_end_id [] h = refl
trim_end_id (c ∷ s) h = ground (arith, trim_end_id s, is_base58-not_space c)

trim_start_id : (s : Text) → all is_base58 s ≡ true → trim_start s ≡ s
unfolding trim_start
trim_start_id [] h = refl
trim_start_id (c ∷ s) h = ground (arith, is_base58-not_space c)

trim_id : (s : Text) → all is_base58 s ≡ true → trim s ≡ s
unfolding trim
trim_id s h = rw (trim_start_id s h) (trim_end_id s h)

bracket_not_base58 : all is_base58 (text "[object Object]") ≡ false
unfolding text is_base58
bracket_not_base58 = refl

not_bracket : (a : Text) → all is_base58 a ≡ true → text_eq a (text "[object Object]") ≡ false
not_bracket a h = text_eq_ne a (text "[object Object]") (λ e. cc (bracket_not_base58, rw e at h))

accept : (a : Text) → IsAddress a → normalize_base58_address a ≡ some a
unfolding normalize_base58_address matches_address
accept a h = rw (trim_id a h.alphabet, not_bracket a h.alphabet) (nonempty a h)
  where
    nonempty :
        (b : Text)
        → IsAddress b
        → (if is_empty b
            then none
            else if false
            then none
            else if not (leb 32 (length b) && leb (length b) 44 && all is_base58 b)
            then none
            else some b)
          ≡ some b
    nonempty [] k = absurd (omega arith)
    nonempty (c ∷ b) k = ground arith

-- The texts that `normalizeBase58Address` accepts as they are are exactly those of 32 to 44
-- characters of the base58 alphabet.
pub normalize_iff : (s : Text) → (normalize_base58_address s ≡ some s) ↔ IsAddress s
normalize_iff s = (λ e. normalize-IsAddress s e, accept s)

length-take_le : {A : Type 0} (n : ℕ) (xs : List A) → length (take n xs) ≤ n
length-take_le zero xs = omega arith
length-take_le (suc n) [] = omega arith
length-take_le (suc n) (x ∷ xs) = omega (arith, length-take_le n xs)

length-drop : {A : Type 0} (n : ℕ) (xs : List A) → length (drop n xs) ≡ length xs - n
length-drop zero xs = omega arith
length-drop (suc n) [] = omega arith
length-drop (suc n) (x ∷ xs) = omega (arith, length-drop n xs)

-- What is shown of an address has at most 13 characters.
pub format_wallet_address_short : (s : Text) → length (format_wallet_address s) ≤ 13
unfolding format_wallet_address
format_wallet_address_short s = elim (Bool-cases (leb (length s) 12)) [
  | inl short ↦ rw short (ground arith)
  | inr long ↦
      rw
        (
          long,
          length-append (take 6 s ++ text "...") (drop (length s - 4) s),
          length-append (take 6 s) (text "..."),
          length-drop (length s - 4) s,
        )
        (unfold text in omega (arith, length-take_le {A = ℕ} 6 s))
]
