-- ===== src/Backend/Uri/Laws.antt =====
-- About `encodeURIComponent`: the characters of an encoded text.
use easyclaw.Base.{
  ℕ, ◌+◌, ◌-◌, ◌*◌, ◌/◌, ◌%◌, ◌<◌, ◌≤◌, ◌≡◌, refl, subst, Bool, true, false, ◌||◌, Option, none,
  some, [], ◌∷◌, ◌++◌, arith, if◌then◌else◌, ltb, ◌==◌, All, All-append, Text, Result, ok, err,
}
use easyclaw.Backend.Uri.{
  is_unreserved, hex_digit, percent, percent_utf8, is_high_surrogate, is_low_surrogate, prepend,
  encode_unit, encode_from, encode_uri_component,
}

-- What an encoded text consists of.
abbrev pub IsSafe : Text → Type 0
IsSafe s = All (λ c. (is_unreserved c || c == b'%') ≡ true) s

hex_digit-safe : (d : ℕ) → d < 16 → (is_unreserved (hex_digit d) || hex_digit d == b'%') ≡ true
unfolding hex_digit is_unreserved
hex_digit-safe d h = ground arith

percent-IsSafe : (b : ℕ) → b < 256 → IsSafe (percent b)
unfolding percent
percent-IsSafe b h = (
  unfold is_unreserved in refl,
  (hex_digit-safe (b / 16) (omega arith), (hex_digit-safe (b % 16) (omega arith), tt)),
)

join-IsSafe : (s t : Text) → IsSafe s → IsSafe t → IsSafe (s ++ t)
join-IsSafe s t hs ht = All-append (λ c. (is_unreserved c || c == b'%') ≡ true) s t hs ht

if-IsSafe :
    (b : Bool) (s t : Text)
    → (b ≡ true → IsSafe s)
    → (b ≡ false → IsSafe t)
    → IsSafe (if b then s else t)
if-IsSafe true s t hs ht = hs refl
if-IsSafe false s t hs ht = ht refl

ltb-true : (a b : ℕ) → ltb a b ≡ true → a < b
ltb-true a b h = ground arith

percent_utf8-IsSafe : (c : ℕ) → c < 0x110000 → IsSafe (percent_utf8 c)
unfolding percent_utf8
percent_utf8-IsSafe c h =
    if-IsSafe (ltb c 0x80) _ _
      (λ one. let b = ltb-true c 0x80 one in percent-IsSafe c (omega arith))
      (λ _.
        if-IsSafe (ltb c 0x800) _ _
          (λ two.
            let b = ltb-true c 0x800 two in
            join-IsSafe (percent (0xC0 + c / 64)) _ (percent-IsSafe _ (omega arith))
              (percent-IsSafe _ (omega arith)))
          (λ _.
            if-IsSafe (ltb c 0x10000) _ _
              (λ three.
                let b = ltb-true c 0x10000 three in
                join-IsSafe (percent (0xE0 + c / 4096) ++ percent (0x80 + c / 64 % 64)) _
                  (join-IsSafe (percent (0xE0 + c / 4096)) _ (percent-IsSafe _ (omega arith))
                    (percent-IsSafe _ (omega arith)))
                  (percent-IsSafe _ (omega arith)))
              (λ _.
                join-IsSafe
                  (percent (0xF0 + c / 262144)
                    ++ percent (0x80 + c / 4096 % 64)
                    ++ percent (0x80 + c / 64 % 64))
                  _
                  (join-IsSafe (percent (0xF0 + c / 262144) ++ percent (0x80 + c / 4096 % 64)) _
                    (join-IsSafe (percent (0xF0 + c / 262144)) _ (percent-IsSafe _ (omega arith))
                      (percent-IsSafe _ (omega arith)))
                    (percent-IsSafe _ (omega arith)))
                  (percent-IsSafe _ (omega arith)))))

encode_unit-IsSafe : (c : ℕ) → c < 0x10000 → IsSafe (encode_unit c)
unfolding encode_unit
encode_unit-IsSafe c h =
    if-IsSafe (is_unreserved c) _ _ (λ plain. (rw plain, tt))
      (λ _. percent_utf8-IsSafe c (omega arith))

-- The result, if there is one, is safe.
abbrev AllSafe : Result Text → Type 0
AllSafe (ok t) = IsSafe t
AllSafe (err e) = Unit

prepend-AllSafe : (s : Text) (r : Result Text) → IsSafe s → AllSafe r → AllSafe (prepend s r)
unfolding prepend
prepend-AllSafe s (ok t) hs ht = join-IsSafe s t hs ht
prepend-AllSafe s (err e) hs ht = tt

if-AllSafe :
    (b : Bool) (r q : Result Text)
    → (b ≡ true → AllSafe r)
    → (b ≡ false → AllSafe q)
    → AllSafe (if b then r else q)
if-AllSafe true r q hr hq = hr refl
if-AllSafe false r q hr hq = hq refl

high_bound : (c : ℕ) → is_high_surrogate c ≡ true → c ≤ 0xDBFF
high_bound c h = ground arith

low_bound : (c : ℕ) → is_low_surrogate c ≡ true → c ≤ 0xDFFF
low_bound c h = ground arith

encode_from-AllSafe :
    (high : Option ℕ) (s : Text)
    → ((c : ℕ) → high ≡ some c → c ≤ 0xDBFF)
    → All (λ c. c < 0x10000) s
    → AllSafe (encode_from high s)
unfolding encode_from
encode_from-AllSafe none [] hh hs = tt
encode_from-AllSafe (some high) [] hh hs = tt
encode_from-AllSafe none (c ∷ s) hh hs =
    if-AllSafe (is_low_surrogate c) _ _ (λ _. tt)
      (λ _.
        if-AllSafe (is_high_surrogate c) _ _
          (λ up.
            encode_from-AllSafe (some c) s
              (λ d e. let same : c ≡ d = ground arith in rw (← same) (high_bound c up)) hs.1)
          (λ _.
            prepend-AllSafe (encode_unit c) _ (encode_unit-IsSafe c hs.0)
              (encode_from-AllSafe none s (λ d e. cc) hs.1)))
encode_from-AllSafe (some high) (c ∷ s) hh hs =
    if-AllSafe (is_low_surrogate c) _ _
      (λ low.
        let top = hh high refl in
        let bottom = low_bound c low in
        prepend-AllSafe (percent_utf8 (0x10000 + (high - 0xD800) * 1024 + (c - 0xDC00))) _
          (percent_utf8-IsSafe _ (omega arith)) (encode_from-AllSafe none s (λ d e. cc) hs.1))
      (λ _. tt)

-- What `encodeURIComponent` returns for a text of 16-bit code units consists of unreserved
-- characters and percent signs, so that it has no slash, question mark or hash in it.
pub encode_uri_component-IsSafe :
    (s : Text) {t : Text} → All (λ c. c < 0x10000) s → encode_uri_component s ≡ ok t → IsSafe t
unfolding encode_uri_component
encode_uri_component-IsSafe s hs e = subst AllSafe e (encode_from-AllSafe none s (λ d e'. cc) hs)
