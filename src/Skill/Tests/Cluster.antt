-- ===== src/Skill/Tests/Cluster.antt =====
-- A small cluster for the tests: thirteen keys, and accounts that a transaction creates.
use easyclaw.Base.{
  ℕ, ◌≡◌, refl, Bool, true, Option, none, some, List, [], ◌∷◌, ◌++◌, length, if◌then◌else◌, ◌==◌,
  text, text_eq, ok,
}
use easyclaw.Bytes.{le_bytes}
use easyclaw.Skill.Platform.{Solana, KeyLaws}
use easyclaw.Skill.Accounts.{engine_config_account, user_margin_account}

-- The addresses of the example.
pub data Name : Type 0 where
  user engine registry config global market margin position order ata vault mint other : Name

abbrev pub number_of_name : Name → ℕ
number_of_name user = 1
number_of_name engine = 2
number_of_name registry = 3
number_of_name config = 4
number_of_name global = 5
number_of_name market = 6
number_of_name margin = 7
number_of_name position = 8
number_of_name order = 9
number_of_name ata = 10
number_of_name vault = 11
number_of_name mint = 12
number_of_name other = 13

-- A key is its number, followed by zeros.
abbrev pub key_bytes : Name → List ℕ
key_bytes k = number_of_name k ∷ le_bytes 31 0

abbrev pub name_from : List ℕ → Name
name_from [] = other
name_from (b ∷ bs) =
    if b == 1
    then user
    else if b == 2
    then engine
    else if b == 3
    then registry
    else if b == 4
    then config
    else if b == 5
    then global
    else if b == 6
    then market
    else if b == 7
    then margin
    else if b == 8
    then position
    else if b == 9
    then order
    else if b == 10
    then ata
    else if b == 11
    then vault
    else if b == 12
    then mint
    else other

abbrev pub pda : List (List ℕ) → Name
pda [] = other
pda (seed ∷ seeds) =
    if text_eq seed (text "user-margin")
    then margin
    else if text_eq seed (text "user-market-pos")
    then position
    else if text_eq seed (text "market")
    then market
    else if text_eq seed (text "order")
    then order
    else config

abbrev pub config_bytes : List ℕ
config_bytes = engine_config_account ++ (key_bytes user ++ (key_bytes mint ++ key_bytes vault))

abbrev pub margin_bytes : List ℕ
margin_bytes =
    user_margin_account
    ++ (key_bytes user ++ (le_bytes 8 500 ++ (le_bytes 8 7 ++ (le_bytes 8 0 ++ 255 ∷ []))))

-- The accounts, before and after the setup.
abbrev pub data_of : Bool → Name → Option (List ℕ)
data_of ready config = some config_bytes
data_of true margin = some margin_bytes
data_of ready k = none

-- Every transaction succeeds, and leaves the setup done.
abbrev pub solana : Solana
solana = record {
  Key = Name;
  public_key = λ t. ok other;
  from_bytes = name_from;
  to_bytes = key_bytes;
  to_base58 = λ k. number_of_name k ∷ [];
  find_pda = λ seeds program. pda seeds;
  system_program = other;
  token_program = other;
  ata_of = λ m owner. ata;
  create_ata = λ payer account owner m. record { program = other; keys = []; payload = [] };
  Chain = Bool;
  account_data = data_of;
  send = λ is chain. (ok (text "signature"), true);
}

length-key_bytes : (k : Name) → length (key_bytes k) ≡ 32
unfolding le_bytes
length-key_bytes k = refl

name_from-key_bytes : (k : Name) → name_from (key_bytes k) ≡ k
name_from-key_bytes user = refl
name_from-key_bytes engine = refl
name_from-key_bytes registry = refl
name_from-key_bytes config = refl
name_from-key_bytes global = refl
name_from-key_bytes market = refl
name_from-key_bytes margin = refl
name_from-key_bytes position = refl
name_from-key_bytes order = refl
name_from-key_bytes ata = refl
name_from-key_bytes vault = refl
name_from-key_bytes mint = refl
name_from-key_bytes other = refl

pub key_laws : KeyLaws solana
key_laws = record { length-to_bytes = length-key_bytes; from_bytes-to_bytes = name_from-key_bytes }
