-- ===== src/Scripts/Idl/Laws.antt =====
-- About `normalizeIdl`.
use easyclaw.Base.{
  ◌≡◌, refl, ap, Option, none, some, List, [], ◌∷◌, map, arith, Text, Dict, lookup, option_map,
}
use easyclaw.Scripts.Idl.{
  Idl, IdlAccount, type_by_name, fill_type, normalize_account, normalize_idl,
}

module _ {T : Type 0} where
  fill_type_idem :
      (t : Option T) (types : Dict T) (name : Text)
      → fill_type (fill_type t types name) types name ≡ fill_type t types name
  fill_type_idem none types name = ground arith
  fill_type_idem (some t) types name = refl

  normalize_account_idem :
      (types : Dict T) (a : IdlAccount T)
      → normalize_account types (normalize_account types a) ≡ normalize_account types a
  unfolding normalize_account
  normalize_account_idem types a =
      λ i. record { name = a.name; type = fill_type_idem a.type types a.name i }

  map_idem :
      (types : Dict T) (accs : List (IdlAccount T))
      → map (normalize_account types) (map (normalize_account types) accs)
        ≡ map (normalize_account types) accs
  map_idem types [] = refl
  map_idem types (a ∷ accs) = rw (normalize_account_idem types a, map_idem types accs)

  option_map_idem :
      (f : List (IdlAccount T) → List (IdlAccount T)) (o : Option (List (IdlAccount T)))
      → ((l : List (IdlAccount T)) → f (f l) ≡ f l)
      → option_map f (option_map f o) ≡ option_map f o
  option_map_idem f none h = refl
  option_map_idem f (some l) h = ap some (h l)

  -- Normalising a normalised IDL changes nothing.
  pub normalize_idl_idem : (raw : Idl T) → normalize_idl (normalize_idl raw) ≡ normalize_idl raw
  unfolding normalize_idl
  normalize_idl_idem raw = λ i. record raw {
    accounts =
        option_map_idem (map (normalize_account (type_by_name raw.types))) raw.accounts
          (map_idem (type_by_name raw.types)) i;
  }

  -- What normalising makes of an account: its name stays, a type that it has stays, and otherwise
  -- it gets the type of its name.
  abbrev pub Filled : Dict T → IdlAccount T → IdlAccount T → Type 0
  Filled types a b =
      (b.name ≡ a.name)
      × ((t : T) → a.type ≡ some t → b.type ≡ some t)
      × (a.type ≡ none → b.type ≡ lookup a.name types)

  abbrev pub AllFilled : Dict T → List (IdlAccount T) → List (IdlAccount T) → Type 0
  AllFilled types [] [] = Unit
  AllFilled types [] (b ∷ bs) = ⊥
  AllFilled types (a ∷ accs) [] = ⊥
  AllFilled types (a ∷ accs) (b ∷ bs) = Filled types a b × AllFilled types accs bs

  normalize_account-Filled :
      (types : Dict T) (a : IdlAccount T) → Filled types a (normalize_account types a)
  unfolding normalize_account
  normalize_account-Filled types a = (refl, λ t e. rw e, λ e. rw e)

  map-AllFilled :
      (types : Dict T) (accs : List (IdlAccount T))
      → AllFilled types accs (map (normalize_account types) accs)
  map-AllFilled types [] = tt
  map-AllFilled types (a ∷ accs) = (normalize_account-Filled types a, map-AllFilled types accs)

  -- Account by account, in order, `normalizeIdl` keeps the name and a type that is there, and gives
  -- an account without one the type that the IDL lists under its name.
  pub normalize_idl-AllFilled :
      (raw : Idl T) (accs : List (IdlAccount T))
      → raw.accounts ≡ some accs
      → (out : List (IdlAccount T)) × ((normalize_idl raw).accounts ≡ some out)
        × AllFilled (type_by_name raw.types) accs out
  unfolding normalize_idl
  normalize_idl-AllFilled raw accs e = (
    map (normalize_account (type_by_name raw.types)) accs,
    rw e,
    map-AllFilled (type_by_name raw.types) accs,
  )
