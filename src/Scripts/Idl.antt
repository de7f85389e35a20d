-- ===== src/Scripts/Idl.antt =====
-- `normalizeIdl` and `readIdlFromCandidates` (bootstrap.ts, and the same in faucet.ts). An IDL is
-- the description of a program that `anchor build` writes; the fields that the scripts read are
-- modelled, its types being opaque.
pub mod Laws
use easyclaw.Base.{
  ℕ, Bool, not, Option, none, some, List, [], ◌∷◌, ◌++◌, map, Text, text, trim, is_empty, filter,
  find, is_some, to_upper, Dict, lookup, insert, Result, ok, err, ◌>>=◌, or_throw, option_map,
}
use easyclaw.Scripts.Env.{Env}

pub record IdlAccount (T : Type 0) : Type 0 where
  pub name : Text
  pub type : Option T

pub record Idl (T : Type 0) : Type 0 where
  pub address : Text
  pub types : Option (List (Text × T))
  pub accounts : Option (List (IdlAccount T))

module _ {T : Type 0} where
  -- `new Map(entries)`: of entries with one name the last counts.
  map_from : Dict T → List (Text × T) → Dict T
  map_from d [] = d
  map_from d ((name, type) ∷ entries) = map_from (insert name type d) entries

  unfoldable pub type_by_name : Option (List (Text × T)) → Dict T
  unfolding map_from
  type_by_name none = []
  type_by_name (some types) = map_from [] types

  -- `account.type ? account : { ...account, type: typeByName.get(account.name) }`
  abbrev pub fill_type : Option T → Dict T → Text → Option T
  fill_type none types name = lookup name types
  fill_type (some t) types name = some t

  unfoldable pub normalize_account : Dict T → IdlAccount T → IdlAccount T
  normalize_account types account = record account {
    type = fill_type account.type types account.name;
  }

  unfoldable pub normalize_idl : Idl T → Idl T
  unfolding type_by_name normalize_account
  normalize_idl raw = record raw {
    accounts = option_map (map (normalize_account (type_by_name raw.types))) raw.accounts;
  }

abbrev pub non_empty : Option Text → List Text
non_empty none = []
non_empty (some s) = filter (λ v. not (is_empty v)) (s ∷ [])

-- The paths at which an IDL is looked for, in order: the one that the environment names, then two
-- below the working directory.
unfoldable pub idl_candidates : Env → Text → Text → List Text
idl_candidates env cwd program =
    non_empty (option_map trim (env (to_upper program ++ text "_IDL_PATH")))
    ++ (cwd ++ text "/idl/" ++ program ++ text ".json")
      ∷ (cwd ++ text "/target/idl/" ++ program ++ text ".json")
      ∷ []

-- The file system gives the content of a path that exists. `parse` is `JSON.parse`.
module _ {T : Type 0} (parse : Text → Result (Idl T)) (files : Text → Option Text) where
  unfoldable pub first_file : List Text → Option Text
  first_file [] = none
  first_file (p ∷ paths) = elim (files p) [ some content ↦ some content | none ↦ first_file paths ]

  unfoldable pub read_idl : Env → Text → Text → Result (Idl T)
  unfolding idl_candidates first_file
  read_idl env cwd program = do
    content ← or_throw (first_file (idl_candidates env cwd program)) (
        program
        ++ text " IDL not found. Run `anchor build` first or set "
        ++ to_upper program
        ++ text "_IDL_PATH.")
    parse content
