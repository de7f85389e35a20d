-- ===== src/Samples/Cluster.antt =====
-- A concrete cluster for the tests: keys are texts, an address is its seeds one after another, and
-- an initialising call creates its account.
use easyclaw.Base.{
  ◌≡◌, true, Option, none, some, List, [], ◌∷◌, ◌++◌, arith, any, if◌then◌else◌, is_empty, Text,
  text, text_eq, text_eq_refl, Dict, lookup, Result, ok, err,
}
use easyclaw.Samples.{naturals}
use easyclaw.Scripts.Platform.{Web3}
use easyclaw.Scripts.Names.{to_camel}
use easyclaw.Scripts.Rpc.Laws.{initialized, ClusterLaws}

abbrev joined : List Text → Text
joined [] = []
joined (s ∷ ss) = s ++ joined ss

abbrev read_key : Text → Result Text
read_key s = if is_empty s then err (text "Invalid public key input") else ok s

abbrev created : Option Text → List Text → Result Text × List Text
created none chain = (err (text "AccountNotProvided"), chain)
created (some k) chain = (ok (text "signature"), k ∷ chain)

abbrev initialise : Option Text → Dict Text → List Text → Result Text × List Text
initialise none accounts chain = (ok (text "signature"), chain)
initialise (some field) accounts chain = created (lookup field accounts) chain

abbrev pub cluster : Web3 naturals
cluster = record {
  Key = Text;
  key_eq = text_eq;
  public_key = read_key;
  public_key_bytes = λ bytes. bytes;
  to_base58 = λ k. k;
  to_buffer = λ k. k;
  find_pda = λ seeds program. joined seeds ++ program;
  system_program = text "system";
  token_program = text "token";
  Chain = List Text;
  has_account = λ chain k. any (text_eq k) chain;
  has_method = λ program name. true;
  send = λ call chain. initialise (lookup (to_camel call.method) initialized) call.accounts chain;
}

created-keeps :
    (o : Option Text) (chain : List Text) (k : Text)
    → any (text_eq k) chain ≡ true
    → any (text_eq k) (created o chain).1 ≡ true
created-keeps none chain k h = h
created-keeps (some j) chain k h = ground arith

initialise-keeps :
    (o : Option Text) (accounts : Dict Text) (chain : List Text) (k : Text)
    → any (text_eq k) chain ≡ true
    → any (text_eq k) (initialise o accounts chain).1 ≡ true
initialise-keeps none accounts chain k h = h
initialise-keeps (some field) accounts chain k h = created-keeps (lookup field accounts) chain k h

pub cluster_laws : ClusterLaws naturals cluster
cluster_laws = record {
  keeps = λ call chain k known h.
      initialise-keeps (lookup (to_camel call.method) initialized) call.accounts chain k h;
  creates = λ call chain sig field k e found listed. rw (found, listed, any, text_eq_refl k);
}
