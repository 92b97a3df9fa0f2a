-- ===== src/Ir/Contracts/Loading.antt =====
-- src/orchestra/ir/contracts.py: what load_contracts gives.
use codename_madagascar.Prelude.{
  ◌≤◌, String, some, List, [], ◌∷◌, map, Dict, lookup, insert, lookup-insert, lookup-insert_self,
  has_key, count, All, IsDistinct, string_eq, eq_iff, ok, ok-injective, if◌then◌else◌, ◌≡◌, subst,
  Bool-cases, inl, inr, arith,
}
use codename_madagascar.Ir.Contracts.{AgentContract, load_from, load_contracts}

abbrev pub id_of : AgentContract → String
id_of contract = contract.contract_id

abbrev pub IsFound : Dict String AgentContract → AgentContract → Type 0
IsFound contracts contract = lookup contract.contract_id contracts ≡ some contract

-- What was there is kept, each file's contract is found, and no name comes twice or was there.
record IsLoaded (old : Dict String AgentContract) (files : List AgentContract)
    (new : Dict String AgentContract) : Type 0 where
  pub keeps : (key : String) (c : AgentContract) → lookup key old ≡ some c → lookup key new ≡ some c
  pub found : All (IsFound new) files
  pub fresh : (key : String) → count key (map id_of files) ≤ (if has_key key old then 0 else 1)

load_from-IsLoaded :
    (old : Dict String AgentContract) (files : List AgentContract) {new : Dict String AgentContract}
    → load_from old files ≡ ok new
    → IsLoaded old files new
unfolding load_from
load_from-IsLoaded old [] h =
    subst (IsLoaded old []) (ok-injective h)
      (record { keeps = λ key c there. there; found = tt; fresh = λ key. omega arith })
load_from-IsLoaded old (contract ∷ files) {new} h =
    elim (Bool-cases (has_key contract.contract_id old)) [
      | inl twice ↦ absurd (ground arith)
      | inr first ↦
          let rest =
            load_from-IsLoaded (insert contract.contract_id contract old) files (rw first at h) in
          record {
            keeps = λ key c there. rest.keeps key c (
                ground (
                  arith,
                  there,
                  lookup-insert contract.contract_id key contract old,
                  eq_iff contract.contract_id key,
                ));
            found = (
              rest.keeps contract.contract_id contract
                  (lookup-insert_self contract.contract_id contract old),
              rest.found,
            );
            fresh = λ key. ground (
              arith,
              rest.fresh key,
              lookup-insert contract.contract_id key contract old,
              eq_iff contract.contract_id key,
            );
          }
    ]

-- Where all contracts load, their names are distinct and each one is found under its name.
pub load_contracts-IsFound :
    (files : List AgentContract) (contracts : Dict String AgentContract)
    → load_contracts files ≡ ok contracts
    → IsDistinct (map id_of files) × All (IsFound contracts) files
unfolding load_contracts lookup
load_contracts-IsFound files contracts h =
    let loaded = load_from-IsLoaded [] files h in (loaded.fresh, loaded.found)
