-- ===== src/Ir/Contracts.antt =====
-- src/orchestra/ir/contracts.py. The expansion of environment variables and the reading of YAML
-- stand outside: a directory is the list of the contracts that its files hold, by path.
pub mod Loading
use codename_madagascar.Prelude.{
  ℕ, String, List, [], ◌∷◌, Dict, insert, has_key, Result, ok, err, if◌then◌else◌, string_eq,
}
use codename_madagascar.Exceptions.{Exception, value_error}

pub data MemoryScope : Type 0 where
  local_scope task_scope : MemoryScope

pub record AgentContract : Type 0 where
  pub contract_id : String
  pub role : String
  pub system_prompt_template : String
  pub user_prompt_template : String
  pub model : String
  pub temperature_milli : ℕ
  pub max_tokens : ℕ
  pub timeout_ms : ℕ
  pub allowed_tools : List String
  pub input_schema : String
  pub output_schema : String
  pub parser_id : String
  pub memory_scope : MemoryScope

load_from :
    Dict String AgentContract → List AgentContract → Result Exception (Dict String AgentContract)
load_from contracts [] = ok contracts
load_from contracts (contract ∷ rest) =
    let next = load_from (insert contract.contract_id contract contracts) rest in
    if has_key contract.contract_id contracts then err value_error else next

unfoldable pub load_contracts : List AgentContract → Result Exception (Dict String AgentContract)
unfolding load_from
load_contracts files = load_from [] files
