-- ===== src/Compiler/Entries.antt =====
-- src/orchestra/ir/compiler.py: the loop that finds the entry nodes and refuses unbound slots.
pub mod Slots
pub mod Members
use codename_madagascar.Prelude.{
  ℕ, String, Bool, false, not, ◌&&◌, Option, none, some, List, [], ◌∷◌, Dict, lookup, has_key, keys,
  ◌==◌, string_eq, nat_eq, all, ok, ◌>>=◌, ◌>>◌, raise_if, if◌then◌else◌,
}
use codename_madagascar.Ir.Nodes.{NodeSpec}
use codename_madagascar.Compiler.Checks.{Checked, unbound_input_slot}

abbrev option_beq : Option String → String → Bool
option_beq none schema = false
option_beq (some found) schema = found == schema

-- Every input slot of the node is an initial slot of the same schema.
unfoldable pub initial_match : Dict String String → NodeSpec → Bool
initial_match initial node =
    all (λ (slot : String × String). option_beq (lookup slot.0 initial) slot.1) node.input_slots

unfoldable pub check_bound :
    Dict String String → (String × String → ℕ) → String → List String → Checked Unit
check_bound initial incoming node_id [] = ok tt
check_bound initial incoming node_id (slot ∷ slots) = do
  raise_if (not (has_key slot initial) && incoming (node_id, slot) == 0)
      (unbound_input_slot node_id slot)
  check_bound initial incoming node_id slots

unfoldable pub find_entries :
    Dict String String → (String × String → ℕ) → List NodeSpec → Checked (List String)
find_entries initial incoming [] = ok []
find_entries initial incoming (node ∷ nodes) = do
  check_bound initial incoming node.node_id (keys node.input_slots)
  entries ← find_entries initial incoming nodes
  ok (if initial_match initial node then node.node_id ∷ entries else entries)
