-- ===== src/Compiler/Waves/Relax.antt =====
-- src/orchestra/ir/compiler.py: what one pass over adjacency lists does to the indegrees.
use codename_madagascar.Prelude.Integers.{pos, pred_ℤ, is_zero}
use codename_madagascar.Prelude.{
  ℕ, ◌+◌, ◌≡◌, refl, sym, ◌∙◌, String, List, [], ◌∷◌, ◌++◌, count, count-append, update, string_eq,
  if◌then◌else◌, arith, eq_iff, nat_eq, min,
}
use codename_madagascar.Compiler.Waves.{Indegree, relax_targets, relax_wave}

-- `indegree` counts the edges in `targets`, and `rest` more.
abbrev pub Counts : Indegree → List String → (String → ℕ) → Type 0
Counts indegree targets rest = (v : String) → indegree v ≡ pos (count v targets + rest v)

-- Exactly the targets whose last edge stands in `targets` are appended, once each.
abbrev pub freed : List String → (String → ℕ) → String → ℕ
freed targets rest v = if nat_eq.beq (rest v) 0 then min 1 (count v targets) else 0

relax_step :
    (t : String) (ts : List String) (indegree : Indegree) (rest : String → ℕ)
    → Counts indegree (t ∷ ts) rest
    → Counts (update indegree t (pred_ℤ (indegree t))) ts rest
relax_step t ts indegree rest h v = ground (arith, h v, h t, eq_iff t v)

pub relax_targets-Counts :
    (ts : List String) (indegree : Indegree) (next : List String) (rest : String → ℕ)
    → Counts indegree ts rest
    → Counts (relax_targets ts indegree next).0 [] rest
unfolding relax_targets
relax_targets-Counts [] indegree next rest h = h
relax_targets-Counts (t ∷ ts) indegree next rest h =
    relax_targets-Counts ts _ _ rest (relax_step t ts indegree rest h)

pub relax_targets-freed :
    (ts : List String) (indegree : Indegree) (next : List String) (rest : String → ℕ) (v : String)
    → Counts indegree ts rest
    → count v (relax_targets ts indegree next).1 ≡ count v next + freed ts rest v
unfolding relax_targets
relax_targets-freed [] indegree next rest v h = ground arith
relax_targets-freed (t ∷ ts) indegree next rest v h = ground (
  arith,
  h t,
  eq_iff t v,
  count-append v next (t ∷ []),
  relax_targets-freed ts (update indegree t (pred_ℤ (indegree t)))
      (if is_zero (pred_ℤ (indegree t)) then next ++ t ∷ [] else next) rest v
      (relax_step t ts indegree rest h),
)

-- The targets of all edges that leave the nodes of a wave.
abbrev pub targets : (String → List String) → List String → List String
targets adjacency [] = []
targets adjacency (node_id ∷ nodes) = adjacency node_id ++ targets adjacency nodes

relax_targets-append :
    (xs ys : List String) (indegree : Indegree) (next : List String)
    → relax_targets (xs ++ ys) indegree next
      ≡ relax_targets ys (relax_targets xs indegree next).0 (relax_targets xs indegree next).1
unfolding relax_targets
relax_targets-append [] ys indegree next = refl
relax_targets-append (x ∷ xs) ys indegree next = relax_targets-append xs ys _ _

-- The pass over a wave is one pass over the targets of its nodes.
pub relax_wave-eq-relax_targets :
    (adjacency : String → List String) (nodes : List String) (indegree : Indegree)
    (next : List String)
    → relax_wave adjacency nodes indegree next
      ≡ relax_targets (targets adjacency nodes) indegree next
unfolding relax_wave relax_targets
relax_wave-eq-relax_targets adjacency [] indegree next = refl
relax_wave-eq-relax_targets adjacency (n ∷ ns) indegree next =
    relax_wave-eq-relax_targets adjacency ns _ _
    ∙ sym (relax_targets-append (adjacency n) (targets adjacency ns) indegree next)
