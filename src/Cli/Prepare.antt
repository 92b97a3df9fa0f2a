-- ===== src/Cli/Prepare.antt =====
-- src/orchestra/cli/prepare_lcb.py and src/orchestra/cli/validate_graph.py. The files that name excluded
-- questions are given as parsed; what is printed by the second command is a record.
pub mod Samples
use codename_madagascar.Prelude.Integers.{ℤ}
use codename_madagascar.Prelude.{
  ℕ, String, Bool, true, false, Option, none, some, List, [], ◌∷◌, ◌++◌, map, concat, length, Dict,
  string_eq, Result, ok, err, ◌>>=◌, ◌≡◌, >>=-eq-ok,
}
use codename_madagascar.Exceptions.{Exception}
use codename_madagascar.Ir.Contracts.{AgentContract, load_contracts}
use codename_madagascar.Ir.Graph.{OrchestraGraph}
use codename_madagascar.Compiler.Checks.{GraphCompiler, CompilationError}
use codename_madagascar.Compiler.Compile.{CompiledGraph, compile}
use codename_madagascar.Adapters.Tasks.{LcbTask, PrivateTestRepository}
use codename_madagascar.Adapters.Loader.{Texts, Filters}
use codename_madagascar.Adapters.Loader.Load.{load}
use codename_madagascar.Adapters.Mapper.{Random, LcbManifest, id_of, sample_manifest}

abbrev pub pinned_commit : String
pinned_commit = "28fef95ea8c9f7a547c8329f2cd3d32b92c1fa24"

pub record PrepareArgs : Type 0 where
  pub release_version : String
  pub num_easy : ℤ
  pub num_medium : ℤ
  pub num_hard : ℤ
  pub seed : ℤ

abbrev pub counts_of : PrepareArgs → Dict String ℤ
counts_of args =
    ("easy", args.num_easy) ∷ ("medium", args.num_medium) ∷ ("hard", args.num_hard) ∷ []

abbrev or_empty : Option (List String) → List String
or_empty none = []
or_empty (some ids) = ids

-- The identifiers of the exclusion file, where it exists, and of the excluded manifests.
abbrev pub excluded_ids : Option (List String) → List LcbManifest → List String
excluded_ids file manifests =
    or_empty file ++ concat (map (λ (m : LcbManifest). map id_of m.entries) manifests)

abbrev pub no_filters : Filters
no_filters = record {
  start_date = "";
  end_date = "";
  difficulties = [];
  platforms = [];
  task_ids = [];
}

-- `main` of prepare_lcb.py, up to save_manifest.
unfoldable pub prepare :
    Texts
    → Random
    → (digest : LcbManifest → String) → Dict String (List String)
    → PrepareArgs
    → Option (List String)
    → List LcbManifest
    → Result Exception LcbManifest
prepare texts random digest data_dir args file manifests = do
  (tasks, repository) ← load texts no_filters args.release_version data_dir
  sample_manifest random tasks (excluded_ids file manifests) digest args.release_version args.seed
      (counts_of args) pinned_commit

-- `build_compiler`, on the contracts that are loaded.
abbrev pub build_compiler : Dict String AgentContract → GraphCompiler
build_compiler contracts = record {
  contracts = contracts;
  harness_ids = "public_code_harness" ∷ [];
  transform_ids =
      "identity_code" ∷ "merge_analysis_artifacts" ∷ "repair_to_code" ∷ "freeze_code" ∷ [];
  selector_ids = "deterministic_code_selector" ∷ [];
}

pub record GraphReport : Type 0 where
  pub graph_id : String
  pub node_count : ℕ
  pub edge_count : ℕ
  pub entry_nodes : List String
  pub parallel_waves : List (List String)
  pub conditional_branches : ℕ
  pub reachable_final_output : Bool

-- `bool(compiled.final_producers)`
abbrev is_nonempty : List String → Bool
is_nonempty [] = false
is_nonempty (id ∷ ids) = true

abbrev pub report_of : CompiledGraph → GraphReport
report_of compiled = record {
  graph_id = compiled.graph.graph_id;
  node_count = length compiled.graph.nodes;
  edge_count = length compiled.graph.edges;
  entry_nodes = compiled.entry_nodes;
  parallel_waves = compiled.waves;
  conditional_branches = compiled.conditional_branches;
  reachable_final_output = is_nonempty compiled.final_producers;
}

-- `main` of validate_graph.py: the report, or the error of the contracts or of the graph.
pub data Validation : Type 0 where
  valid : GraphReport → Validation
  bad_contracts : Exception → Validation
  bad_graph : CompilationError → Validation

unfoldable pub validate_graph : List AgentContract → OrchestraGraph → Validation
validate_graph files graph = elim (load_contracts files) [
  | err e ↦ bad_contracts e
  | ok contracts ↦ elim (compile (build_compiler contracts) graph) [
    | err e ↦ bad_graph e
    | ok compiled ↦ valid (report_of compiled)
  ]
]
