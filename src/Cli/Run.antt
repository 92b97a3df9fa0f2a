-- ===== src/Cli/Run.antt =====
-- src/orchestra/cli/run.py. Each task of a run reads and writes only its own directory, so that it has
-- a world of its own, and the run of one task is independent of that of another. The compiled graph
-- is given, as are the times and the random digits of the initial artifacts. `graph_result.json` is
-- the final state; what is printed is left out.
pub mod Tasks
pub mod Reports
use codename_madagascar.Prelude.Integers.{ℤ, pos, negsuc}
use codename_madagascar.Prelude.{
  ℕ, suc, ◌-◌, String, Bool, true, false, not, ◌||◌, Option, none, some, List, [], filter, take,
  length, ◌==◌, string_eq, Result, ok, err, ◌>>=◌, ◌>>◌, raise_if, if◌then◌else◌, ◌≡◌, refl, subst,
  ok-injective, raise_if-bind, Bool-cases, inl, inr, arith,
}
use codename_madagascar.Exceptions.{
  Exception, value_error, runtime_error, sandbox_unavailable_error,
}
use codename_madagascar.Sandbox.Official.{Runner, create_runner}

pub record RunArgs : Type 0 where
  pub task_id : String
  pub limit : Option ℤ
  pub mock_llm : Bool
  pub dry_run : Bool
  pub force_rerun : Bool
  pub allow_config_drift : Bool

pub data Backend : Type 0 where
  lcb_official docker mock : Backend

pub record SandboxSection : Type 0 where
  pub backend : Backend
  pub per_test_timeout_ms : ℕ
  pub worker_grace_ms : ℕ
  pub max_worker_wall_ms : ℕ
  pub num_process_evaluate : ℕ
  pub memory_mb : ℕ
  pub image : String

pub data Sandbox : Type 0 where
  mock_sandbox : Sandbox
  official_sandbox : Runner → Sandbox
  docker_sandbox : (image : String) (timeout_ms memory_mb : ℕ) → Sandbox

-- What the machine offers: the checkout of the benchmark, the executable of Docker, and the two
-- variables of the language model.
pub record Host : Type 0 where
  pub has_repository : Bool
  pub has_docker : Bool
  pub has_credentials : Bool

-- `ids[:limit]`
abbrev pub slice_to : Option ℤ → List String → List String
slice_to none ids = ids
slice_to (some (pos n)) ids = take n ids
slice_to (some (negsuc n)) ids = take (length ids - suc n) ids

-- The identifiers of the manifest that the options leave.
unfoldable pub selected_ids : RunArgs → List String → List String
selected_ids args ids =
    slice_to args.limit
      (if args.task_id == "" then ids else filter (λ qid. qid == args.task_id) ids)

-- `except OfficialLCBSandboxUnavailable`
abbrev pub refuse_fallback : Result Exception Runner → Result Exception Sandbox
refuse_fallback (ok runner) = ok (official_sandbox runner)
refuse_fallback (err sandbox_unavailable_error) = err runtime_error
refuse_fallback (err e) = err e

abbrev pub backend_sandbox : SandboxSection → Host → Backend → Result Exception Sandbox
backend_sandbox config host lcb_official = refuse_fallback (
    create_runner host.has_repository config.num_process_evaluate config.worker_grace_ms
      config.max_worker_wall_ms)
backend_sandbox config host docker =
    if host.has_docker
    then ok (docker_sandbox config.image config.per_test_timeout_ms config.memory_mb)
    else err runtime_error
backend_sandbox config host mock = err runtime_error

-- The client of the language model, then the sandbox.
unfoldable pub choose_sandbox : (mock_llm : Bool) → SandboxSection → Host → Result Exception Sandbox
choose_sandbox true config host = ok mock_sandbox
choose_sandbox false config host = do
  client ← raise_if (not host.has_credentials) value_error
  backend_sandbox config host config.backend

-- The options and the configuration ask for the sandbox.
abbrev pub IsNamed : Bool → Backend → Sandbox → Type 0
IsNamed mock_llm backend mock_sandbox = mock_llm ≡ true
IsNamed mock_llm backend (official_sandbox runner) = (mock_llm ≡ false) × (backend ≡ lcb_official)
IsNamed mock_llm backend (docker_sandbox image timeout memory) =
    (mock_llm ≡ false) × (backend ≡ docker)

refuse_fallback-IsNamed :
    (created : Result Exception Runner) (sandbox : Sandbox)
    → refuse_fallback created ≡ ok sandbox
    → IsNamed false lcb_official sandbox
refuse_fallback-IsNamed (ok runner) sandbox h =
    subst (IsNamed false lcb_official) (ok-injective h) (refl, refl)
refuse_fallback-IsNamed (err sandbox_unavailable_error) sandbox h = cc
refuse_fallback-IsNamed (err e) sandbox h = cc

backend_sandbox-IsNamed :
    (config : SandboxSection) (host : Host) (backend : Backend) (sandbox : Sandbox)
    → backend_sandbox config host backend ≡ ok sandbox
    → IsNamed false backend sandbox
backend_sandbox-IsNamed config host lcb_official sandbox h =
    refuse_fallback-IsNamed
      (create_runner host.has_repository config.num_process_evaluate config.worker_grace_ms
        config.max_worker_wall_ms)
      sandbox h
backend_sandbox-IsNamed config host docker sandbox h = elim (Bool-cases host.has_docker) [
  | inl present ↦ subst (IsNamed false docker) (ok-injective (rw present at h)) (refl, refl)
  | inr missing ↦ absurd (ground arith)
]
backend_sandbox-IsNamed config host mock sandbox h = cc

-- The mock sandbox, which tests nothing, is chosen with the mock language model only; else the
-- sandbox is of the kind that the configuration names.
pub choose_sandbox-IsNamed :
    (mock_llm : Bool) (config : SandboxSection) (host : Host) (sandbox : Sandbox)
    → choose_sandbox mock_llm config host ≡ ok sandbox
    → IsNamed mock_llm config.backend sandbox
unfolding choose_sandbox
choose_sandbox-IsNamed true config host sandbox h =
    subst (IsNamed true config.backend) (ok-injective h) refl
choose_sandbox-IsNamed false config host sandbox h =
    let (credentials, h₁) = raise_if-bind (not host.has_credentials) value_error _ h in
    backend_sandbox-IsNamed config host config.backend sandbox h₁
