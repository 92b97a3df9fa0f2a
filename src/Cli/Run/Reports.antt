-- ===== src/Cli/Run/Reports.antt =====
-- src/orchestra/cli/run.py: what a run reports of its tasks.
use codename_madagascar.Prelude.{
  ℕ, String, true, false, Option, none, some, List, [], ◌∷◌, map, Dict, lookup, string_eq, Result,
  ok, err, is_some, if◌then◌else◌, ◌≡◌, ◌∙◌, ◌⊎◌, inl, inr, refl, sym, ap, subst, ok-injective, All,
  arith,
}
use codename_madagascar.Exceptions.{Exception, key_error, graph_deadlock_error}
use codename_madagascar.Runtime.Checkpoint.{IsStored}
use codename_madagascar.Runtime.State.{RuntimeState}
use codename_madagascar.Runtime.Committer.Progress.{IsConsistent}
use codename_madagascar.Runtime.Loop.Execute.{execute}
use codename_madagascar.Runtime.Loop.Outcome.{execute-IsFrozen}
use codename_madagascar.Compiler.Compile.{CompiledGraph}
use codename_madagascar.Adapters.Tasks.{LcbTask}
use codename_madagascar.Adapters.Final.{is_open}
use codename_madagascar.Cli.Run.{RunArgs, Sandbox}
use codename_madagascar.Cli.Run.Tasks.{
  TaskReport, report, task_completed, task_failed, Setup, RunConfig, W, world_of, context_of,
  slots_of, report_of, run_one, run_tasks,
}

some-injective {ℓ} : {A : Type ℓ} {a b : A} → ◌≡◌ {A = Option A} (some a) (some b) → a ≡ b
some-injective h = cc

abbrev pub id_of : TaskReport → String
id_of r = r.task_id

module _ (setup : Setup) (sandbox : Sandbox) (args : RunArgs) (config : RunConfig)
    (compiled : CompiledGraph) where
  abbrev Outcome : String → Type 0
  Outcome qid = Result Exception (RuntimeState × W setup sandbox args config compiled qid)

  -- The run of the task: `runtime.execute` on the input slots that are made of it.
  abbrev pub run_of : (fuel : ℕ) (qid : String) → LcbTask → Option (Outcome qid)
  run_of fuel qid task =
      execute setup.store setup.validate (setup.executors sandbox qid) fuel
        (context_of setup sandbox args config compiled qid) compiled.graph
        (slots_of setup sandbox args config compiled qid task)
        (world_of setup sandbox args config compiled qid)

  -- The run of the task ends in a deadlock, and the report says that it failed.
  abbrev pub IsDeadlock : ℕ → LcbTask → TaskReport → Type 0
  IsDeadlock fuel task r =
      (run_of fuel r.task_id task ≡ some (err graph_deadlock_error))
      × (r ≡ report r.task_id none task_failed "failed")

  -- The run of the task returns a state that is frozen with an output, and the report holds it.
  abbrev pub IsCompletion : ℕ → LcbTask → TaskReport → Type 0
  IsCompletion fuel task r =
      (state : RuntimeState) × (w : W setup sandbox args config compiled r.task_id) × (run_of fuel
          r.task_id task
        ≡ some (ok (state, w)))
      × (r ≡ report r.task_id (some state) task_completed "frozen")
      × (is_open state ≡ false)

  -- The report is of a task of the benchmark, and tells how its run ended.
  abbrev pub IsReported : ℕ → Dict String LcbTask → TaskReport → Type 0
  IsReported fuel task_map r =
      (task : LcbTask) × (lookup r.task_id task_map ≡ some task)
      × (IsDeadlock fuel task r ⊎ IsCompletion fuel task r)

  abbrev IsEnded : RuntimeState → Type 0
  IsEnded s = (s.frozen ≡ true) × (is_some s.final_output_artifact_id ≡ true)

  completed :
      (fuel : ℕ) (task : LcbTask) (qid : String) (s : RuntimeState)
      (w : W setup sandbox args config compiled qid)
      → run_of fuel qid task ≡ some (ok (s, w))
      → IsEnded s
      → IsCompletion fuel task
          (report qid (some s) task_completed (if s.frozen then "frozen" else "incomplete"))
  completed fuel task qid s w run (frozen, present) = (s, w, run, rw frozen refl, ground arith)

  abbrev Told : ℕ → LcbTask → String → TaskReport → Type 0
  Told fuel task qid r = (r.task_id ≡ qid) × (IsDeadlock fuel task r ⊎ IsCompletion fuel task r)

  report_of-Told :
      (fuel : ℕ) (task : LcbTask) (qid : String) (outcome : Outcome qid) (r : TaskReport)
      → ((s : RuntimeState) (w : W setup sandbox args config compiled qid)
          → run_of fuel qid task ≡ some (ok (s, w))
          → IsEnded s)
      → run_of fuel qid task ≡ some outcome
      → report_of setup sandbox args config compiled qid outcome ≡ ok r
      → Told fuel task qid r
  unfolding report_of
  report_of-Told fuel task qid (ok (s, w)) r ended run h =
      subst (Told fuel task qid) (ok-injective h)
        (refl, inr (completed fuel task qid s w run (ended s w run)))
  report_of-Told fuel task qid (err graph_deadlock_error) r ended run h =
      subst (Told fuel task qid) (ok-injective h) (refl, inl (run, refl))
  report_of-Told fuel task qid (err e) r ended run h = cc

  Told-from :
      (fuel : ℕ) (task : LcbTask) (qid : String) (run : Option (Outcome qid)) (r : TaskReport)
      → ((s : RuntimeState) (w : W setup sandbox args config compiled qid)
          → run_of fuel qid task ≡ some (ok (s, w))
          → IsEnded s)
      → run_of fuel qid task ≡ run
      → (elim run [
        | none ↦ none
        | some outcome ↦ some (report_of setup sandbox args config compiled qid outcome)
      ])
        ≡ some (ok r)
      → Told fuel task qid r
  Told-from fuel task qid none r ended same h = cc
  Told-from fuel task qid (some outcome) r ended same h =
      report_of-Told fuel task qid outcome r ended same (some-injective h)

  abbrev AllConsistent : Type 0
  AllConsistent =
      (qid : String) (state : RuntimeState)
      → IsStored qid state (world_of setup sandbox args config compiled qid).checkpoints
      → IsConsistent state

  run_one-IsReported :
      (fuel : ℕ) (task_map : Dict String LcbTask) (qid : String) (r : TaskReport)
      → AllConsistent
      → run_one setup sandbox args config compiled fuel task_map qid ≡ some (ok r)
      → (r.task_id ≡ qid) × IsReported fuel task_map r
  unfolding run_one
  run_one-IsReported fuel task_map qid r consistent h = at (lookup qid task_map) refl h
    where
      at :
          (found : Option LcbTask)
          → lookup qid task_map ≡ found
          → (elim found [
            | none ↦ some (err key_error)
            | some task ↦ elim (run_of fuel qid task) [
              | none ↦ none
              | some outcome ↦ some (report_of setup sandbox args config compiled qid outcome)
            ]
          ])
            ≡ some (ok r)
          → (r.task_id ≡ qid) × IsReported fuel task_map r
      at none found k = cc
      at (some task) found k =
          let (name, told) =
            Told-from fuel task qid (run_of fuel qid task) r
              (λ s w.
                execute-IsFrozen setup.store setup.validate (setup.executors sandbox qid)
                  compiled.graph fuel (context_of setup sandbox args config compiled qid)
                  (slots_of setup sandbox args config compiled qid task)
                  (world_of setup sandbox args config compiled qid) s w (consistent qid))
              refl k in
          (name, (task, ap (λ q. lookup q task_map) name ∙ found, told))

  abbrev Joined : Type 0
  Joined = Option (Result Exception (List TaskReport))

  -- How `run_tasks` joins the first report and the rest.
  joined : Option (Result Exception TaskReport) → Joined → Joined
  joined none rest = none
  joined (some (err e)) rest = some (err e)
  joined (some (ok first)) none = none
  joined (some (ok first)) (some (err e)) = some (err e)
  joined (some (ok first)) (some (ok rest)) = some (ok (first ∷ rest))

  joined-eq-ok :
      (one : Option (Result Exception TaskReport)) (rest : Joined) (reports : List TaskReport)
      → joined one rest ≡ some (ok reports)
      → (first : TaskReport) × (others : List TaskReport) × (one ≡ some (ok first))
        × (rest ≡ some (ok others))
        × (first ∷ others ≡ reports)
  unfolding joined
  joined-eq-ok none rest reports h = cc
  joined-eq-ok (some (err e)) rest reports h = cc
  joined-eq-ok (some (ok first)) none reports h = cc
  joined-eq-ok (some (ok first)) (some (err e)) reports h = cc
  joined-eq-ok (some (ok first)) (some (ok others)) reports h =
      (first, others, refl, refl, ok-injective (some-injective h))

  run_tasks-joined :
      (fuel : ℕ) (task_map : Dict String LcbTask) (qid : String) (ids : List String)
      → run_tasks setup sandbox args config compiled fuel task_map (qid ∷ ids)
        ≡ joined
            (run_one setup sandbox args config compiled fuel task_map qid)
            (run_tasks setup sandbox args config compiled fuel task_map ids)
  unfolding run_tasks joined
  run_tasks-joined fuel task_map qid ids =
      at (run_one setup sandbox args config compiled fuel task_map qid)
        (run_tasks setup sandbox args config compiled fuel task_map ids)
    where
      at :
          (one : Option (Result Exception TaskReport)) (rest : Joined)
          → (elim one [
            | none ↦ none
            | some (err e) ↦ some (err e)
            | some (ok first) ↦ elim rest [
              | none ↦ none
              | some (err e) ↦ some (err e)
              | some (ok others) ↦ some (ok (first ∷ others))
            ]
          ])
            ≡ joined one rest
      at none rest = refl
      at (some (err e)) rest = refl
      at (some (ok first)) none = refl
      at (some (ok first)) (some (err e)) = refl
      at (some (ok first)) (some (ok others)) = refl

  -- Where the command ends, each task of the run has one report, in the order of the manifest, and is
  -- a task of the benchmark: its run ended in a deadlock and the report says failed, or its run
  -- returned a state that is frozen with an output, which the report holds and the final evaluation
  -- accepts. A checkpoint that a run starts from is taken to be frozen exactly when it has an
  -- output.
  pub run_tasks-IsReported :
      (fuel : ℕ) (task_map : Dict String LcbTask) (ids : List String) (reports : List TaskReport)
      → AllConsistent
      → run_tasks setup sandbox args config compiled fuel task_map ids ≡ some (ok reports)
      → (map id_of reports ≡ ids) × All (IsReported fuel task_map) reports
  unfolding run_tasks
  run_tasks-IsReported fuel task_map [] reports consistent h =
      subst (λ rs. (map id_of rs ≡ []) × All (IsReported fuel task_map) rs)
        (ok-injective (some-injective h)) (refl, tt)
  run_tasks-IsReported fuel task_map (qid ∷ ids) reports consistent h =
      let (first, others, one, rest, same) =
        joined-eq-ok (run_one setup sandbox args config compiled fuel task_map qid)
          (run_tasks setup sandbox args config compiled fuel task_map ids) reports
          (sym (run_tasks-joined fuel task_map qid ids) ∙ h) in
      let (name, good) = run_one-IsReported fuel task_map qid first consistent one in
      let (names, goods) = run_tasks-IsReported fuel task_map ids others consistent rest in
      subst (λ rs. (map id_of rs ≡ qid ∷ ids) × All (IsReported fuel task_map) rs) same
        (cc (name, names), (good, goods))
