-- ===== src/Agent/Pods/Earned.antt =====
-- A pod is reported as healthy only after everything that is declared of it was found in order.
use admiral_fleet.Prelude.{
  Text, codes, true, List, [], ◌∷◌, ◌++◌, ◌≡◌, ◌≢◌, refl, sym, subst, eq_text, eq_text_iff,
  is_empty, Option, none, some, Option-cases, Bool-cases, inl, inr, ◌⊎◌, All, All-append, to_lower,
  trim_space, any_of,
}
use admiral_fleet.Security.{validate_instance_id}
use admiral_fleet.Agent.Pods
use admiral_fleet.Agent.Pods.Report.{
  first_failure, check_path, check_declared, blamed, check_declared_service_health, unit_name,
  check_containers, check_units, unit_pattern, check_instance_service_containers, report_pod,
  report_pods, report_missing, list_quadlet_pod_files, listed_instances, check_all_pods,
}

-- The pod of the instance is listed as running.
abbrev pub Runs : Text → List (Text × Text) → Type 0
Runs instance [] = ⊥
Runs instance ((name, status) ∷ pods) =
    ((Pods.extract_instance_id name ≡ instance) × (status ≡ codes "Running")) ⊎ Runs instance pods

-- The container of a unit file is listed, in a state that reads `running`.
abbrev pub UnitRuns : List (Text × Text) → Text → Type 0
UnitRuns states file =
    (state : Text) × (Pods.state_of (unit_name file) states ≡ some state)
    × (eq_text (to_lower (trim_space state)) (codes "running") ≡ true)

-- There is no file of declared checks, or all of its checks pass.
abbrev pub Passes : Pods.AgentSettings → Pods.Answers → Text → Pods.CheckFile → Type 0
Passes a n instance Pods.no_file = Unit
Passes a n instance Pods.unreadable = ⊥
Passes a n instance Pods.unparsed = ⊥
Passes a n instance (Pods.declared cs) =
    All (λ c. Pods.run_declared_service_health_check a n instance c ≡ none) cs

-- The unit files of the instance: there are some, and the container of each runs.
abbrev pub UnitsRun : Pods.AgentSettings → Pods.Answers → Text → Type 0
UnitsRun a n instance =
    (states : List (Text × Text)) × (files : List Text) × (Pods.list_admiral_container_states n
      ≡ some states)
    × (n.glob (unit_pattern a instance) ≡ some files)
    × (files ≢ [])
    × All (UnitRuns states) files

-- The containers run and the declared checks pass.
abbrev pub InOrder : Pods.AgentSettings → Pods.Answers → Text → Type 0
InOrder a n instance =
    UnitsRun a n instance × Passes a n instance (n.check_file (check_path a instance))

-- A report of health: the pod runs, and its services are in order.
abbrev pub Earned : Pods.AgentSettings → Pods.Answers → Pods.HealthReport → Type 0
Earned a n r =
    r.status ≡ Pods.healthy
    → ((pods : List (Text × Text)) × (Pods.list_admiral_pods n ≡ some pods)
        × Runs r.instance_id pods)
      × InOrder a n r.instance_id

first_failure-none :
    (a : Pods.AgentSettings) (n : Pods.Answers) (instance : Text) (cs : List Pods.Check)
    → first_failure a n instance cs ≡ none
    → All (λ c. Pods.run_declared_service_health_check a n instance c ≡ none) cs
unfolding first_failure
first_failure-none a n instance [] h = tt
first_failure-none a n instance (c ∷ cs) h =
    elim (Option-cases (Pods.run_declared_service_health_check a n instance c)) [
      | inl passed ↦ (passed, first_failure-none a n instance cs (rw (first_failure, passed) at h))
      | inr (e, failed) ↦ absurd (cc (rw (first_failure, failed) at h))
    ]

check_containers-none :
    (states : List (Text × Text)) (files : List Text)
    → check_containers states files ≡ none
    → All (UnitRuns states) files
unfolding check_containers
check_containers-none states [] h = tt
check_containers-none states (file ∷ files) h =
    elim (Option-cases (Pods.state_of (unit_name file) states)) [
      | inl missing ↦ absurd (cc (rw (check_containers, missing) at h))
      | inr (state, found) ↦
          elim (Bool-cases (eq_text (to_lower (trim_space state)) (codes "running"))) [
            | inl up ↦ (
              (state, found, up),
              check_containers-none states files (rw (check_containers, found, up) at h),
            )
            | inr down ↦ absurd (cc (rw (check_containers, found, down) at h))
          ]
    ]

check_units-none :
    (states : List (Text × Text)) (files : List Text)
    → check_units states (some files) ≡ none
    → (files ≢ []) × All (UnitRuns states) files
check_units-none states [] h = absurd (cc h)
check_units-none states (file ∷ files) h =
    ((λ e. absurd (cc e)), check_containers-none states (file ∷ files) h)

blamed-none : (o : Option Text) → blamed o ≡ none → o ≡ none
blamed-none none h = refl
blamed-none (some s) h = absurd (cc h)

file-Passes :
    (a : Pods.AgentSettings) (n : Pods.Answers) (instance : Text) (file : Pods.CheckFile)
    → check_declared a n instance file ≡ none
    → Passes a n instance file
unfolding check_declared
file-Passes a n instance Pods.no_file h = tt
file-Passes a n instance Pods.unreadable h = absurd (cc h)
file-Passes a n instance Pods.unparsed h = absurd (cc h)
file-Passes a n instance (Pods.declared cs) h =
    first_failure-none a n instance cs (blamed-none (first_failure a n instance cs) h)

declared-Passes :
    (a : Pods.AgentSettings) (n : Pods.Answers) (instance : Text)
    → check_declared_service_health a n instance ≡ none
    → Passes a n instance (n.check_file (check_path a instance))
unfolding check_declared_service_health
declared-Passes a n instance h = elim (Option-cases (validate_instance_id instance)) [
  | inr (e, refused) ↦ absurd (cc (rw (check_declared_service_health, refused) at h))
  | inl accepted ↦
      file-Passes a n instance (n.check_file (check_path a instance))
        (rw (check_declared_service_health, accepted) at h)
]

units-Run :
    (a : Pods.AgentSettings) (n : Pods.Answers) (instance : Text)
    → check_instance_service_containers a n instance (Pods.list_admiral_container_states n) ≡ none
    → UnitsRun a n instance
unfolding check_instance_service_containers
units-Run a n instance h = elim (Option-cases (Pods.list_admiral_container_states n)) [
  | inl failed ↦ absurd (cc (rw (failed, check_instance_service_containers) at h))
  | inr (states, listed) ↦ elim (Option-cases (n.glob (unit_pattern a instance))) [
    | inl failed ↦ absurd (cc (rw (listed, check_instance_service_containers, failed) at h))
    | inr (files, found) ↦
        let (some_file, running) =
          check_units-none states files
            (rw (listed, check_instance_service_containers, found) at h) in
        (states, files, listed, found, some_file, running)
  ]
]

report_pod-InOrder :
    (a : Pods.AgentSettings) (n : Pods.Answers) (instance status : Text)
    → (report_pod a n (Pods.list_admiral_container_states n) instance status).status ≡ Pods.healthy
    → (status ≡ codes "Running") × InOrder a n instance
unfolding report_pod
report_pod-InOrder a n instance status h = elim (Bool-cases (eq_text status (codes "Running"))) [
  | inr down ↦ absurd (cc (rw (report_pod, down) at h))
  | inl up ↦
      let states = Pods.list_admiral_container_states n in
      elim (Option-cases (check_instance_service_containers a n instance states)) [
        | inr (m, broken) ↦ absurd (cc (rw (report_pod, up, broken) at h))
        | inl running ↦ elim (Option-cases (check_declared_service_health a n instance)) [
          | inr (m, failed) ↦ absurd (cc (rw (report_pod, up, running, failed) at h))
          | inl passed ↦ (
            (eq_text_iff status (codes "Running")).0 up,
            (units-Run a n instance running, declared-Passes a n instance passed),
          )
        ]
      ]
]

-- The report of a pod names its instance.
pub report_pod-instance :
    (a : Pods.AgentSettings) (n : Pods.Answers) (s : Option (List (Text × Text))) (i status : Text)
    → (report_pod a n s i status).instance_id ≡ i
unfolding report_pod
report_pod-instance a n s i status = elim (Bool-cases (eq_text status (codes "Running"))) [
  | inr down ↦ rw (report_pod, down) refl
  | inl up ↦ elim (Option-cases (check_instance_service_containers a n i s)) [
    | inr (m, broken) ↦ rw (report_pod, up, broken) refl
    | inl running ↦ elim (Option-cases (check_declared_service_health a n i)) [
      | inr (m, failed) ↦ rw (report_pod, up, running, failed) refl
      | inl passed ↦ rw (report_pod, up, running, passed) refl
    ]
  ]
]

report_pod-Earned :
    (a : Pods.AgentSettings) (n : Pods.Answers) (all : List (Text × Text)) (name status : Text)
    → Pods.list_admiral_pods n ≡ some all
    → (status ≡ codes "Running" → Runs (Pods.extract_instance_id name) all)
    → Earned a n (
        report_pod a n
          (Pods.list_admiral_container_states n)
          (Pods.extract_instance_id name)
          status)
report_pod-Earned a n all name status listed runs h =
    let i = Pods.extract_instance_id name in
    let (up, order) = report_pod-InOrder a n i status h in
    let same = sym (report_pod-instance a n (Pods.list_admiral_container_states n) i status) in
    ((all, listed, subst (λ x. Runs x all) same (runs up)), subst (λ x. InOrder a n x) same order)

report_pods-Earned :
    (a : Pods.AgentSettings) (n : Pods.Answers) (all pods : List (Text × Text))
    → Pods.list_admiral_pods n ≡ some all
    → ((i : Text) → Runs i pods → Runs i all)
    → All (Earned a n) (report_pods a n (Pods.list_admiral_container_states n) pods)
unfolding report_pods
report_pods-Earned a n all [] listed among = tt
report_pods-Earned a n all ((name, status) ∷ pods) listed among =
    let rest = report_pods-Earned a n all pods listed (λ i r. among i (inr r)) in
    let i = Pods.extract_instance_id name in
    elim (Bool-cases (is_empty i)) [
      | inl foreign ↦ rw foreign rest
      | inr ours ↦
          rw ours
            (report_pod-Earned a n all name status listed (λ up. among i (inl (refl, up))), rest)
    ]

report_missing-Earned :
    (a : Pods.AgentSettings) (n : Pods.Answers) (listed ids : List Text)
    → All (Earned a n) (report_missing listed ids)
unfolding report_missing
report_missing-Earned a n listed [] = tt
report_missing-Earned a n listed (id ∷ ids) =
    let rest = report_missing-Earned a n listed ids in
    elim (Bool-cases (any_of (λ x. eq_text x id) listed)) [
      | inl known ↦ rw known rest
      | inr missing ↦ rw missing ((λ h. absurd (cc h)), rest)
    ]

-- Each report of a round that says healthy is about an instance whose pod is listed as running, for
-- which there are unit files, whose containers are all listed in a running state, and which has no
-- file of declared checks or passes every check of it.
pub check_all_pods-Earned :
    (a : Pods.AgentSettings) (n : Pods.Answers) → All (Earned a n) (check_all_pods a n)
unfolding check_all_pods
check_all_pods-Earned a n = elim (Option-cases (Pods.list_admiral_pods n)) [
  | inl failed ↦
      let e : check_all_pods a n ≡ [] = rw (check_all_pods, failed) refl in
      subst (All (Earned a n)) (sym e) tt
  | inr (pods, listed) ↦
      let first = report_pods a n (Pods.list_admiral_container_states n) pods in
      let second = report_missing (listed_instances pods) (list_quadlet_pod_files a n) in
      let e : check_all_pods a n ≡ first ++ second = rw (check_all_pods, listed) refl in
      subst (All (Earned a n)) (sym e) (
        All-append (Earned a n) first second (report_pods-Earned a n pods pods listed (λ i r. r))
          (report_missing-Earned a n (listed_instances pods) (list_quadlet_pod_files a n)))
]
