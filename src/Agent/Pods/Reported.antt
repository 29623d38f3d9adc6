-- ===== src/Agent/Pods/Reported.antt =====
-- No instance with a pod file is left out of a round of health reports.
use admiral_fleet.Prelude.{
  Text, Bool, true, false, List, [], ◌∷◌, ◌++◌, ◌≡◌, refl, subst, ◌∙◌, ap, eq_text, eq_text_iff,
  is_empty, Option, some, Bool-cases, inl, inr, any_of, ◌||◌, arith,
}
use admiral_fleet.Agent.Pods
use admiral_fleet.Agent.Pods.Report.{
  report_pods, report_missing, list_quadlet_pod_files, listed_instances, check_all_pods,
}
use admiral_fleet.Agent.Pods.Earned.{report_pod-instance}

abbrev pub names : Text → List Text → Bool
names id = any_of (λ x. eq_text x id)

abbrev pub reports : Text → List Pods.HealthReport → Bool
reports id = any_of (λ r. eq_text r.instance_id id)

reports-append :
    (id : Text) (xs ys : List Pods.HealthReport)
    → reports id (xs ++ ys) ≡ (reports id xs || reports id ys)
reports-append id [] ys = refl
reports-append id (x ∷ xs) ys = ground (arith, reports-append id xs ys)

reports-report_pods :
    (a : Pods.AgentSettings) (n : Pods.Answers) (s : Option (List (Text × Text))) (id : Text)
    (pods : List (Text × Text))
    → reports id (report_pods a n s pods) ≡ names id (listed_instances pods)
unfolding report_pods
reports-report_pods a n s id [] = refl
reports-report_pods a n s id ((name, status) ∷ pods) =
    let rest = reports-report_pods a n s id pods in
    let i = Pods.extract_instance_id name in
    elim (Bool-cases (is_empty i)) [
      | inl foreign ↦ rw foreign rest
      | inr ours ↦ rw (ours, report_pod-instance a n s i status, rest) refl
    ]

or_true : (b : Bool) → (b || true) ≡ true
or_true true = refl
or_true false = refl

names-report_missing :
    (id : Text) (listed ids : List Text)
    → names id ids ≡ true
    → (names id listed || reports id (report_missing listed ids)) ≡ true
unfolding report_missing
names-report_missing id listed [] h = absurd (cc h)
names-report_missing id listed (i ∷ ids) h = elim (Bool-cases (names i listed)) [
  | inl known ↦ elim (Bool-cases (eq_text i id)) [
    | inl same ↦
        let here = subst (λ x. names x listed ≡ true) ((eq_text_iff i id).0 same) known in
        rw here refl
    | inr other ↦ rw known (names-report_missing id listed ids (rw other at h))
  ]
  | inr missing ↦ elim (Bool-cases (eq_text i id)) [
    | inl same ↦ rw (missing, same) (or_true (names id listed))
    | inr other ↦ rw (missing, other) (names-report_missing id listed ids (rw other at h))
  ]
]

-- When the pods can be listed, a round sends a report of every instance that has a pod file.
pub check_all_pods-Reported :
    (a : Pods.AgentSettings) (n : Pods.Answers) (pods : List (Text × Text)) (id : Text)
    → Pods.list_admiral_pods n ≡ some pods
    → names id (list_quadlet_pod_files a n) ≡ true
    → reports id (check_all_pods a n) ≡ true
unfolding check_all_pods
check_all_pods-Reported a n pods id listed h =
    let first = report_pods a n (Pods.list_admiral_container_states n) pods in
    let second = report_missing (listed_instances pods) (list_quadlet_pod_files a n) in
    let e : check_all_pods a n ≡ first ++ second = rw (check_all_pods, listed) refl in
    let missing = names-report_missing id (listed_instances pods) (list_quadlet_pod_files a n) h in
    let same = reports-report_pods a n (Pods.list_admiral_container_states n) id pods in
    ap (reports id) e
    ∙ reports-append id first second
    ∙ ap (λ b. b || reports id second) same
    ∙ missing
