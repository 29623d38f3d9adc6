-- ===== src/Quadlet/Render/Accepted.antt =====
-- A rendering without an error has checked and written every service.
use admiral_fleet.Prelude.{
  Text, Bool, true, List, [], ◌∷◌, Option, none, some, ◌≡◌, refl, ◌⊎◌, inl, inr, All, Bool-cases,
  Option-cases, is_positive, is_empty, trim_space,
}
use admiral_fleet.Fleet.Task.{FleetTask, ServiceInfo}
use admiral_fleet.Security.{Refusal, validate_instance_id}
use admiral_fleet.Executor.Files.{Ports, port_of}
use admiral_fleet.Quadlet.Names.{
  container_file_name, volume_file_name, pod_file_name, shared_volume_file_name,
}
use admiral_fleet.Quadlet.Policy.{PolicyError, validate_image_reference}
use admiral_fleet.Quadlet.Units.{
  sort_by, insert_by, text_less, first_sensitive, render_env, render_container, render_volume,
  render_shared_volume, render_pod,
}
use admiral_fleet.Quadlet.Render.{
  Renderer, Place, unit_file, env_file, RenderError, Rendered, first_without_port, check_ports,
  check_id, check_renderable, write_then, path_of, service_less, env_path, write_env, write_volume,
  write_service, render_services, render_shared_volumes, write_all, unless_refused, render,
}

abbrev pub Has : Place × Text → List (Place × Text) → Type 0
Has x [] = ⊥
Has x (y ∷ ys) = (y ≡ x) ⊎ Has x ys

-- Without an error, what follows a write had none either, and its files are there.
abbrev Kept : Rendered → Rendered → Type 0
Kept rest out = (rest.1 ≡ none) × ((x : Place × Text) → Has x rest.0 → Has x out.0)

write_then-Kept :
    (r : Renderer) (p : Place) (c : Text) (rest : Rendered)
    → (write_then r p c rest).1 ≡ none
    → Kept rest (write_then r p c rest) × Has (p, c) (write_then r p c rest).0
write_then-Kept r p c (files, e) h = elim (Bool-cases (r.can_write (path_of p))) [
  | inl w ↦ rw w ((rw w at h, λ x q. inr q), inl refl)
  | inr n ↦ absurd (cc (rw n at h))
]

-- What a rendering without an error says of a service.
abbrev pub Accepted : Renderer → Text → List (Place × Text) → ServiceInfo → Type 0
Accepted r i files svc =
    (validate_image_reference svc.image r.allowed_registries r.allow_mutable_refs ≡ none)
    × (first_sensitive svc.env ≡ none)
    × Has (unit_file (container_file_name i svc.name), render_container i svc (env_path r i svc))
        files

write_volume-Kept :
    (r : Renderer) (i : Text) (svc : ServiceInfo) (rest : Rendered)
    → (write_volume r i svc rest).1 ≡ none
    → Kept rest (write_volume r i svc rest)
write_volume-Kept r i svc rest h = elim (Bool-cases (is_empty svc.volume)) [
  | inl e ↦ rw e (rw e at h, λ x q. q)
  | inr e ↦
      rw e
        (write_then-Kept r (unit_file (volume_file_name i svc.name)) (render_volume i svc.name) rest
          (rw e at h)).0
]

write_env-Kept :
    (r : Renderer) (i : Text) (svc : ServiceInfo) (t : Text ⊎ Text) (rest : Rendered)
    → (write_env r i svc t rest).1 ≡ none
    → Kept rest (write_env r i svc t rest) × ((c : Text) × (t ≡ inl c))
write_env-Kept r i svc (inl c) rest h =
    ((write_then-Kept r (env_file (env_path r i svc)) c rest h).0, (c, refl))
write_env-Kept r i svc (inr k) rest h = absurd (cc h)

render_env-allowed :
    (svc : ServiceInfo) (c : Text) → render_env svc ≡ inl c → first_sensitive svc.env ≡ none
unfolding render_env
render_env-allowed svc c h = elim (Option-cases (first_sensitive svc.env)) [
  | inl none_found ↦ none_found
  | inr (k, found) ↦ absurd (cc (rw (render_env, found) at h))
]

write_service-Accepted :
    (r : Renderer) (i : Text) (svc : ServiceInfo) (e : Option PolicyError) (rest : Rendered)
    → validate_image_reference svc.image r.allowed_registries r.allow_mutable_refs ≡ e
    → (write_service r i svc e rest).1 ≡ none
    → Kept rest (write_service r i svc e rest) × Accepted r i (write_service r i svc e rest).0 svc
write_service-Accepted r i svc (some x) rest v h = absurd (cc h)
write_service-Accepted r i svc none rest v h =
    let unit =
      write_then r (unit_file (container_file_name i svc.name))
        (render_container i svc (env_path r i svc)) rest in
    let env = write_env r i svc (render_env svc) unit in
    let volume_kept = write_volume-Kept r i svc env h in
    let (env_kept, (c, rendered)) = write_env-Kept r i svc (render_env svc) unit volume_kept.0 in
    let (unit_kept, there) =
      write_then-Kept r (unit_file (container_file_name i svc.name))
        (render_container i svc (env_path r i svc)) rest env_kept.0 in
    (
      (unit_kept.0, λ x q. volume_kept.1 x (env_kept.1 x (unit_kept.1 x q))),
      (v, render_env-allowed svc c rendered, volume_kept.1 _ (env_kept.1 _ there)),
    )

All-more :
    (r : Renderer) (i : Text) (files more : List (Place × Text)) (services : List ServiceInfo)
    → ((x : Place × Text) → Has x files → Has x more)
    → All (Accepted r i files) services
    → All (Accepted r i more) services
All-more r i files more [] h a = tt
All-more r i files more (svc ∷ services) h a =
    ((a.0.0, a.0.1, h _ a.0.2), All-more r i files more services h a.1)

render_services-Accepted :
    (r : Renderer) (i : Text) (services : List ServiceInfo)
    → (render_services r i services).1 ≡ none
    → All (Accepted r i (render_services r i services).0) services
unfolding render_services
render_services-Accepted r i [] h = tt
render_services-Accepted r i (svc ∷ services) h =
    let v = validate_image_reference svc.image r.allowed_registries r.allow_mutable_refs in
    let rest = render_services r i services in
    let (kept, accepted) = write_service-Accepted r i svc v rest refl h in
    (
      accepted,
      All-more r i rest.0 (write_service r i svc v rest).0 services kept.1
          (render_services-Accepted r i services kept.0),
    )

render_shared-Kept :
    (r : Renderer) (i : Text) (vs : List Text) (rest : Rendered)
    → (render_shared_volumes r i vs rest).1 ≡ none
    → Kept rest (render_shared_volumes r i vs rest)
unfolding render_shared_volumes
render_shared-Kept r i [] rest h = (h, λ x q. q)
render_shared-Kept r i (v ∷ vs) rest h =
    let more = render_shared_volumes r i vs rest in
    let kept =
      (write_then-Kept r (unit_file (shared_volume_file_name i v)) (render_shared_volume i v) more
        h).0 in
    let before = render_shared-Kept r i vs rest kept.0 in (before.0, λ x q. kept.1 x (before.1 x q))

All-insert :
    (P : ServiceInfo → Type 0) (less : ServiceInfo → ServiceInfo → Bool) (x : ServiceInfo)
    (ys : List ServiceInfo)
    → All P (insert_by less x ys)
    → P x × All P ys
unfolding insert_by
All-insert P less x [] h = h
All-insert P less x (y ∷ ys) h = elim (Bool-cases (less y x)) [
  | inl e ↦
      let (hy, hs) = (rw e at h) in let (hx, hys) = All-insert P less x ys hs in (hx, (hy, hys))
  | inr e ↦ (rw e at h)
]

All-sort :
    (P : ServiceInfo → Type 0) (less : ServiceInfo → ServiceInfo → Bool) (xs : List ServiceInfo)
    → All P (sort_by less xs)
    → All P xs
unfolding sort_by
All-sort P less [] h = tt
All-sort P less (x ∷ xs) h =
    let (hx, hs) = All-insert P less x (sort_by less xs) h in (hx, All-sort P less xs hs)

ports_checked :
    (ports : Ports) (services : List ServiceInfo)
    → first_without_port ports services ≡ none
    → All
        (λ svc. is_positive svc.port ≡ true → is_positive (port_of svc.name ports) ≡ true)
        services
unfolding first_without_port
ports_checked ports [] h = tt
ports_checked ports (svc ∷ services) h = elim (Bool-cases (is_positive svc.port)) [
  | inl p ↦ elim (Bool-cases (is_positive (port_of svc.name ports))) [
    | inl q ↦ ((λ e. q), ports_checked ports services (rw (p, q) at h))
    | inr q ↦ absurd (cc (rw (p, q) at h))
  ]
  | inr p ↦ ((λ e. absurd (cc (p, e))), ports_checked ports services (rw p at h))
]

check_ports-none : (o : Option Text) → check_ports o ≡ none → o ≡ none
check_ports-none none h = refl
check_ports-none (some x) h = absurd (cc h)

check_id-none :
    (r : Renderer) (task : FleetTask) (o : Option Refusal)
    → check_id r task o ≡ none
    → (o ≡ none) × (first_without_port r.host_ports task.services ≡ none)
check_id-none r task (some e) h = absurd (cc h)
check_id-none r task none h =
    (refl, check_ports-none (first_without_port r.host_ports task.services) h)

check_renderable-none :
    (r : Renderer) (task : FleetTask)
    → check_renderable r task ≡ none
    → (validate_instance_id task.instance_id ≡ none)
      × (first_without_port r.host_ports task.services ≡ none)
unfolding check_renderable
check_renderable-none r task h = elim (Bool-cases (r.is_specific (trim_space r.publish_address))) [
  | inl e ↦ check_id-none r task (validate_instance_id task.instance_id) (rw e at h)
  | inr e ↦ absurd (cc (rw e at h))
]

-- A rendering without an error.
abbrev pub Complete : Renderer → FleetTask → List (Place × Text) → Type 0
Complete r task files =
    (validate_instance_id task.instance_id ≡ none)
    × All (λ svc. is_positive svc.port ≡ true → is_positive (port_of svc.name r.host_ports) ≡ true)
        task.services
    × Has
        (
          unit_file (pod_file_name task.instance_id),
          render_pod r.publish_address r.host_ports r.cpu_limit task,
        )
        files
    × All (Accepted r task.instance_id files) task.services

written-Complete :
    (r : Renderer) (task : FleetTask)
    → check_renderable r task ≡ none
    → (write_all r task).1 ≡ none
    → Complete r task (write_all r task).0
written-Complete r task c h =
    let i = task.instance_id in
    let services = render_services r i (sort_by service_less task.services) in
    let shared = render_shared_volumes r i (sort_by text_less task.shared_volumes) services in
    let (checked, ports) = check_renderable-none r task c in
    let (kept, pod) =
      write_then-Kept r (unit_file (pod_file_name i))
        (render_pod r.publish_address r.host_ports r.cpu_limit task) shared h in
    let kept' = render_shared-Kept r i (sort_by text_less task.shared_volumes) services kept.0 in
    (
      checked,
      ports_checked r.host_ports task.services ports,
      pod,
      All-more r i services.0 (write_all r task).0 task.services (λ x q. kept.1 x (kept'.1 x q))
          (All-sort (Accepted r i services.0) service_less task.services
            (render_services-Accepted r i (sort_by service_less task.services) kept'.0)),
    )

unless_refused-Complete :
    (r : Renderer) (task : FleetTask) (o : Option RenderError)
    → check_renderable r task ≡ o
    → (unless_refused r task o).1 ≡ none
    → Complete r task (unless_refused r task o).0
unless_refused-Complete r task (some e) c h = absurd (cc h)
unless_refused-Complete r task none c h = written-Complete r task c h

-- A rendering that ends without an error was of a valid instance id; each service with a port has a
-- host port, passes the image policy and has no variable with a sensitive name; and the pod's unit
-- and the container unit of every service are written as the renderer writes them.
pub render-Complete :
    (r : Renderer) (task : FleetTask) → (render r task).1 ≡ none → Complete r task (render r task).0
unfolding render
render-Complete r task h = unless_refused-Complete r task (check_renderable r task) refl h
