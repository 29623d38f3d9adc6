-- ===== src/Quadlet/Render/Covered.antt =====
-- `Remove` removes what `Render` wrote for an instance.
use admiral_fleet.Prelude.{
  Text, codes, Bool, true, List, [], ◌∷◌, ◌++◌, Option, none, some, ◌≡◌, refl, subst, ◌⊎◌, inl, inr,
  All, Bool-cases, has_suffix, has_prefix-append, append_assoc, ◌||◌, is_empty, arith,
}
use mathlib.Core.List.{reverse, reverse-append}
use admiral_fleet.Fleet.Task.{FleetTask, ServiceInfo}
use admiral_fleet.Quadlet.Names.{
  pod_name, safe_name, pod_file_name, container_file_name, volume_file_name,
  shared_volume_file_name,
}
use admiral_fleet.Quadlet.Policy.{PolicyError}
use admiral_fleet.Quadlet.Units.{
  sort_by, text_less, render_env, render_container, render_volume, render_shared_volume, render_pod,
}
use admiral_fleet.Quadlet.Render.{
  Renderer, Place, unit_file, env_file, RenderError, Rendered, check_renderable, write_then,
  path_of, service_less, env_path, write_env, write_volume, write_service, render_services,
  render_shared_volumes, unless_refused, render, is_removed,
}

-- A unit file that a removal of the instance removes.
abbrev pub Covered : Text → Place × Text → Type 0
Covered i (unit_file name, content) = is_removed i name ≡ true
Covered i (env_file path, content) = Unit

has_suffix-append : (s t : Text) → has_suffix (s ++ t) t ≡ true
unfolding has_suffix
has_suffix-append s t = rw (reverse-append s t) (has_prefix-append (reverse t) (reverse s))

any_suffix : (a b c d : Bool) → ((a ≡ true) ⊎ ((b ≡ true) ⊎ (c ≡ true))) → (a || b || c || d) ≡ true
any_suffix a b c d h = ground arith

-- A name of the instance that ends like a unit is removed.
named :
    (i middle suffix : Text)
    → ((suffix ≡ codes ".pod") ⊎ ((suffix ≡ codes ".container") ⊎ (suffix ≡ codes ".volume")))
    → is_removed i (pod_name i ++ (middle ++ suffix)) ≡ true
unfolding is_removed
named i middle suffix h =
    let ends =
      subst (λ s. has_suffix s suffix ≡ true) (append_assoc (pod_name i) middle suffix)
        (has_suffix-append (pod_name i ++ middle) suffix) in
    rw (has_prefix-append (pod_name i) (middle ++ suffix)) (
      any_suffix _ _ _ _ (elim h [
        | inl e ↦ inl (subst (λ t. has_suffix (pod_name i ++ (middle ++ suffix)) t ≡ true) e ends)
        | inr k ↦ inr (elim k [
          | inl e ↦ inl (subst (λ t. has_suffix (pod_name i ++ (middle ++ suffix)) t ≡ true) e ends)
          | inr e ↦ inr (subst (λ t. has_suffix (pod_name i ++ (middle ++ suffix)) t ≡ true) e ends)
        ])
      ]))

pod-Covered : (i : Text) → is_removed i (pod_file_name i) ≡ true
unfolding pod_file_name
pod-Covered i = named i [] (codes ".pod") (inl refl)

container-Covered : (i s : Text) → is_removed i (container_file_name i s) ≡ true
unfolding container_file_name
container-Covered i s =
    subst (λ t. is_removed i (pod_name i ++ t) ≡ true)
      (append_assoc (codes "-") (safe_name s) (codes ".container"))
      (named i (codes "-" ++ safe_name s) (codes ".container") (inr (inl refl)))

volume-Covered : (i s : Text) → is_removed i (volume_file_name i s) ≡ true
unfolding volume_file_name
volume-Covered i s =
    subst (λ t. is_removed i (pod_name i ++ t) ≡ true)
      (append_assoc (codes "-") (safe_name s) (codes ".volume"))
      (named i (codes "-" ++ safe_name s) (codes ".volume") (inr (inr refl)))

shared-Covered : (i s : Text) → is_removed i (shared_volume_file_name i s) ≡ true
unfolding shared_volume_file_name
shared-Covered i s =
    subst (λ t. is_removed i (pod_name i ++ t) ≡ true)
      (append_assoc (codes "-shared-") (safe_name s) (codes ".volume"))
      (named i (codes "-shared-" ++ safe_name s) (codes ".volume") (inr (inr refl)))

module _ (i : Text) where
  write_then-Covered :
      (r : Renderer) (p : Place) (c : Text) (rest : Rendered)
      → Covered i (p, c)
      → All (Covered i) rest.0
      → All (Covered i) (write_then r p c rest).0
  write_then-Covered r p c (files, e) h hs = elim (Bool-cases (r.can_write (path_of p))) [
    | inl w ↦ rw w (h, hs)
    | inr n ↦ rw n tt
  ]

  env-Covered :
      (r : Renderer) (svc : ServiceInfo) (t : Text ⊎ Text) (rest : Rendered)
      → All (Covered i) rest.0
      → All (Covered i) (write_env r i svc t rest).0
  env-Covered r svc (inl c) rest h = write_then-Covered r (env_file (env_path r i svc)) c rest tt h
  env-Covered r svc (inr k) rest h = tt

  own_volume-Covered :
      (r : Renderer) (svc : ServiceInfo) (rest : Rendered)
      → All (Covered i) rest.0
      → All (Covered i) (write_volume r i svc rest).0
  own_volume-Covered r svc rest h = elim (Bool-cases (is_empty svc.volume)) [
    | inl e ↦ rw e h
    | inr e ↦ rw e (
        write_then-Covered r (unit_file (volume_file_name i svc.name)) (render_volume i svc.name)
          rest (volume-Covered i svc.name) h)
  ]

  service-Covered :
      (r : Renderer) (svc : ServiceInfo) (e : Option PolicyError) (rest : Rendered)
      → All (Covered i) rest.0
      → All (Covered i) (write_service r i svc e rest).0
  service-Covered r svc (some e) rest h = tt
  service-Covered r svc none rest h =
      let unit =
        write_then r (unit_file (container_file_name i svc.name))
          (render_container i svc (env_path r i svc)) rest in
      own_volume-Covered r svc (write_env r i svc (render_env svc) unit) (
        env-Covered r svc (render_env svc) unit (
          write_then-Covered r (unit_file (container_file_name i svc.name))
            (render_container i svc (env_path r i svc)) rest (container-Covered i svc.name) h))

  services-Covered :
      (r : Renderer) (services : List ServiceInfo)
      → All (Covered i) (render_services r i services).0
  unfolding render_services
  services-Covered r [] = tt
  services-Covered r (svc ∷ services) =
      service-Covered r svc _ (render_services r i services) (services-Covered r services)

  volumes-Covered :
      (r : Renderer) (vs : List Text) (rest : Rendered)
      → All (Covered i) rest.0
      → All (Covered i) (render_shared_volumes r i vs rest).0
  unfolding render_shared_volumes
  volumes-Covered r [] rest h = h
  volumes-Covered r (v ∷ vs) rest h =
      write_then-Covered r (unit_file (shared_volume_file_name i v)) (render_shared_volume i v)
        (render_shared_volumes r i vs rest) (shared-Covered i v) (volumes-Covered r vs rest h)

unless_refused-Covered :
    (r : Renderer) (task : FleetTask) (o : Option RenderError)
    → All (Covered task.instance_id) (unless_refused r task o).0
unless_refused-Covered r task (some e) = tt
unless_refused-Covered r task none =
    let i = task.instance_id in
    let services = render_services r i (sort_by service_less task.services) in
    let volumes = sort_by text_less task.shared_volumes in
    write_then-Covered i r (unit_file (pod_file_name i))
      (render_pod r.publish_address r.host_ports r.cpu_limit task)
      (render_shared_volumes r i volumes services) (pod-Covered i)
      (volumes-Covered i r volumes services
        (services-Covered i r (sort_by service_less task.services)))

-- A removal of the instance removes every unit file that a rendering for it has written, also one
-- that ended in an error.
pub render-Covered :
    (r : Renderer) (task : FleetTask) → All (Covered task.instance_id) (render r task).0
unfolding render
render-Covered r task = unless_refused-Covered r task (check_renderable r task)
