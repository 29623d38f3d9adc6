-- ===== src/Quadlet/Units.antt =====
-- The text of units and environment files (internal/quadlet/renderer.go): the lines of each file,
-- every one ended by a line feed.
pub mod Lines
use admiral_fleet.Prelude.{
  Text, ℕ, codes, Bool, true, false, List, [], ◌∷◌, ◌++◌, map, Option, none, some, ℤ, pos, negsuc,
  is_positive, decimal, suc, ltb, ◌⊎◌, inl, inr, ◌==◌, if◌then◌else◌, is_empty, eq_text, ◌&&◌, ◌||◌,
}
use admiral_fleet.Fleet.Task.{FleetTask, ServiceInfo, SharedMount}
use admiral_fleet.Executor.Files.{port_of, Ports}
use admiral_fleet.Quadlet.Names.{
  pod_name, container_name, volume_name, shared_volume_name, secret_name, pod_file_name,
  volume_file_name, shared_volume_file_name, container_unit_name,
}
use admiral_fleet.Quadlet.Values.{
  sanitize_quadlet_value, sanitize_env_value, is_sensitive_env_name, format_memory_limit,
  default_volume_target,
}

-- The lines, each ended by a line feed.
unfoldable pub unlines : List Text → Text
unlines [] = []
unlines (l ∷ ls) = l ++ 10 ∷ unlines ls

-- `wantedBy`
abbrev pub wanted_by : Text
wanted_by = codes "default.target"

abbrev pub install : List Text
install = codes "" ∷ codes "[Install]" ∷ (codes "WantedBy=" ++ wanted_by) ∷ []

abbrev pub service_section : List Text
service_section =
    codes "" ∷ codes "[Service]" ∷ codes "Restart=always" ∷ codes "TimeoutStartSec=900" ∷ install

abbrev show_port : ℤ → Text
show_port (pos n) = decimal n
show_port (negsuc n) = b'-' ∷ decimal (suc n)

-- A line that is left out if its value is empty.
abbrev pub optional : Text → Text → List Text
optional key value = if is_empty value then [] else (key ++ value) ∷ []

unfoldable pub publish_lines : Text → Ports → List ServiceInfo → List Text
unfolding port_of
publish_lines address ports [] = []
publish_lines address ports (svc ∷ services) =
    let rest = publish_lines address ports services in
    if is_positive svc.port
    then (codes "PublishPort="
        ++ (address
            ++ (codes ":"
                ++ (show_port (port_of svc.name ports) ++ (codes ":" ++ show_port svc.port)))))
      ∷ rest
    else rest

-- `renderPod`; the limit of the CPU is what `formatCPULimit` gives
unfoldable pub render_pod : Text → Ports → Text → FleetTask → Text
unfolding unlines publish_lines format_memory_limit pod_name
render_pod address ports cpu task = unlines (
    codes "[Unit]"
    ∷ (codes "Description=Admiral pod for instance " ++ task.instance_id)
    ∷ codes ""
    ∷ codes "[Pod]"
    ∷ (codes "PodName=" ++ pod_name task.instance_id)
    ∷ codes "Network=pasta"
    ∷ (optional (codes "PodmanArgs=--cpus=") cpu
        ++ (optional (codes "PodmanArgs=--memory=") (format_memory_limit task.tier.memory)
            ++ (publish_lines address ports task.services ++ service_section))))

-- Two lines for each unit that the service names.
unfoldable pub dependency_lines : Text → Text → List Text → List Text
unfolding container_unit_name
dependency_lines key instance_id [] = []
dependency_lines key instance_id (dep ∷ deps) =
    (key ++ container_unit_name instance_id dep)
    ∷ (codes "After=" ++ container_unit_name instance_id dep)
    ∷ dependency_lines key instance_id deps

abbrev pub mount_line : Text → SharedMount → Text
mount_line instance_id m =
    codes "Volume=" ++ (shared_volume_file_name instance_id m.name ++ (codes ":" ++ m.mount))

-- `a < b` on strings
unfoldable pub text_less : Text → Text → Bool
text_less s [] = false
text_less [] (b ∷ t) = true
text_less (a ∷ s) (b ∷ t) = ltb a b || ((a == b) && text_less s t)

unfoldable pub insert_by {ℓ} : {A : Type ℓ} → (A → A → Bool) → A → List A → List A
insert_by less x [] = x ∷ []
insert_by less x (y ∷ ys) =
    let rest = insert_by less x ys in if less y x then y ∷ rest else x ∷ y ∷ ys

-- `sort.Slice`, for keys that differ
unfoldable pub sort_by {ℓ} : {A : Type ℓ} → (A → A → Bool) → List A → List A
unfolding insert_by
sort_by less [] = []
sort_by less (x ∷ xs) = insert_by less x (sort_by less xs)

abbrev pub secret_line : Text → Text → Text → Text
secret_line instance_id service key =
    codes "Secret=" ++ (secret_name instance_id service key ++ (codes ",type=env,target=" ++ key))

-- `renderSecretMounts`
unfoldable pub render_secret_mounts : Text → ServiceInfo → List Text
unfolding sort_by text_less
render_secret_mounts instance_id svc =
    map (secret_line instance_id svc.name) (sort_by text_less (map (λ kv. kv.0) svc.secrets))

abbrev pub unit_header : Text → ServiceInfo → List Text
unit_header instance_id svc =
    codes "[Unit]"
    ∷ (codes "Description=Admiral service "
        ++ (svc.name ++ (codes " for instance " ++ instance_id)))
    ∷ []

abbrev pub container_header : Text → ServiceInfo → List Text
container_header instance_id svc =
    codes ""
    ∷ codes "[Container]"
    ∷ (codes "ContainerName=" ++ container_name instance_id svc.name)
    ∷ (codes "Image=" ++ sanitize_quadlet_value svc.image)
    ∷ []

abbrev pub user_lines : ServiceInfo → List Text
user_lines svc =
    if is_empty svc.user then [] else (codes "User=" ++ sanitize_quadlet_value svc.user) ∷ []

abbrev pub command_lines : ServiceInfo → List Text
command_lines svc =
    if is_empty svc.command then [] else (codes "Exec=" ++ sanitize_quadlet_value svc.command) ∷ []

abbrev pub pod_lines : Text → Text → List Text
pod_lines instance_id env_path =
    (codes "EnvironmentFile=" ++ env_path)
    ∷ (codes "Pod=" ++ pod_file_name instance_id)
    ∷ codes "CgroupsMode=no-conmon"
    ∷ codes "NoNewPrivileges=true"
    ∷ []

abbrev pub own_volume_lines : Text → ServiceInfo → List Text
own_volume_lines instance_id svc =
    if is_empty svc.volume
    then []
    else (codes "Volume="
        ++ (volume_file_name instance_id svc.name ++ (codes ":" ++ default_volume_target svc)))
      ∷ []

-- The lines of `renderContainer`
unfoldable pub container_lines : Text → ServiceInfo → Text → List Text
unfolding dependency_lines sanitize_quadlet_value default_volume_target render_secret_mounts
container_lines instance_id svc env_path =
    unit_header instance_id svc
    ++ (dependency_lines (codes "Wants=") instance_id svc.depends_on
        ++ (dependency_lines (codes "Requires=") instance_id svc.requires
            ++ (container_header instance_id svc
                ++ (user_lines svc
                    ++ (command_lines svc
                        ++ (pod_lines instance_id env_path
                            ++ (own_volume_lines instance_id svc
                                ++ (map (mount_line instance_id) svc.shared_volumes
                                    ++ (render_secret_mounts instance_id svc
                                        ++ service_section)))))))))

-- `renderContainer`
unfoldable pub render_container : Text → ServiceInfo → Text → Text
unfolding unlines container_lines
render_container instance_id svc env_path = unlines (container_lines instance_id svc env_path)

-- `renderVolume` and `renderSharedVolume`, by the name of the volume
unfoldable pub render_volume_named : Text → Text
unfolding unlines
render_volume_named name = unlines (codes "[Volume]" ∷ (codes "VolumeName=" ++ name) ∷ install)

unfoldable pub render_volume : Text → Text → Text
unfolding render_volume_named volume_name
render_volume instance_id service = render_volume_named (volume_name instance_id service)

unfoldable pub render_shared_volume : Text → Text → Text
unfolding render_volume_named shared_volume_name
render_shared_volume instance_id volume =
    render_volume_named (shared_volume_name instance_id volume)

abbrev env_line : Text × Text → Text
env_line (k, v) = k ++ (codes "=" ++ sanitize_env_value v)

-- The first variable with a sensitive name.
unfoldable pub first_sensitive : List (Text × Text) → Option Text
unfolding is_sensitive_env_name
first_sensitive [] = none
first_sensitive ((k, v) ∷ env) =
    let later = first_sensitive env in if is_sensitive_env_name k then some k else later

-- `renderEnv`: the text, or the name of the variable that is refused
unfoldable pub render_env : ServiceInfo → Text ⊎ Text
unfolding first_sensitive unlines sort_by text_less sanitize_env_value
render_env svc = elim (first_sensitive svc.env) [
  | some k ↦ inr k
  | none ↦ inl (unlines (map env_line (sort_by (λ a b. text_less a.0 b.0) svc.env)))
]
