-- ===== src/Quadlet/Render.antt =====
-- `Render` and `Remove` (internal/quadlet/renderer.go): which files are written, with which text, and
-- which are removed. A write may fail; the directories are there.
pub mod Accepted
pub mod Covered
use admiral_fleet.Prelude.{
  Text, codes, Bool, true, false, not, List, [], ◌∷◌, ◌++◌, Option, none, some, ℤ, is_positive,
  if◌then◌else◌, ◌&&◌, ◌||◌, eq_text, has_prefix, has_suffix, is_empty, trim_space, inl, inr, ◌⊎◌,
}
use admiral_fleet.Fleet.Task.{FleetTask, ServiceInfo}
use admiral_fleet.Fleet.Paths.{join_path}
use admiral_fleet.Security.{Refusal, validate_instance_id}
use admiral_fleet.Executor.Files.{Ports, port_of}
use admiral_fleet.Quadlet.Names.{
  pod_name, pod_file_name, container_file_name, volume_file_name, shared_volume_file_name,
}
use admiral_fleet.Quadlet.Policy.{PolicyError, validate_image_reference}
use admiral_fleet.Quadlet.Units.{
  render_pod, render_container, render_volume, render_shared_volume, render_env, sort_by, text_less,
}

-- `Renderer`; `is_specific` is what `net.ParseIP` says of an address, `can_write` the file system,
-- and `cpu_limit` what `formatCPULimit` gives for the task.
pub record Renderer : Type 0 where
  pub data_dir : Text
  pub host_ports : Ports
  pub publish_address : Text
  pub allowed_registries : List Text
  pub allow_mutable_refs : Bool
  pub cpu_limit : Text
  pub is_specific : Text → Bool
  pub can_write : Text → Bool

-- A file by its name in the Quadlet directory, or the environment file of a service by its path.
pub data Place : Type 0 where
  unit_file env_file : Text → Place

pub data RenderError : Type 0 where
  bad_publish_address : Text → RenderError
  bad_instance_id : Refusal → RenderError
  port_not_allocated : Text → RenderError
  image_refused : Text → PolicyError → RenderError
  sensitive_variable : Text → RenderError
  not_written : Place → RenderError

-- The files written, in order, and the error that ended it.
abbrev pub Rendered : Type 0
Rendered = List (Place × Text) × Option RenderError

-- The first service with a port that has no host port.
unfoldable pub first_without_port : Ports → List ServiceInfo → Option Text
unfolding port_of
first_without_port ports [] = none
first_without_port ports (svc ∷ services) =
    let later = first_without_port ports services in
    if is_positive svc.port && not (is_positive (port_of svc.name ports))
    then some svc.name
    else later

abbrev pub check_ports : Option Text → Option RenderError
check_ports none = none
check_ports (some name) = some (port_not_allocated name)

abbrev pub check_id : Renderer → FleetTask → Option Refusal → Option RenderError
check_id r task (some e) = some (bad_instance_id e)
check_id r task none = check_ports (first_without_port r.host_ports task.services)

-- What `Render` refuses before it writes.
unfoldable pub check_renderable : Renderer → FleetTask → Option RenderError
unfolding trim_space first_without_port
check_renderable r task =
    if r.is_specific (trim_space r.publish_address)
    then check_id r task (validate_instance_id task.instance_id)
    else some (bad_publish_address r.publish_address)

abbrev pub path_of : Place → Text
path_of (unit_file name) = name
path_of (env_file path) = path

abbrev pub write_then : Renderer → Place → Text → Rendered → Rendered
write_then r place content (files, e) =
    if r.can_write (path_of place)
    then ((place, content) ∷ files, e)
    else ([], some (not_written place))

-- The comparison of `SortedServices`
unfoldable pub service_less : ServiceInfo → ServiceInfo → Bool
unfolding eq_text text_less
service_less a b =
    if eq_text a.name (codes "db")
    then true
    else if eq_text b.name (codes "db")
    then false
    else text_less a.name b.name

-- `filepath.Join(r.DataDir, "instances", task.InstanceID, "env", svc.Name+".env")`
unfoldable pub env_path : Renderer → Text → ServiceInfo → Text
unfolding join_path
env_path r instance_id svc =
    join_path
      (join_path (join_path (join_path r.data_dir (codes "instances")) instance_id) (codes "env"))
      (svc.name ++ codes ".env")

abbrev pub write_env : Renderer → Text → ServiceInfo → Text ⊎ Text → Rendered → Rendered
write_env r instance_id svc (inl content) rest =
    write_then r (env_file (env_path r instance_id svc)) content rest
write_env r instance_id svc (inr k) rest = ([], some (sensitive_variable k))

abbrev pub write_volume : Renderer → Text → ServiceInfo → Rendered → Rendered
write_volume r instance_id svc rest =
    if is_empty svc.volume
    then rest
    else write_then r (unit_file (volume_file_name instance_id svc.name))
        (render_volume instance_id svc.name) rest

abbrev pub write_service : Renderer → Text → ServiceInfo → Option PolicyError → Rendered → Rendered
write_service r instance_id svc (some e) rest = ([], some (image_refused svc.name e))
write_service r instance_id svc none rest = write_volume r instance_id svc (
    write_env r instance_id svc (render_env svc) (
      write_then r (unit_file (container_file_name instance_id svc.name))
        (render_container instance_id svc (env_path r instance_id svc)) rest))

-- The loop over the services.
unfoldable pub render_services : Renderer → Text → List ServiceInfo → Rendered
unfolding validate_image_reference render_env env_path
render_services r instance_id [] = ([], none)
render_services r instance_id (svc ∷ services) =
    write_service r instance_id svc
      (validate_image_reference svc.image r.allowed_registries r.allow_mutable_refs)
      (render_services r instance_id services)

-- The loop over the shared volumes, and what follows it.
unfoldable pub render_shared_volumes : Renderer → Text → List Text → Rendered → Rendered
unfolding render_shared_volume
render_shared_volumes r instance_id [] rest = rest
render_shared_volumes r instance_id (v ∷ vs) rest =
    write_then r (unit_file (shared_volume_file_name instance_id v))
      (render_shared_volume instance_id v) (render_shared_volumes r instance_id vs rest)

abbrev pub write_all : Renderer → FleetTask → Rendered
write_all r task =
    write_then r (unit_file (pod_file_name task.instance_id))
      (render_pod r.publish_address r.host_ports r.cpu_limit task)
      (render_shared_volumes r task.instance_id (sort_by text_less task.shared_volumes)
        (render_services r task.instance_id (sort_by service_less task.services)))

abbrev pub unless_refused : Renderer → FleetTask → Option RenderError → Rendered
unless_refused r task (some e) = ([], some e)
unless_refused r task none = write_all r task

-- `Render`
unfoldable pub render : Renderer → FleetTask → Rendered
unfolding check_renderable render_pod render_shared_volumes render_services sort_by service_less
render r task = unless_refused r task (check_renderable r task)

-- The files of the directory that `Remove` removes: `admiral-<instance>*` with one of four suffixes.
unfoldable pub is_removed : Text → Text → Bool
unfolding has_prefix has_suffix pod_name
is_removed instance_id name =
    has_prefix name (pod_name instance_id)
    && (has_suffix name (codes ".pod")
        || has_suffix name (codes ".container")
        || has_suffix name (codes ".volume")
        || has_suffix name (codes ".network"))
