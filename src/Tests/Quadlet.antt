-- ===== src/Tests/Quadlet.antt =====
-- Rendering at concrete inputs.
use admiral_fleet.Prelude.{
  Text, codes, true, [], ◌∷◌, ◌++◌, pos, ◌≡◌, ◌↔◌, refl, All, lines, eq_text, has_prefix,
  has_suffix, trim_space, trim_left, contains_any,
}
use admiral_fleet.Fleet.Task
use admiral_fleet.Fleet.Task.{ServiceInfo, FleetTask, SharedMount}
use admiral_fleet.Quadlet.Values.{sanitize_quadlet_value, sanitize_env_value}
use admiral_fleet.Quadlet.Values.OneLine.{Plain, OneLine, sanitized_values}
use admiral_fleet.Quadlet.Units.{container_lines, render_container, unlines, mount_line}
use admiral_fleet.Quadlet.Units.Lines.{lines-render_container}
use admiral_fleet.Quadlet.Render.{
  Renderer, render, is_removed, check_renderable, render_services, render_shared_volumes,
  first_without_port,
}
use admiral_fleet.Quadlet.Render.Accepted.{Complete, render-Complete}
use admiral_fleet.Quadlet.Render.Covered.{Covered, render-Covered}
use admiral_fleet.Quadlet.Names.{safe_name, safe_char, is_safe, pod_name, shared_volume_file_name}
use admiral_fleet.Quadlet.Policy.{validate_image_reference}
use admiral_fleet.Quadlet.Units.{sort_by, insert_by, text_less}
use admiral_fleet.Quadlet.Render.{service_less}
use admiral_fleet.Executor.Files.{port_of}
use admiral_fleet.Security.{validate_instance_id, validate_id}
use admiral_fleet.Tests.Data.{web, task_of}

abbrev two_lines : Text
two_lines = codes "nginx" ++ 10 ∷ codes "Exec=$sh"

sanitized_values_example :
    Plain (sanitize_quadlet_value two_lines)
    × ((sanitize_quadlet_value two_lines ≡ two_lines) ↔ Plain two_lines)
    × OneLine (sanitize_env_value two_lines)
sanitized_values_example = sanitized_values two_lines

-- A service whose image tries to add a directive.
abbrev injecting : ServiceInfo
injecting = record web { image = two_lines }

lines-render_container_example :
    lines (render_container (codes "inst1") injecting (codes "/env/web.env"))
    ≡ container_lines (codes "inst1") injecting (codes "/env/web.env") ++ [] ∷ []
lines-render_container_example =
    lines-render_container (codes "inst1") injecting (codes "/env/web.env")
      (refl, refl, refl, tt, (refl, tt))

abbrev renderer : Renderer
renderer = record {
  data_dir = codes "/data";
  host_ports = (codes "web", pos 20000) ∷ (codes "worker", pos 20001) ∷ [];
  publish_address = codes "10.0.0.1";
  allowed_registries = [];
  allow_mutable_refs = true;
  cpu_limit = [];
  is_specific = λ address. true;
  can_write = λ path. true;
}

render-Covered_example :
    All (Covered (codes "inst1")) (render renderer (task_of Task.TaskAction.start_app)).0
render-Covered_example = render-Covered renderer (task_of Task.TaskAction.start_app)

-- A removal of `app1` removes a file of `app10` too.
removal_of_another : is_removed (codes "app1") (codes "admiral-app10-web.container") ≡ true
unfolding is_removed has_prefix has_suffix safe_name safe_char trim_space
removal_of_another = refl

-- The mount point of a shared volume is written as it is, and may add a directive.
mount_adds_directive :
    lines (
      unlines (
        mount_line
          (codes "a")
          (record { name = codes "v"; mount = codes "/m" ++ 10 ∷ codes "PodmanArgs=--privileged" })
        ∷ []))
    ≡ codes "Volume=admiral-a-shared-v.volume:/m" ∷ codes "PodmanArgs=--privileged" ∷ [] ∷ []
unfolding lines unlines shared_volume_file_name pod_name safe_name safe_char is_safe trim_space
    trim_left
mount_adds_directive = refl

render-Complete_example :
    Complete renderer
      (task_of Task.TaskAction.start_app)
      (render renderer (task_of Task.TaskAction.start_app)).0
unfolding render check_renderable render_services render_shared_volumes first_without_port sort_by
    insert_by text_less service_less eq_text port_of validate_instance_id validate_id
    validate_image_reference trim_space trim_left contains_any
render-Complete_example = render-Complete renderer (task_of Task.TaskAction.start_app) refl
