-- ===== src/Quadlet/Names.antt =====
-- The names of units, files and Podman objects (internal/quadlet/renderer.go).
pub mod Safe
use admiral_fleet.Prelude.{
  Text, ℕ, codes, ◌++◌, map, Bool, ◌&&◌, ◌||◌, leb, ◌==◌, if◌then◌else◌, trim_space,
}

-- The characters that `SafeName` keeps.
unfoldable pub is_safe : ℕ → Bool
is_safe c =
    (leb b'a' c && leb c b'z')
    || (leb b'A' c && leb c b'Z')
    || (leb b'0' c && leb c b'9')
    || c == b'-'
    || c == b'_'

unfoldable pub safe_char : ℕ → ℕ
unfolding is_safe
safe_char c = if is_safe c then c else b'-'

-- `SafeName`
unfoldable pub safe_name : Text → Text
safe_name value = map safe_char (trim_space value)

-- `"admiral-" + SafeName(instanceID)`, which all names begin with.
unfoldable pub pod_name : Text → Text
pod_name instance_id = codes "admiral-" ++ safe_name instance_id

-- `admiral-<instance>-<service>`
unfoldable pub container_name : Text → Text → Text
unfolding pod_name
container_name instance_id service = pod_name instance_id ++ (codes "-" ++ safe_name service)

unfoldable pub volume_name : Text → Text → Text
unfolding pod_name
volume_name instance_id service = pod_name instance_id ++ (codes "-" ++ safe_name service)

unfoldable pub shared_volume_name : Text → Text → Text
unfolding pod_name
shared_volume_name instance_id volume =
    pod_name instance_id ++ (codes "-shared-" ++ safe_name volume)

unfoldable pub secret_name : Text → Text → Text → Text
unfolding pod_name
secret_name instance_id service key =
    pod_name instance_id ++ (codes "-" ++ (safe_name service ++ (codes "-" ++ safe_name key)))

unfoldable pub pod_file_name : Text → Text
unfolding pod_name
pod_file_name instance_id = pod_name instance_id ++ codes ".pod"

unfoldable pub container_file_name : Text → Text → Text
unfolding pod_name
container_file_name instance_id service =
    pod_name instance_id ++ (codes "-" ++ (safe_name service ++ codes ".container"))

unfoldable pub volume_file_name : Text → Text → Text
unfolding pod_name
volume_file_name instance_id service =
    pod_name instance_id ++ (codes "-" ++ (safe_name service ++ codes ".volume"))

unfoldable pub shared_volume_file_name : Text → Text → Text
unfolding pod_name
shared_volume_file_name instance_id volume =
    pod_name instance_id ++ (codes "-shared-" ++ (safe_name volume ++ codes ".volume"))

unfoldable pub pod_unit_name : Text → Text
unfolding pod_name
pod_unit_name instance_id = pod_name instance_id ++ codes "-pod.service"

unfoldable pub container_unit_name : Text → Text → Text
unfolding pod_name
container_unit_name instance_id service =
    pod_name instance_id ++ (codes "-" ++ (safe_name service ++ codes ".service"))

unfoldable pub volume_unit_name : Text → Text → Text
unfolding pod_name
volume_unit_name instance_id service =
    pod_name instance_id ++ (codes "-" ++ (safe_name service ++ codes "-volume.service"))

unfoldable pub shared_volume_unit_name : Text → Text → Text
unfolding pod_name
shared_volume_unit_name instance_id volume =
    pod_name instance_id ++ (codes "-shared-" ++ (safe_name volume ++ codes "-volume.service"))
