-- ===== src/Quadlet/Units/Lines.antt =====
-- The lines of a container's unit are the ones that the renderer means to write.
use admiral_fleet.Prelude.{
  arith, Text, ℕ, codes, Bool, true, false, not, List, [], ◌∷◌, ◌++◌, map, ◌==◌, ◌≡◌, refl, ap, ◌∙◌,
  All, All-append, all_of, lines, Bool-cases, inl, inr, if◌then◌else◌, is_empty,
}
use admiral_fleet.Fleet.Task.{ServiceInfo, SharedMount}
use admiral_fleet.Quadlet.Names.{
  safe_name, is_safe, pod_name, container_name, secret_name, pod_file_name, volume_file_name,
  shared_volume_file_name, container_unit_name,
}
use admiral_fleet.Quadlet.Names.Safe.{Safe, safe_name-Safe}
use admiral_fleet.Quadlet.Values.{sanitize_quadlet_value, default_volume_target, is_plain}
use admiral_fleet.Quadlet.Values.OneLine.{Plain, sanitized_values}
use admiral_fleet.Quadlet.Units.{
  unlines, dependency_lines, mount_line, secret_line, render_secret_mounts, sort_by, insert_by,
  text_less, container_lines, render_container, service_section, container_header, unit_header,
  user_lines, command_lines, pod_lines, own_volume_lines,
}

-- The text has no line feed.
abbrev pub NoBreak : Text → Type 0
NoBreak s = all_of (λ c. not (c == 10)) s ≡ true

all_of-append :
    (p : ℕ → Bool) (s t : Text) → all_of p s ≡ true → all_of p t ≡ true → all_of p (s ++ t) ≡ true
all_of-append p [] t hs ht = ht
all_of-append p (c ∷ s) t hs ht = ground (arith, all_of-append p s t)

NoBreak-append : (s t : Text) → NoBreak s → NoBreak t → NoBreak (s ++ t)
NoBreak-append s t = all_of-append (λ c. not (c == 10)) s t

lines-NoBreak : (s rest : Text) → NoBreak s → lines (s ++ 10 ∷ rest) ≡ s ∷ lines rest
unfolding lines
lines-NoBreak [] rest h = refl
lines-NoBreak (c ∷ s) rest h = elim (Bool-cases (c == 10)) [
  | inl e ↦ absurd (cc (rw e at h))
  | inr e ↦ rw e (rw (lines-NoBreak s rest (rw e at h)) refl)
]

-- What is written line by line is read line by line.
lines-unlines : (ls : List Text) → All NoBreak ls → lines (unlines ls) ≡ ls ++ [] ∷ []
unfolding unlines lines
lines-unlines [] h = refl
lines-unlines (l ∷ ls) h = lines-NoBreak l (unlines ls) h.0 ∙ ap (λ r. l ∷ r) (lines-unlines ls h.1)

safe_is_no_break : (c : ℕ) → is_safe c ≡ true → (c == 10) ≡ false
unfolding is_safe
safe_is_no_break c h = ground arith

plain_is_no_break : (c : ℕ) → is_plain c ≡ true → (c == 10) ≡ false
unfolding is_plain
plain_is_no_break c h = ground arith

Safe-NoBreak : (s : Text) → Safe s → NoBreak s
Safe-NoBreak [] h = refl
Safe-NoBreak (c ∷ s) h = rw (safe_is_no_break c h.0) (Safe-NoBreak s h.1)

Plain-NoBreak : (s : Text) → Plain s → NoBreak s
Plain-NoBreak [] h = refl
Plain-NoBreak (c ∷ s) h = rw (plain_is_no_break c h.0) (Plain-NoBreak s h.1)

safe_name-NoBreak : (s : Text) → NoBreak (safe_name s)
safe_name-NoBreak s = Safe-NoBreak (safe_name s) (safe_name-Safe s).0

sanitize-NoBreak : (s : Text) → NoBreak (sanitize_quadlet_value s)
sanitize-NoBreak s = Plain-NoBreak (sanitize_quadlet_value s) (sanitized_values s).0

target-NoBreak : (svc : ServiceInfo) → NoBreak (default_volume_target svc)
unfolding default_volume_target
target-NoBreak svc = ground arith

ruleset line_rules = (NoBreak-append, safe_name-NoBreak, sanitize-NoBreak, target-NoBreak, refl)

dependency-NoBreak :
    (key i : Text) (deps : List Text) → NoBreak key → All NoBreak (dependency_lines key i deps)
unfolding dependency_lines container_unit_name pod_name
dependency-NoBreak key i [] h = tt
dependency-NoBreak key i (dep ∷ deps) h = (
  search (line_rules, h) depth 20,
  (search (line_rules, h) depth 20, dependency-NoBreak key i deps h),
)

-- The texts that the renderer writes as they are: they must have no line feed.
abbrev pub RawValues : Text → ServiceInfo → Text → Type 0
RawValues i svc env_path =
    NoBreak i
    × NoBreak svc.name
    × NoBreak env_path
    × All (λ m. NoBreak m.mount) svc.shared_volumes
    × All (λ kv. NoBreak kv.0) svc.secrets

mount-NoBreak :
    (i : Text) (ms : List SharedMount)
    → All (λ m. NoBreak m.mount) ms
    → All NoBreak (map (mount_line i) ms)
unfolding shared_volume_file_name pod_name
mount-NoBreak i [] h = tt
mount-NoBreak i (m ∷ ms) h = (search (line_rules, h.0) depth 20, mount-NoBreak i ms h.1)

insert-NoBreak :
    (x : Text) (ys : List Text)
    → NoBreak x
    → All NoBreak ys
    → All NoBreak (insert_by text_less x ys)
unfolding insert_by
insert-NoBreak x [] h hs = (h, tt)
insert-NoBreak x (y ∷ ys) h hs = elim (Bool-cases (text_less y x)) [
  | inl e ↦ rw e (hs.0, insert-NoBreak x ys h hs.1)
  | inr e ↦ rw e (h, hs)
]

sort-NoBreak : (xs : List Text) → All NoBreak xs → All NoBreak (sort_by text_less xs)
unfolding sort_by
sort-NoBreak [] h = tt
sort-NoBreak (x ∷ xs) h = insert-NoBreak x (sort_by text_less xs) h.0 (sort-NoBreak xs h.1)

keys-NoBreak :
    (m : List (Text × Text)) → All (λ kv. NoBreak kv.0) m → All NoBreak (map (λ kv. kv.0) m)
keys-NoBreak [] h = tt
keys-NoBreak (kv ∷ m) h = (h.0, keys-NoBreak m h.1)

secret-NoBreak :
    (i service : Text) (ks : List Text)
    → All NoBreak ks
    → All NoBreak (map (secret_line i service) ks)
unfolding secret_name pod_name
secret-NoBreak i service [] h = tt
secret-NoBreak i service (k ∷ ks) h =
    (search (line_rules, h.0) depth 20, secret-NoBreak i service ks h.1)

if-NoBreak : (b : Bool) (l : Text) → NoBreak l → All NoBreak (if b then [] else l ∷ [])
if-NoBreak true l h = tt
if-NoBreak false l h = (h, tt)

header-NoBreak : (i : Text) (svc : ServiceInfo) → All NoBreak (container_header i svc)
unfolding container_name pod_name
header-NoBreak i svc =
    (refl, (refl, (search line_rules depth 20, (search line_rules depth 20, tt))))

pod-NoBreak : (i env_path : Text) → NoBreak env_path → All NoBreak (pod_lines i env_path)
unfolding pod_file_name pod_name
pod-NoBreak i env_path h =
    (search (line_rules, h) depth 20, (search line_rules depth 20, (refl, (refl, tt))))

own_volume-NoBreak : (i : Text) (svc : ServiceInfo) → All NoBreak (own_volume_lines i svc)
unfolding volume_file_name pod_name
own_volume-NoBreak i svc = if-NoBreak (is_empty svc.volume) _ (search line_rules depth 20)

secrets-NoBreak :
    (i : Text) (svc : ServiceInfo)
    → All (λ kv. NoBreak kv.0) svc.secrets
    → All NoBreak (render_secret_mounts i svc)
unfolding render_secret_mounts
secrets-NoBreak i svc h =
    secret-NoBreak i svc.name (sort_by text_less (map (λ kv. kv.0) svc.secrets))
      (sort-NoBreak (map (λ kv. kv.0) svc.secrets) (keys-NoBreak svc.secrets h))

service_section-NoBreak : All NoBreak service_section
service_section-NoBreak = (refl, (refl, (refl, (refl, (refl, (refl, (refl, tt)))))))

container_lines-NoBreak :
    (i : Text) (svc : ServiceInfo) (env_path : Text)
    → RawValues i svc env_path
    → All NoBreak (container_lines i svc env_path)
unfolding container_lines
container_lines-NoBreak i svc env_path (hi, hn, he, hm, hs) =
    let also = All-append NoBreak in
    also (unit_header i svc) _ (refl, (search (line_rules, hi, hn) depth 20, tt))
      (also (dependency_lines (codes "Wants=") i svc.depends_on) _
        (dependency-NoBreak (codes "Wants=") i svc.depends_on refl)
        (also (dependency_lines (codes "Requires=") i svc.requires) _
          (dependency-NoBreak (codes "Requires=") i svc.requires refl)
          (also (container_header i svc) _ (header-NoBreak i svc) (
            also (user_lines svc) _ (if-NoBreak (is_empty svc.user) _ (search line_rules depth 20))
              (also (command_lines svc) _
                (if-NoBreak (is_empty svc.command) _ (search line_rules depth 20))
                (also (pod_lines i env_path) _ (pod-NoBreak i env_path he) (
                  also (own_volume_lines i svc) _ (own_volume-NoBreak i svc) (
                    also (map (mount_line i) svc.shared_volumes) _
                      (mount-NoBreak i svc.shared_volumes hm)
                      (also (render_secret_mounts i svc) _ (secrets-NoBreak i svc hs)
                        service_section-NoBreak)))))))))

-- Whatever the image, the user, the command and the environment of a service are, the lines of its
-- container unit are exactly the directives that the renderer lists, so that no value adds one: if
-- the instance id, the service name, the path of the environment file, the mount points of shared
-- volumes and the names of secrets have no line feed.
pub lines-render_container :
    (i : Text) (svc : ServiceInfo) (env_path : Text)
    → RawValues i svc env_path
    → lines (render_container i svc env_path) ≡ container_lines i svc env_path ++ [] ∷ []
unfolding render_container
lines-render_container i svc env_path h =
    lines-unlines (container_lines i svc env_path) (container_lines-NoBreak i svc env_path h)
