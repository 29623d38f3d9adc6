-- ===== src/Fleet/Effects.antt =====
-- Actions on the node. What the executor asks of its collaborators is a `Call`, the node answers
-- it, and the log keeps both. The answers are arbitrary: a function of all that happened before.
pub mod Keeps
pub mod Triples
use admiral_fleet.Prelude.{
  Text, ℕ, Bool, true, false, ℤ, Option, none, some, List, [], ◌∷◌, if◌then◌else◌,
}
use admiral_fleet.Fleet.Task.{FleetTask, TierInfo}

pub data Result (E A : Type 0) : Type 0 where
  ok : A → Result E A
  err : E → Result E A

-- The files and directories below `DataDir`, by the functions that build their paths.
pub data FilePath : Type 0 where
  instance_dir ports_file tier_file setup_marker health_checks_file : Text → FilePath
  next_port_file : FilePath
  -- a backup artifact, by its resolved path, and its directory
  backup_file backup_parent : Text → FilePath

-- What a file holds: text, or a JSON document that the fleet writes.
pub data Content : Type 0 where
  text : Text → Content
  ports : List (Text × ℤ) → Content
  -- service name and published port of each declared check
  health_checks : List (Text × ℤ) → Content
  tier : TierInfo → Content

pub data Call : Type 0 where
  -- systemd.Manager
  stop start restart disable : Text → Call
  daemon_reload reset_failed : Call
  -- podman.Inspector
  pod_exists pod_is_paused pod_pause pod_unpause pull : Text → Call
  remove_pod remove_container remove_volume secret_remove : Text → Call
  container_exists container_inspect volume_inspect : Text → Call
  secret_create : Text → Text → Call
  login : Text → Text → Call
  -- the published port of a container's port
  pod_port : Text → ℤ → Call
  -- `RunTrustedShellInPod` of a setup command, `RunTrustedInPodNoEntrypoint` of a health check
  setup_shell : Text → Text → Call
  check_command : Text → List Text → Call
  -- a TCP connection to a published port, an HTTP request to it that answers with a status
  dial : ℤ → Call
  http_get : ℤ → Text → Call
  -- quadlet.Renderer
  render : FleetTask → List (Text × ℤ) → Call
  remove_quadlet : Text → Call
  -- osutil.FileSystem
  read_file stat mkdir_all remove remove_all : FilePath → Call
  write_file : FilePath → Content → Call
  -- other methods of the executor, and time that passes
  validate_data_roots : Call
  chown_instance_data start_metadata : Text → Call
  wait : Call
  -- storage.S3Client, and the data helper
  s3_delete s3_test : Text → Call
  -- `validatePackageManagedDir`
  validate_dir : Text → Call
  -- the data plane of a restore: downloads, which answer with the path of the artifact; a look at
  -- the artifact, its expansion, which answers with a path, and the removal of what it expanded to
  download_https download_s3 : Text → Call
  is_volume_archive expand_gzip clean_up_artifact open_file : Text → Call
  -- an artifact, the mount point and the prefix of the entries (`Executor.Archive` is what it keeps)
  extract_volume : Text → Text → Text → Call
  -- the database engine in a container
  wait_database copy_to_container : Text → Text → Call
  database_exec : Text → List Text → Call

pub data Value : Type 0 where
  nothing : Value
  flag : Bool → Value
  output : Text → Value
  number : ℤ → Value
  file : Content → Value

pub record Event : Type 0 where
  pub call : Call
  pub reply : Result Text Value

abbrev pub Log : Type 0
Log = List Event

pub record World : Type 0 where
  pub node : Log → Call → Result Text Value
  -- `os.IsNotExist`, of the text of an error
  pub not_exist : Text → Bool
  -- the newest event first
  pub log : Log

-- An action fails with an `E` or gives an `A`. What it did stays in the log either way.
abbrev pub Act : Type 0 → Type 0 → Type 0
Act E A = World → Result E A × World

unfoldable pub pure : {E A : Type 0} → A → Act E A
pure a w = (ok a, w)

unfoldable pub fail : {E A : Type 0} → E → Act E A
fail e w = (err e, w)

-- One call, and the node's answer.
unfoldable pub perform : Call → Act Text Value
perform c w =
    let r = w.node w.log c in (r, record w { log = record { call = c; reply = r } ∷ w.log })

abbrev pub continue : {E A B : Type 0} → Result E A → (A → Act E B) → Act E B
continue (ok a) f w = f a w
continue (err e) f w = (err e, w)

infixl 5 ◌>>=◌ ◌>>◌
unfoldable pub ◌>>=◌ : {E A B : Type 0} → Act E A → (A → Act E B) → Act E B
◌>>=◌ m f w = let (r, w') = m w in continue r f w'

abbrev pub ◌>>◌ : {E A B : Type 0} → Act E A → Act E B → Act E B
m >> k = m >>= λ _. k

abbrev pub relabel : {E F A : Type 0} → (E → F) → Result E A → Result F A
relabel f (ok a) = ok a
relabel f (err e) = err (f e)

-- `if err := m; err != nil { return … }`
unfoldable pub or_fail : {E F A : Type 0} → Act E A → (E → F) → Act F A
or_fail m f w = let (r, w') = m w in (relabel f r, w')

-- The outcome of `m` as a value, so that the code can go on after an error.
unfoldable pub observe : {E F A : Type 0} → Act E A → Act F (Result E A)
observe m w = let (r, w') = m w in (ok r, w')

-- `for _, x := range xs { … }`
unfoldable pub for_each : {E A : Type 0} → List A → (A → Act E (Unit {0})) → Act E (Unit {0})
unfolding pure
for_each [] f = pure tt
for_each (x ∷ xs) f = f x >>= λ _. for_each xs f

-- `if b { … }`
abbrev pub when : {E : Type 0} → Bool → Act E (Unit {0}) → Act E (Unit {0})
when b m = if b then m else pure tt

-- A call of which only success matters.
unfoldable pub command : Call → Act Text (Unit {0})
unfolding ◌>>=◌ pure perform
command c = do perform c; pure tt

abbrev as_flag : Value → Bool
as_flag (flag b) = b
as_flag _ = false

-- A call that answers with a truth value.
unfoldable pub ask : Call → Act Text Bool
unfolding ◌>>=◌ pure perform
ask c = do v ← perform c; pure (as_flag v)

abbrev as_output : Value → Text
as_output (output t) = t
as_output _ = []

-- A call that answers with output.
unfoldable pub read : Call → Act Text Text
unfolding ◌>>=◌ pure perform
read c = do v ← perform c; pure (as_output v)

abbrev as_number : Value → ℤ
as_number (number n) = n
as_number _ = ℤ.pos 0

-- A call that answers with a number.
unfoldable pub count : Call → Act Text ℤ
unfolding ◌>>=◌ pure perform
count c = do v ← perform c; pure (as_number v)

abbrev pub as_content : Value → Content
as_content (file c) = c
as_content _ = text []

-- `ReadFile`
unfoldable pub read_content : FilePath → Act Text Content
unfolding ◌>>=◌ pure perform
read_content p = do v ← perform (read_file p); pure (as_content v)

-- `FS.Remove(path)`, where a missing file is no error.
unfoldable pub remove_if_there : FilePath → Act Text (Unit {0})
unfolding perform
remove_if_there p w =
    let (r, w') = perform (remove p) w in
    (elim r [ ok _ ↦ ok tt | err e ↦ if w.not_exist e then ok tt else err e ], w')

-- A node before the first call.
abbrev pub fresh : (Log → Call → Result Text Value) → (Text → Bool) → World
fresh node not_exist = record { node = node; not_exist = not_exist; log = [] }
