-- ===== src/Agent/Outbox.antt =====
-- The outbox of task results (internal/agent/outbox.go), and `HandleTaskContext` (agent.go).
pub mod Delivery
pub mod Liveness
pub mod Limits
use admiral_fleet.Prelude.{
  Text, ℕ, ◌+◌, ◌%◌, ◌^◌, codes, leb, ltb, ◌==◌, Bool, true, false, not, ◌&&◌, ◌||◌, List, [], ◌∷◌,
  ◌++◌, eq_text, has_suffix, if◌then◌else◌, Option, none, some, decimal,
}
use admiral_fleet.Fleet.Paths.{clean, dots_out, slashes_out}
use admiral_fleet.Fleet.Task.{FleetTask}
use admiral_fleet.Executor.Report.{TaskResult}

-- An entry of the directory: its size, `none` if `Info` fails, and what its content parses to.
pub record Entry : Type 0 where
  pub name : Text
  pub is_dir : Bool
  pub size : Option ℕ
  pub parsed : Option TaskResult

-- `os.ReadDir`: a list of entries, no directory, or another error.
pub data Listing : Type 0 where
  listed missing unreadable : Listing

-- How the file system answers one operation on the outbox: `os.Stat` finds a directory, `os.ReadDir`,
-- `os.ReadFile` and `os.Remove` of an entry, and `os.WriteFile`. A failed write leaves no file.
pub record Disk : Type 0 where
  pub is_directory : Bool
  pub listing : Listing
  pub reads : Text → Bool
  pub removes : Text → Bool
  pub writes : Bool

-- The directory, and the results that were delivered, the newest first. The server answers a
-- delivery by what it got before.
pub record Outbox : Type 0 where
  pub entries : List Entry
  pub sent : List TaskResult

abbrev pub Server : Type 0
Server = List TaskResult → TaskResult → Bool

-- `!entry.IsDir() && filepath.Ext(entry.Name()) == ".json"`
unfoldable pub is_item : Entry → Bool
is_item e = not e.is_dir && has_suffix e.name (codes ".json")

unfoldable pub count_items : List Entry → ℕ
unfolding is_item
count_items [] = 0
count_items (e ∷ es) = let rest = count_items es in if is_item e then 1 + rest else rest

-- An entry whose `Info` fails counts as an item, but its size does not.
abbrev pub counted : Option ℕ → ℕ
counted none = 0
counted (some n) = n

unfoldable pub total_bytes : List Entry → ℕ
unfolding is_item
total_bytes [] = 0
total_bytes (e ∷ es) =
    let rest = total_bytes es in if is_item e then counted e.size + rest else rest

abbrev pub max_outbox_items : ℕ
max_outbox_items = 10000

abbrev pub max_outbox_bytes : ℕ
max_outbox_bytes = 2 ^ 30

-- `totalBytes+int64(len(body)) > maxOutboxBytes`, in which the sum wraps around
unfoldable pub exceeds_bytes : ℕ → Bool
exceeds_bytes n = let v = n % 2 ^ 64 in ltb max_outbox_bytes v && ltb v (2 ^ 63)

-- `os.WriteFile`: an entry of the name is replaced.
unfoldable pub write_entry : Entry → List Entry → List Entry
write_entry e [] = e ∷ []
write_entry e (x ∷ xs) =
    let rest = write_entry e xs in if eq_text x.name e.name then e ∷ xs else x ∷ rest

pub data EnqueueError : Type 0 where
  no_directory not_listed limit_reached write_failed : EnqueueError

-- The name that the source builds from the time and the ids. What it takes out may be the dot of the
-- extension, and then the file is no item.
unfoldable pub item_name : ℕ → TaskResult → Text
unfolding clean decimal
item_name now result = slashes_out (
    dots_out false
      (clean (decimal now ++ b'-' ∷ result.operation_id ++ b'-' ∷ result.task_id ++ codes ".json")))

-- The file of a result, with the size of its body.
abbrev pub item_of : Text → ℕ → TaskResult → Entry
item_of name size result = record {
  name = name;
  is_dir = false;
  size = some size;
  parsed = some result;
}

abbrev pub is_listed : Listing → Bool
is_listed listed = true
is_listed _ = false

-- `enqueue`, by the time and the size of the body. `none` is success.
unfoldable pub enqueue : Disk → ℕ → ℕ → TaskResult → Outbox → Option EnqueueError × Outbox
unfolding count_items total_bytes exceeds_bytes write_entry item_name
enqueue disk now size result box =
    if not disk.is_directory
    then (some no_directory, box)
    else if not (is_listed disk.listing)
    then (some not_listed, box)
    else if leb max_outbox_items (count_items box.entries)
        || exceeds_bytes (total_bytes box.entries + size)
    then (some limit_reached, box)
    else if not disk.writes
    then (some write_failed, box)
    else (
      none,
      record box { entries = write_entry (item_of (item_name now result) size result) box.entries },
    )

-- What becomes of an item in `flush`.
pub data Fate : Type 0 where
  skip discard deliver refuse : Fate

abbrev pub fate_of_result : Server → List TaskResult → Option TaskResult → Fate
fate_of_result server sent none = discard
fate_of_result server sent (some result) = if server sent result then deliver else refuse

unfoldable pub fate : Disk → Server → List TaskResult → Entry → Fate
unfolding is_item
fate disk server sent e =
    if is_item e && disk.reads e.name then fate_of_result server sent e.parsed else skip

abbrev pub with_result : Option TaskResult → List TaskResult → List TaskResult
with_result none sent = sent
with_result (some result) sent = result ∷ sent

-- The file is still there after `os.Remove` failed, whose error is ignored.
abbrev pub keep_unless : Bool → Entry → Bool × Outbox → Bool × Outbox
keep_unless true e outcome = outcome
keep_unless false e (b, box) = (b, record box { entries = e ∷ box.entries })

-- The outcome after an item: of the rest of the loop without a delivery, or after one.
abbrev pub settle :
    Fate
    → Bool
    → Entry
    → List Entry
    → List TaskResult
    → Bool × Outbox
    → Bool × Outbox
    → Bool × Outbox
settle skip removed e es sent skipped delivered = keep_unless false e skipped
settle discard removed e es sent skipped delivered = keep_unless removed e skipped
settle deliver removed e es sent skipped delivered = keep_unless removed e delivered
settle refuse removed e es sent skipped delivered =
    (false, record { entries = e ∷ es; sent = sent })

-- The loop of `flush` over the entries, in the order of their names, as `ReadDir` gives them. It
-- stops at the first delivery that fails.
unfoldable pub flush_entries : Disk → Server → List TaskResult → List Entry → Bool × Outbox
unfolding fate
flush_entries disk server sent [] = (true, record { entries = []; sent = sent })
flush_entries disk server sent (e ∷ es) =
    settle (fate disk server sent e) (disk.removes e.name) e es sent
      (flush_entries disk server sent es) (flush_entries disk server (with_result e.parsed sent) es)

abbrev pub flush_listed : Listing → Disk → Server → Outbox → Bool × Outbox
flush_listed listed disk server box = flush_entries disk server box.sent box.entries
flush_listed missing disk server box = (true, box)
flush_listed unreadable disk server box = (false, box)

-- `flush`: true means no error, that is, the directory was listed or is missing, and no delivery
-- failed.
unfoldable pub flush : Disk → Server → Outbox → Bool × Outbox
unfolding flush_entries
flush disk server box = flush_listed disk.listing disk server box

-- `send`
unfoldable pub send : Server → TaskResult → Outbox → Bool × Outbox
send server result box =
    if server box.sent result then (true, record box { sent = result ∷ box.sent }) else (false, box)

abbrev pub after_send : Disk → Server → ℕ → ℕ → TaskResult → Bool × Outbox → Bool × Outbox
after_send disk server now size result (true, box) = (true, (flush disk server box).1)
after_send disk server now size result (false, box) = (false, (enqueue disk now size result box).1)

-- `HandleTaskContext` with an outbox, by the file system before `Execute` and after it, and the
-- result of `Execute`: true means no error.
unfoldable pub handle_result : Disk → Disk → Server → ℕ → ℕ → TaskResult → Outbox → Bool × Outbox
unfolding flush send enqueue
handle_result before after server now size result box =
    after_send after server now size result (send server result (flush before server box).1)
