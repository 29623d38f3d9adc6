-- ===== src/Agent/Outbox/Limits.antt =====
-- What `enqueue` and `HandleTaskContext` add to the outbox.
use admiral_fleet.Prelude.{
  ℕ, ◌+◌, ◌≤◌, leb, Bool, true, false, not, ◌||◌, ◌≡◌, refl, List, [], ◌∷◌, if◌then◌else◌, Option,
  none, some, eq_text, Bool-cases, inl, inr, has_suffix, codes,
}
use admiral_fleet.Executor.Report.{TaskResult}
use admiral_fleet.Agent.Outbox.{
  Entry, Outbox, Server, Disk, is_item, is_listed, item_name, EnqueueError, count_items,
  total_bytes, max_outbox_items, max_outbox_bytes, exceeds_bytes, write_entry, item_of, enqueue,
  flush, send, handle_result,
}
use admiral_fleet.Agent.Outbox.Delivery.{IsQueued, IsKept, flush_loses_nothing}

abbrev pub IsWithinLimits : List Entry → Type 0
IsWithinLimits es = (count_items es ≤ max_outbox_items) × (total_bytes es ≤ max_outbox_bytes)

write_entry-IsQueued :
    (e : Entry) (es : List Entry) (r : TaskResult)
    → e.parsed ≡ some r
    → is_item e ≡ true
    → IsQueued r (write_entry e es)
unfolding write_entry
write_entry-IsQueued e [] r p i = inl (p, i)
write_entry-IsQueued e (x ∷ xs) r p i = elim (Bool-cases (eq_text x.name e.name)) [
  | inl same ↦ rw same (inl (p, i))
  | inr other ↦ rw other (inr (write_entry-IsQueued e xs r p i))
]

enqueue-IsQueued :
    (disk : Disk) (now size : ℕ) (result : TaskResult) (box : Outbox)
    → has_suffix (item_name now result) (codes ".json") ≡ true
    → (enqueue disk now size result box).0 ≡ none
    → IsQueued result (enqueue disk now size result box).1.entries
unfolding enqueue
enqueue-IsQueued disk now size result box named =
    by_tests disk.is_directory (is_listed disk.listing)
      (leb max_outbox_items (count_items box.entries)
        || exceeds_bytes (total_bytes box.entries + size))
      disk.writes
  where
    item : Entry
    item = item_of (item_name now result) size result

    by_tests :
        (a l b c : Bool)
        → let r : Option EnqueueError × Outbox =
            if not a
            then (some EnqueueError.no_directory, box)
            else if not l
            then (some EnqueueError.not_listed, box)
            else if b
            then (some EnqueueError.limit_reached, box)
            else if not c
            then (some EnqueueError.write_failed, box)
            else (none, record box { entries = write_entry item box.entries }) in
          r.0 ≡ none → IsQueued result r.1.entries
    by_tests true true false true h =
        write_entry-IsQueued item box.entries result refl (unfold is_item in named)
    by_tests true true false false h = absurd (cc h)
    by_tests true true true c h = absurd (cc h)
    by_tests true false b c h = absurd (cc h)
    by_tests false l b c h = absurd (cc h)

-- The result of a task is delivered, or it waits in a file of the outbox that later flushes look at,
-- whatever the server answers, if enqueuing it after the first flush would succeed and the name that
-- is built for its file ends in `.json`.
pub handle_result-IsKept :
    (before after : Disk) (server : Server) (now size : ℕ) (result : TaskResult) (box : Outbox)
    → has_suffix (item_name now result) (codes ".json") ≡ true
    → (enqueue after now size result (flush before server box).1).0 ≡ none
    → IsKept result (handle_result before after server now size result box).1
unfolding handle_result send
handle_result-IsKept before after server now size result box named h =
    elim (Bool-cases (server (flush before server box).1.sent result)) [
      | inl accepted ↦ rw accepted ((flush_loses_nothing after server _).0 result (inl (inl refl)))
      | inr rejected ↦
          rw rejected
            (inr (enqueue-IsQueued after now size result (flush before server box).1 named h))
    ]
