-- ===== src/Agent/Outbox/Liveness.antt =====
-- A server that accepts results gets every one that waits.
use admiral_fleet.Prelude.{
  true, ◌&&◌, List, [], ◌∷◌, ◌++◌, ◌≡◌, refl, sym, ap, ◌∙◌, Bool-cases, inl, inr, if◌then◌else◌,
  append_assoc, Option-cases, some,
}
use mathlib.Core.List.{reverse, reverse-append}
use admiral_fleet.Executor.Report.{TaskResult}
use admiral_fleet.Agent.Outbox.{
  Entry, Outbox, Server, Disk, Listing, listed, flush_listed, is_item, fate, with_result,
  flush_entries, flush,
}

abbrev pub Accepting : Server → Type 0
Accepting server = (sent : List TaskResult) (r : TaskResult) → server sent r ≡ true

-- The results that wait, in the order of the entries.
abbrev pub pending : Disk → List Entry → List TaskResult
pending disk [] = []
pending disk (e ∷ es) =
    let rest = pending disk es in
    if is_item e && disk.reads e.name then with_result e.parsed rest else rest

-- The entries that are no items, cannot be read, or cannot be removed.
abbrev pub left : Disk → List Entry → List Entry
left disk [] = []
left disk (e ∷ es) =
    let rest = left disk es in
    if is_item e && disk.reads e.name && disk.removes e.name then rest else e ∷ rest

-- The outbox after everything is delivered; the newest delivery is the first.
abbrev pub emptied : Disk → List TaskResult → List Entry → Outbox
emptied disk sent es = record { entries = left disk es; sent = reverse (pending disk es) ++ sent }

reverse-more :
    (r : TaskResult) (rs sent : List TaskResult) → reverse rs ++ r ∷ sent ≡ reverse (r ∷ rs) ++ sent
reverse-more r rs sent =
    sym (append_assoc (reverse rs) (r ∷ []) sent)
    ∙ ap (λ l. l ++ sent) (sym (reverse-append (r ∷ []) rs))

flush_entries-emptied :
    (disk : Disk) (server : Server) (sent : List TaskResult) (es : List Entry)
    → Accepting server
    → flush_entries disk server sent es ≡ (true, emptied disk sent es)
unfolding flush_entries fate
flush_entries-emptied disk server sent [] accepting = refl
flush_entries-emptied disk server sent (e ∷ es) accepting =
    elim (Bool-cases (is_item e && disk.reads e.name)) [
      | inr other ↦ rw (other, flush_entries-emptied disk server sent es accepting) refl
      | inl item ↦ elim (Option-cases e.parsed) [
        | inl bad ↦ elim (Bool-cases (disk.removes e.name)) [
          | inl gone ↦
              rw (item, bad, gone, flush_entries-emptied disk server sent es accepting) refl
          | inr stays ↦
              rw (item, bad, stays, flush_entries-emptied disk server sent es accepting) refl
        ]
        | inr (r, good) ↦
            let rest = flush_entries-emptied disk server (r ∷ sent) es accepting in
            elim (Bool-cases (disk.removes e.name)) [
              | inl gone ↦
                  rw (item, good, gone, accepting sent r, rest)
                    (ap (λ l. (true, record { entries = left disk es; sent = l }))
                      (reverse-more r (pending disk es) sent))
              | inr stays ↦
                  rw (item, good, stays, accepting sent r, rest)
                    (ap
                      (λ l. (
                        true,
                        record { entries = record e { parsed = some r } ∷ left disk es; sent = l },
                      ))
                      (reverse-more r (pending disk es) sent))
            ]
      ]
    ]

flush_listed-emptied :
    (l : Listing) (disk : Disk) (server : Server) (box : Outbox)
    → l ≡ listed
    → Accepting server
    → flush_listed l disk server box ≡ (true, emptied disk box.sent box.entries)
flush_listed-emptied listed disk server box e accepting =
    flush_entries-emptied disk server box.sent box.entries accepting
flush_listed-emptied Listing.missing disk server box e accepting = absurd (cc e)
flush_listed-emptied Listing.unreadable disk server box e accepting = absurd (cc e)

-- With a directory that can be listed and a server that accepts every result, a flush succeeds and
-- delivers each result that waits in a readable item once, in the order of the entries. The entries
-- that are left are those that are no items, cannot be read, or cannot be removed.
pub flush-emptied :
    (disk : Disk) (server : Server) (box : Outbox)
    → disk.listing ≡ listed
    → Accepting server
    → flush disk server box ≡ (true, emptied disk box.sent box.entries)
unfolding flush
flush-emptied disk server box there accepting =
    flush_listed-emptied disk.listing disk server box there accepting
