-- ===== src/Agent/Outbox/Delivery.antt =====
-- What a flush of the outbox keeps and what it leaves.
use admiral_fleet.Prelude.{
  Bool, true, false, ◌&&◌, ◌≡◌, refl, ◌⊎◌, List, [], ◌∷◌, Option, none, some, All, Bool-cases, inl,
  inr,
}
use admiral_fleet.Executor.Report.{TaskResult}
use admiral_fleet.Agent.Outbox.{
  Entry, Outbox, Server, is_item, fate_of_result, settle, keep_unless, Disk, Listing, listed,
  missing, unreadable, flush_listed, Fate, skip, discard, deliver, refuse, fate, with_result,
  flush_entries, flush,
}

-- The result stands in a list of results, or in a file that later flushes look at.
abbrev pub IsSent : TaskResult → List TaskResult → Type 0
IsSent r [] = ⊥
IsSent r (s ∷ sent) = (s ≡ r) ⊎ IsSent r sent

abbrev pub IsQueued : TaskResult → List Entry → Type 0
IsQueued r [] = ⊥
IsQueued r (e ∷ es) = ((e.parsed ≡ some r) × (is_item e ≡ true)) ⊎ IsQueued r es

-- It waits in the outbox or it was delivered.
abbrev pub IsKept : TaskResult → Outbox → Type 0
IsKept r box = IsSent r box.sent ⊎ IsQueued r box.entries

by_result-discard :
    (server : Server) (sent : List TaskResult) (o : Option TaskResult)
    → fate_of_result server sent o ≡ discard
    → o ≡ none
by_result-discard server sent none h = refl
by_result-discard server sent (some r) h = elim (Bool-cases (server sent r)) [
  | inl accepted ↦ absurd (cc (rw accepted at h))
  | inr rejected ↦ absurd (cc (rw rejected at h))
]

-- An item is discarded only if it does not parse.
discarded_unparsed :
    (disk : Disk) (server : Server) (sent : List TaskResult) (e : Entry)
    → fate disk server sent e ≡ discard
    → e.parsed ≡ none
unfolding fate
discarded_unparsed disk server sent e h = elim (Bool-cases (is_item e && disk.reads e.name)) [
  | inl candidate ↦ by_result-discard server sent e.parsed (rw candidate at h)
  | inr other ↦ absurd (cc (rw other at h))
]

-- A file that stays loses nothing, and it keeps its result.
keep_unless-IsKept :
    (r : TaskResult) (b : Bool) (e : Entry) (outcome : Bool × Outbox)
    → IsKept r outcome.1
    → IsKept r (keep_unless b e outcome).1
keep_unless-IsKept r true e outcome k = k
keep_unless-IsKept r false e (b, box) (inl s) = inl s
keep_unless-IsKept r false e (b, box) (inr q) = inr (inr q)

with_result-IsSent :
    (r : TaskResult) (o : Option TaskResult) (sent : List TaskResult)
    → IsSent r sent
    → IsSent r (with_result o sent)
with_result-IsSent r none sent s = s
with_result-IsSent r (some x) sent s = inr s

module _ (r : TaskResult) (removed : Bool) (e : Entry) (es : List Entry) (sent : List TaskResult)
    (skipped delivered : Bool × Outbox) where
  settle-IsKept :
      (f : Fate)
      → (f ≡ discard → e.parsed ≡ none)
      → (IsKept r (record { entries = es; sent = sent }) → IsKept r skipped.1)
      → (IsKept r (record { entries = es; sent = with_result e.parsed sent })
          → IsKept r delivered.1)
      → IsKept r (record { entries = e ∷ es; sent = sent })
      → IsKept r (settle f removed e es sent skipped delivered).1
  settle-IsKept skip d k l (inl s) = keep_unless-IsKept r false e skipped (k (inl s))
  settle-IsKept skip d k l (inr (inl p)) = inr (inl p)
  settle-IsKept skip d k l (inr (inr q)) = keep_unless-IsKept r false e skipped (k (inr q))
  settle-IsKept discard d k l (inl s) = keep_unless-IsKept r removed e skipped (k (inl s))
  settle-IsKept discard d k l (inr (inl p)) = absurd (cc (p.0, d refl))
  settle-IsKept discard d k l (inr (inr q)) = keep_unless-IsKept r removed e skipped (k (inr q))
  settle-IsKept deliver d k l (inl s) =
      keep_unless-IsKept r removed e delivered (l (inl (with_result-IsSent r e.parsed sent s)))
  settle-IsKept deliver d k l (inr (inl p)) =
      keep_unless-IsKept r removed e delivered (l (inl (rw p.0 (inl refl))))
  settle-IsKept deliver d k l (inr (inr q)) = keep_unless-IsKept r removed e delivered (l (inr q))
  settle-IsKept refuse d k l h = h

flush_entries-IsKept :
    (r : TaskResult) (disk : Disk) (server : Server) (sent : List TaskResult) (es : List Entry)
    → IsKept r (record { entries = es; sent = sent })
    → IsKept r (flush_entries disk server sent es).1
unfolding flush_entries
flush_entries-IsKept r disk server sent [] h = h
flush_entries-IsKept r disk server sent (e ∷ es) h =
    settle-IsKept r (disk.removes e.name) e es sent _ _ (fate disk server sent e)
      (discarded_unparsed disk server sent e) (flush_entries-IsKept r disk server sent es)
      (flush_entries-IsKept r disk server (with_result e.parsed sent) es) h

flush_listed-IsKept :
    (r : TaskResult) (l : Listing) (disk : Disk) (server : Server) (box : Outbox)
    → IsKept r box
    → IsKept r (flush_listed l disk server box).1
flush_listed-IsKept r listed disk server box h =
    flush_entries-IsKept r disk server box.sent box.entries h
flush_listed-IsKept r missing disk server box h = h
flush_listed-IsKept r unreadable disk server box h = h

-- The entry is no item, it could not be read, or its file could not be removed.
abbrev pub IsStuck : Disk → Entry → Type 0
IsStuck disk e = ((is_item e && disk.reads e.name) ≡ false) ⊎ (disk.removes e.name ≡ false)

keep_unless-IsStuck :
    (disk : Disk) (b : Bool) (e : Entry) (outcome : Bool × Outbox)
    → (b ≡ false → IsStuck disk e)
    → (outcome.0 ≡ true → All (IsStuck disk) outcome.1.entries)
    → (keep_unless b e outcome).0 ≡ true
    → All (IsStuck disk) (keep_unless b e outcome).1.entries
keep_unless-IsStuck disk true e outcome d k h = k h
keep_unless-IsStuck disk false e (b, box) d k h = (d refl, k h)

module _ (disk : Disk) (e : Entry) (es : List Entry) (sent : List TaskResult)
    (skipped delivered : Bool × Outbox) where
  settle-IsStuck :
      (f : Fate)
      → (f ≡ skip → IsStuck disk e)
      → (skipped.0 ≡ true → All (IsStuck disk) skipped.1.entries)
      → (delivered.0 ≡ true → All (IsStuck disk) delivered.1.entries)
      → (settle f (disk.removes e.name) e es sent skipped delivered).0 ≡ true
      → All (IsStuck disk) (settle f (disk.removes e.name) e es sent skipped delivered).1.entries
  settle-IsStuck skip d k l h = keep_unless-IsStuck disk false e skipped (λ _. d refl) k h
  settle-IsStuck discard d k l h =
      keep_unless-IsStuck disk (disk.removes e.name) e skipped (λ n. inr n) k h
  settle-IsStuck deliver d k l h =
      keep_unless-IsStuck disk (disk.removes e.name) e delivered (λ n. inr n) l h
  settle-IsStuck refuse d k l h = absurd (cc h)

by_result_not_skip :
    (server : Server) (sent : List TaskResult) (o : Option TaskResult)
    → fate_of_result server sent o ≡ skip
    → ⊥
by_result_not_skip server sent none h = cc h
by_result_not_skip server sent (some r) h = elim (Bool-cases (server sent r)) [
  | inl accepted ↦ cc (rw accepted at h)
  | inr rejected ↦ cc (rw rejected at h)
]

skip-IsStuck :
    (disk : Disk) (server : Server) (sent : List TaskResult) (e : Entry)
    → fate disk server sent e ≡ skip
    → IsStuck disk e
unfolding fate
skip-IsStuck disk server sent e h = elim (Bool-cases (is_item e && disk.reads e.name)) [
  | inl candidate ↦ absurd (by_result_not_skip server sent e.parsed (rw candidate at h))
  | inr other ↦ inl other
]

flush_entries-IsStuck :
    (disk : Disk) (server : Server) (sent : List TaskResult) (es : List Entry)
    → (flush_entries disk server sent es).0 ≡ true
    → All (IsStuck disk) (flush_entries disk server sent es).1.entries
unfolding flush_entries
flush_entries-IsStuck disk server sent [] h = tt
flush_entries-IsStuck disk server sent (e ∷ es) h =
    settle-IsStuck disk e es sent _ _ (fate disk server sent e) (skip-IsStuck disk server sent e)
      (flush_entries-IsStuck disk server sent es)
      (flush_entries-IsStuck disk server (with_result e.parsed sent) es) h

flush_listed-IsStuck :
    (l : Listing) (disk : Disk) (server : Server) (box : Outbox)
    → l ≡ listed
    → (flush_listed l disk server box).0 ≡ true
    → All (IsStuck disk) (flush_listed l disk server box).1.entries
flush_listed-IsStuck listed disk server box e h =
    flush_entries-IsStuck disk server box.sent box.entries h
flush_listed-IsStuck missing disk server box e h = absurd (cc e)
flush_listed-IsStuck unreadable disk server box e h = absurd (cc e)

-- A flush loses no result, whatever fails: what was delivered or waited as an item of the outbox was
-- delivered or waits afterwards, also if the flush stops at an error. After a flush without an error
-- whose directory could be listed, each entry that is left is no item, could not be read, or could
-- not be removed.
pub flush_loses_nothing :
    (disk : Disk) (server : Server) (box : Outbox)
    → ((r : TaskResult) → IsKept r box → IsKept r (flush disk server box).1)
      × (disk.listing ≡ listed
          → (flush disk server box).0 ≡ true
          → All (IsStuck disk) (flush disk server box).1.entries)
unfolding flush
flush_loses_nothing disk server box = (
  (λ r. flush_listed-IsKept r disk.listing disk server box),
  flush_listed-IsStuck disk.listing disk server box,
)
