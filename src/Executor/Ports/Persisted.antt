-- ===== src/Executor/Ports/Persisted.antt =====
-- What `allocateHostPorts` has done when it succeeds, and two allocations one after the other.
use admiral_fleet.Prelude.{
  Text, ℕ, ℤ, List, [], ◌∷◌, ◌≡◌, ◌≢◌, refl, sym, subst, ap, ◌∙◌, ◌⊎◌, inl, inr, Option, none, some,
  decimal,
}
use admiral_fleet.Fleet.Task.{ServiceInfo}
use admiral_fleet.Fleet.Effects.{
  Result, ok, err, World, Call, Value, Content, text, ports, ports_file, next_port_file,
  instance_dir, ◌>>=◌, pure, fail, observe, command, perform, read_content, as_content,
}
use admiral_fleet.Fleet.Effects.Keeps.{event}
use admiral_fleet.Executor.Deprovision.Cleanup.{Reply-cases}
use admiral_fleet.Executor.Files.{Ports, load_host_ports, ports_of_reply}
use admiral_fleet.Executor.Ports.{
  persist, allocate, assign_ports, allocate_host_ports, counter_of_reply,
}

-- The world after one call.
abbrev pub told : World → Call → World
told w c = record w { log = event c (w.node w.log c) ∷ w.log }

-- The call succeeds now.
abbrev pub Succeeds : World → Call → Type 0
Succeeds w c = (v : Value) × (w.node w.log c ≡ ok v)

abbrev pub content_of : Result Text Value → Result Text Content
content_of (ok v) = ok (as_content v)
content_of (err e) = err e

-- The counter that a look at the counter file gives now.
abbrev pub counter_now : World → ℕ
counter_now w = counter_of_reply (content_of (w.node w.log (Call.read_file next_port_file)))

abbrev pub looked : Text → World → World
looked i w = told w (Call.read_file (ports_file i))

abbrev pub prepared : Text → World → World
prepared i w = told (looked i w) (Call.mkdir_all (instance_dir i))

abbrev pub counted : Text → World → World
counted i w = told (prepared i w) (Call.read_file next_port_file)

abbrev pub write_counter : ℕ → Call
write_counter next = Call.write_file next_port_file (text (decimal next))

abbrev pub write_ports : Text → Ports → Call
write_ports i m = Call.write_file (ports_file i) (ports m)

-- A fresh allocation from the world `w` to the world `after`: the ports are those that the loop
-- assigns from the counter that is read. The next free port was written to the counter file, then
-- the ports to the instance's file, and both writes succeeded.
pub record Allocated (i : Text) (services : List ServiceInfo) (m : Ports) (w after : World)
    : Type 0 where
  pub next : ℕ
  pub assigned : assign_ports (counter_now (prepared i w)) services [] ≡ some (m, next)
  pub counter_written : Succeeds (counted i w) (write_counter next)
  pub ports_written : Succeeds (told (counted i w) (write_counter next)) (write_ports i m)
  pub ends : after ≡ told (told (counted i w) (write_counter next)) (write_ports i m)

-- The instance has ports, and they are only read.
abbrev pub Reused : Text → Ports → World → World → Type 0
Reused i m w after =
    (m ≢ [])
    × (ports_of_reply (content_of (w.node w.log (Call.read_file (ports_file i)))) ≡ m)
    × (after ≡ looked i w)

-- What a run of `persist` that succeeds has done.
abbrev Written : Text → Ports → ℕ → World → Ports → World → Type 0
Written i m next w found after =
    (m ≡ found)
    × Succeeds w (write_counter next)
    × Succeeds (told w (write_counter next)) (write_ports i m)
    × (after ≡ told (told w (write_counter next)) (write_ports i m))

persist-Written :
    (i : Text) (m found : Ports) (next : ℕ) (w : World)
    → (persist i (some (m, next)) w).0 ≡ ok found
    → Written i m next w found (persist i (some (m, next)) w).1
unfolding persist ◌>>=◌ pure command perform
persist-Written i m found next w h = elim (Reply-cases (w.node w.log (write_counter next))) [
  | inr (e, failed) ↦ absurd (cc (rw failed at h))
  | inl (v, good) ↦
      let w' = told w (write_counter next) in
      elim (Reply-cases (w'.node w'.log (write_ports i m))) [
        | inr (e, failed) ↦ absurd (cc (rw (good, rw good at failed) at h))
        | inl (u, fine) ↦ (
          cc (rw (good, rw good at fine) at h),
          (v, good),
          (u, fine),
          rw (good, rw good at fine) refl,
        )
      ]
]

persisted-Allocated :
    (i : Text) (services : List ServiceInfo) (m : Ports) (w : World) (o : Option (Ports × ℕ))
    → assign_ports (counter_now (prepared i w)) services [] ≡ o
    → (persist i o (counted i w)).0 ≡ ok m
    → Allocated i services m w (persist i o (counted i w)).1
unfolding persist fail
persisted-Allocated i services m w none a h = absurd (cc h)
persisted-Allocated i services m w (some (found, next)) a h =
    let (same, counter, last, after) = persist-Written i found m next (counted i w) h in
    record {
      next = next;
      assigned = a ∙ ap (λ x. some (x, next)) same;
      counter_written = counter;
      ports_written =
          subst (λ x. Succeeds (told (counted i w) (write_counter next)) (write_ports i x)) same
            last;
      ends =
          after ∙ ap (λ x. told (told (counted i w) (write_counter next)) (write_ports i x)) same;
    }

-- Once the directory is made, what is left is to write.
allocate_writes :
    (i : Text) (services : List ServiceInfo) (w : World) (v : Value)
    → (looked i w).node (looked i w).log (Call.mkdir_all (instance_dir i)) ≡ ok v
    → allocate i services [] (looked i w)
      ≡ persist i (assign_ports (counter_now (prepared i w)) services []) (counted i w)
unfolding allocate ◌>>=◌ pure observe command perform read_content
allocate_writes i services w v made =
    elim (Reply-cases ((prepared i w).node (prepared i w).log (Call.read_file next_port_file))) [
      | inl (u, read) ↦ rw (made, rw made at read) refl
      | inr (e, unread) ↦ rw (made, rw made at unread) refl
    ]

not_made :
    (i : Text) (services : List ServiceInfo) (m : Ports) (w : World) (e : Text)
    → (looked i w).node (looked i w).log (Call.mkdir_all (instance_dir i)) ≡ err e
    → (allocate i services [] (looked i w)).0 ≢ ok m
unfolding allocate ◌>>=◌ command perform pure
not_made i services m w e failed h = absurd (cc (rw failed at h))

allocate-Allocated :
    (i : Text) (services : List ServiceInfo) (m : Ports) (w : World)
    → (allocate i services [] (looked i w)).0 ≡ ok m
    → Allocated i services m w (allocate i services [] (looked i w)).1
allocate-Allocated i services m w h =
    elim (Reply-cases ((looked i w).node (looked i w).log (Call.mkdir_all (instance_dir i)))) [
      | inr (e, failed) ↦ absurd (not_made i services m w e failed h)
      | inl (v, made) ↦
          let same = allocate_writes i services w v made in
          let o = assign_ports (counter_now (prepared i w)) services [] in
          subst (λ (r : Result Text Ports × World). Allocated i services m w r.1) (sym same)
            (persisted-Allocated i services m w o refl (sym (ap (λ r. r.0) same) ∙ h))
    ]

reused :
    (i : Text) (services : List ServiceInfo) (m : Ports) (x : Text × ℤ) (existing : Ports)
    (w : World)
    → ports_of_reply (content_of (w.node w.log (Call.read_file (ports_file i)))) ≡ x ∷ existing
    → (allocate i services (x ∷ existing) (looked i w)).0 ≡ ok m
    → Reused i m w (allocate i services (x ∷ existing) (looked i w)).1
unfolding allocate pure
reused i services m x existing w e h =
    let same : (x ∷ existing) ≡ m = cc h in
    (subst (λ k. k ≢ []) same (λ n. absurd (cc n)), e ∙ same, refl)

-- By what the look at the ports of the instance gives.
allocate_by :
    (i : Text) (services : List ServiceInfo) (m existing : Ports) (w : World)
    → ports_of_reply (content_of (w.node w.log (Call.read_file (ports_file i)))) ≡ existing
    → (allocate i services existing (looked i w)).0 ≡ ok m
    → Reused i m w (allocate i services existing (looked i w)).1
      ⊎ Allocated i services m w (allocate i services existing (looked i w)).1
allocate_by i services m [] w e h = inr (allocate-Allocated i services m w h)
allocate_by i services m (x ∷ existing) w e h = inl (reused i services m x existing w e h)

allocate_host_ports_looks :
    (i : Text) (services : List ServiceInfo) (w : World)
    → allocate_host_ports i services w
      ≡ allocate i services
          (ports_of_reply (content_of (w.node w.log (Call.read_file (ports_file i)))))
          (looked i w)
unfolding allocate_host_ports load_host_ports ◌>>=◌ pure observe perform read_content
allocate_host_ports_looks i services w =
    elim (Reply-cases (w.node w.log (Call.read_file (ports_file i)))) [
      | inl (v, read) ↦ rw read refl
      | inr (e, unread) ↦ rw unread refl
    ]

-- An allocation that succeeds either gives the ports that are on file for the instance, of which
-- there are some, and has only read them; or it gives the ports that the loop assigns from the
-- counter that it read, after it has written the next free port and then these ports, both with
-- success. An unreadable, an undecodable and an empty file all lead to the second.
pub allocate_host_ports-Accounted :
    (i : Text) (services : List ServiceInfo) (m : Ports) (w : World)
    → (allocate_host_ports i services w).0 ≡ ok m
    → Reused i m w (allocate_host_ports i services w).1
      ⊎ Allocated i services m w (allocate_host_ports i services w).1
allocate_host_ports-Accounted i services m w h =
    let same = allocate_host_ports_looks i services w in
    subst (λ (r : Result Text Ports × World). Reused i m w r.1 ⊎ Allocated i services m w r.1)
      (sym same) (allocate_by i services m _ w refl (sym (ap (λ r. r.0) same) ∙ h))
