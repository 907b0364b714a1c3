-- ===== src/Kf/Monitor/Bounds.antt =====
-- The monitor keeps to its number of attempts: its calls of Start are counted one by one.
use l3afd.Prelude.{
  ◌≡◌, refl, pos, subst, sym, ℕ, ◌+◌, ◌≤◌, Bool, true, false, ◌&&◌, String, Option, none, some, [],
  ◌∷◌, Map, nat_eq, nat_eq_iff, ap, ◌∙◌, ltb, ◌==◌, if◌then◌else◌, arith, Bool-cases, inl, inr,
}
use l3afd.Models.{enabled}
use l3afd.Os.{Os}
use l3afd.Stats.{Stats, nf_running, set}
use l3afd.Exec.{continue, Result, ok, err, panic, blocked, pure, try, ◌>>=◌}
use l3afd.Kf.ElementList.{Ref, Chain}
use l3afd.Kf.State.{State, Kf}
use l3afd.Kf.Access.{read, write, publish, write_bpf}
use l3afd.Kf.Quiet.{Keeps-publish, Keeps, quiet_rules}
use l3afd.Kf.Processes.{is_running}
use l3afd.Kf.Processes.Quiet.{process_rules}
use l3afd.Kf.Lifecycle.{start}
use l3afd.Kf.Lifecycle.Quiet.{start-Keeps}
use l3afd.Kf.Monitor.{PCheck, restart, check_program, check_list, monitor_round}

-- One, where a start of `e` is a start of `r`.
abbrev pub once : Ref → Ref → ℕ
once e r = if nat_eq e r then 1 else 0

module _ ⦃os : Os⦄ where
  abbrev pub count_of : State os → Ref → ℕ
  count_of s r = (s.bpfs r).restart_count

  abbrev pub counted : State os → Ref → State os
  counted s e = record s {
    bpfs =
        write_bpf s.bpfs e
          (let bpf = s.bpfs e in record bpf { restart_count = bpf.restart_count + 1 });
  }

  -- What a monitor does, from one state to another, and how often it has called Start on the struct
  -- `r` by then: it looks at processes, publishes figures, counts and starts.
  pub data Actions (c : PCheck) (r : Ref) (s : State os) : State os → ℕ → Type 0 where
    nothing : Actions c r s s 0
    looks :
        {t : State os} {n : ℕ}
        → Actions c r s t n
        → (e : Ref) → Actions c r s (try (is_running e) t).1 n
    publishes :
        {t : State os} {n : ℕ}
        → Actions c r s t n
        → (f : Stats → Stats) → Actions c r s (publish f t).1 n
    counts : {t : State os} {n : ℕ} → Actions c r s t n → (e : Ref) → Actions c r s (counted t e) n
    starts :
        {t : State os} {n : ℕ}
        → Actions c r s t n
        → (e : Ref) (iface_name direction : String)
        → Actions c r s (try (start e iface_name direction c.chain) t).1 (n + once e r)

  -- The state is reached by actions among which each start of the struct was counted, within the
  -- limit.
  abbrev pub IsBounded : PCheck → Ref → State os → State os → Type 0
  IsBounded c r s t =
      (n : ℕ) × Actions c r s t n
      × (count_of t r ≡ count_of s r + n)
      × (count_of t r ≤ c.max_retry_count)

module _ ⦃os : Os⦄ (c : PCheck) (r : Ref) (s : State os) where
  record Within {A : Type 0} (m : Kf A) : Type 0 where
    at : (t : State os) → IsBounded c r s t → IsBounded c r s (m t).1

  Within-pure : {A : Type 0} (a : A) → Within (pure a)
  unfolding pure
  Within-pure a = record { at = λ t b. b }

  Within-read : (e : Ref) → Within (read e)
  unfolding read
  Within-read e = record { at = λ t b. b }

  kept : {A : Type 0} (m : Kf A) → Keeps m → (t : State os) → count_of (m t).1 r ≡ count_of t r
  kept m k t = ((k.at t).bpfs r).restart_count

  Within-publish : (f : Stats → Stats) → Within (publish f)
  Within-publish f = record {
    at = λ t b. (
      b.0,
      publishes b.1 f,
      kept (publish f) (Keeps-publish f) t ∙ b.2,
      subst (λ x. x ≤ c.max_retry_count) (sym (kept (publish f) (Keeps-publish f) t)) b.3,
    );
  }

  running-Keeps : (e : Ref) → Keeps (try (is_running e))
  running-Keeps e = search (quiet_rules, process_rules) depth 30

  Within-running : (e : Ref) → Within (try (is_running e))
  Within-running e = record {
    at = λ t b. (
      b.0,
      looks b.1 e,
      kept (try (is_running e)) (running-Keeps e) t ∙ b.2,
      subst (λ x. x ≤ c.max_retry_count) (sym (kept (try (is_running e)) (running-Keeps e) t)) b.3,
    );
  }

  Within-if :
      {A : Type 0} (b : Bool) {p q : Kf A} → Within p → Within q → Within (if b then p else q)
  Within-if true v w = v
  Within-if false v w = w

  continue-IsBounded :
      {A B : Type 0} (x : Result B) (f : B → Kf A) (t : State os)
      → IsBounded c r s t
      → ((b : B) → Within (f b))
      → IsBounded c r s (l3afd.Exec.continue x f t).1
  continue-IsBounded (ok b) f t h w = (w b).at t h
  continue-IsBounded (err _) f t h w = h
  continue-IsBounded panic f t h w = h
  continue-IsBounded blocked f t h w = h

  Within-bind :
      {A B : Type 0} (m : Kf B) (f : B → Kf A)
      → Within m
      → ((b : B) → Within (f b))
      → Within (m >>= f)
  unfolding ◌>>=◌
  Within-bind m f v w = record { at = λ t h. continue-IsBounded (m t).0 f (m t).1 (v.at t h) w }

  start-Keeps_tried :
      (e : Ref) (iface_name direction : String) → Keeps (try (start e iface_name direction c.chain))
  start-Keeps_tried e iface_name direction = search (quiet_rules, start-Keeps) depth 30

  counted-once : (t : State os) (e : Ref) → count_of (counted t e) r ≡ count_of t r + once e r
  counted-once t e = elim (Bool-cases (nat_eq e r)) [
    | inl same ↦ ground (arith, nat_eq_iff e r, ap (λ x. count_of t x))
    | inr differs ↦ ground (arith, differs)
  ]

  counted-within :
      (t : State os) (e : Ref)
      → ltb (count_of t e) c.max_retry_count ≡ true
      → count_of t r ≤ c.max_retry_count
      → count_of t r + once e r ≤ c.max_retry_count
  counted-within t e guard b = ground (arith, nat_eq_iff e r)

  -- Counting comes before the start, so that each start is counted.
  restarted-IsBounded :
      (t : State os) (e : Ref) (iface_name direction : String)
      → ltb (count_of t e) c.max_retry_count ≡ true
      → IsBounded c r s t
      → IsBounded c r s (try (start e iface_name direction c.chain) (counted t e)).1
  restarted-IsBounded t e iface_name direction guard b =
      let same =
        kept _ (start-Keeps_tried e iface_name direction) (counted t e) ∙ counted-once t e in
      (
        b.0 + once e r,
        starts (counts b.1 e) e iface_name direction,
        omega (arith, same, b.2),
        omega (arith, same, counted-within t e guard b.3),
      )

  ended : {A : Type 0} (x : Result A) (t : State os) → (continue x (λ a. pure tt) t).1 ≡ t
  unfolding pure
  ended (ok a) t = refl
  ended (err e) t = refl
  ended panic t = refl
  ended blocked t = refl

  restart-IsBounded :
      (e : Ref) (iface_name direction : String) (t : State os)
      → IsBounded c r s t
      → IsBounded c r s (restart c e iface_name direction t).1
  unfolding restart read write ◌>>=◌
  restart-IsBounded e iface_name direction t b =
      elim (Bool-cases (
        ltb (t.bpfs e).restart_count c.max_retry_count
        && (t.bpfs e).program.admin_status == enabled)) [
          | inl again ↦ rw again (
              subst (IsBounded c r s)
                (sym (
                  ended (try (start e iface_name direction c.chain) (counted t e)).0
                    (try (start e iface_name direction c.chain) (counted t e)).1))
                (restarted-IsBounded t e iface_name direction (ground (arith, again)) b))
          | inr given_up ↦ rw given_up ((Within-publish _).at t b)
        ]

  restart-Within :
      (e : Ref) (iface_name direction : String) → Within (restart c e iface_name direction)
  restart-Within e iface_name direction = record { at = restart-IsBounded e iface_name direction }

  check_program-Within :
      (e : Ref) (iface_name direction : String) → Within (check_program c e iface_name direction)
  unfolding check_program
  check_program-Within e iface_name direction = Within-bind (read e) _ (Within-read e) (λ bpf.
      Within-if _ (Within-pure tt) (
        Within-if _ (Within-pure tt) (
          Within-bind (try (is_running e)) _ (Within-running e) (λ running.
            Within-if running (Within-publish (set (pos 1) nf_running bpf.program.name direction))
              (restart-Within e iface_name direction)))))

  check_list-Within :
      (iface_name direction : String) (l : Chain) → Within (check_list c iface_name direction l)
  unfolding check_list
  check_list-Within iface_name direction [] = Within-pure tt
  check_list-Within iface_name direction (e ∷ es) =
      Within-bind _ _ (check_program-Within e iface_name direction)
        (λ _. check_list-Within iface_name direction es)

  round-Within :
      (direction : String) (m : Map (Option Chain)) → Within (monitor_round c direction m)
  unfolding monitor_round
  round-Within direction [] = Within-pure tt
  round-Within direction ((iface_name, none) ∷ m) = round-Within direction m
  round-Within direction ((iface_name, some l) ∷ m) =
      Within-bind _ _ (check_list-Within iface_name direction l) (λ _. round-Within direction m)

module _ ⦃os : Os⦄ where
  -- Any number of rounds of the monitor, over the chains of the directions as they are at each round.
  pub data Rounds (c : PCheck) : State os → State os → Type 0 where
    start_round : {s : State os} → Rounds c s s
    next_round :
        {s t : State os}
        → Rounds c s t
        → (direction : String) (m : Map (Option Chain))
        → Rounds c s (monitor_round c direction m t).1

  -- However often the monitor runs, and whatever the system answers, a struct whose counter is within
  -- the limit of the configuration stays within it, and what the monitor did is a sequence of looking
  -- at processes, publishing, counting and calling Start in which the calls of Start on that struct
  -- are exactly as many as its counter has risen. So it is not restarted more often than the
  -- configuration allows.
  pub Rounds-IsBounded :
      (c : PCheck) (r : Ref) (s t : State os)
      → count_of s r ≤ c.max_retry_count
      → Rounds c s t
      → IsBounded c r s t
  Rounds-IsBounded c r s t b start_round = (0, nothing, omega arith, b)
  Rounds-IsBounded c r s t b (next_round before direction m) =
      (round-Within c r s direction m).at _ (Rounds-IsBounded c r s _ b before)
