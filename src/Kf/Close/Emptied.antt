-- ===== src/Kf/Close/Emptied.antt =====
-- What Close leaves of the maps.
use l3afd.Prelude.{
  ◌≡◌, refl, sym, subst, ◌∙◌, ap, Bool, true, false, String, Option, none, some, List, [], ◌∷◌, Map,
  lookup, delete, insert, lookup-delete, lookup-insert, is_empty, ◌==◌, if◌then◌else◌, Bool-cases,
  inl, inr, arith,
}
use text.Mathlib.TextPositions.{eq_refl}
use l3afd.Os.{Os}
use l3afd.Exec.{Result, ok, err, panic, blocked, gets, modify, try, ◌>>=◌}
use l3afd.Exec.After.{
  Ensures, Ensures-ok, bind-Ensures, pure-Ensures, if-Ensures, blocks-Ensures, always-Ensures,
}
use l3afd.Kf.ElementList.{Chain}
use l3afd.Kf.State.{Direction, xdp_ingress, ingress, egress, NfConfigs, State}
use l3afd.Kf.Access.{direction_of, with_chain}
use l3afd.Kf.View.{View, view, put_chain}
use l3afd.Kf.Outcome.{Post}
use l3afd.Kf.Removal.{stop_n_remove_all_bpf_programs}
use l3afd.Kf.Removal.All.{stop_n_remove_all-Outcome}
use l3afd.Kf.Close.{
  name_of, keys_of, Pending, done_one, all_done, without_key, finished, close_one, run_turns,
  select, close,
}

abbrev among : String → List String → Bool
among key [] = false
among key (x ∷ xs) = if x == key then true else among key xs

-- Every key of the map is still to be taken down.
abbrev Covers : List String → Map (Option Chain) → Type 0
Covers w m = (key : String) → among key w ≡ false → lookup key m ≡ none

keys_of-Covers : (m : Map (Option Chain)) → Covers (keys_of m) m
unfolding lookup
keys_of-Covers [] key h = refl
keys_of-Covers ((k, l) ∷ m) key h = elim (Bool-cases (k == key)) [
  | inl same ↦ absurd (ground (arith, h, same))
  | inr other ↦ rw other (keys_of-Covers m key (ground (arith, h, other)))
]

-- A map that finds nothing is empty.
empty_of_Covers : (m : Map (Option Chain)) → Covers [] m → m ≡ []
unfolding lookup
empty_of_Covers [] h = refl
empty_of_Covers ((k, l) ∷ m) h =
    let found : some l ≡ none =
      ap (λ b. if b then some l else lookup k m) (sym (eq_refl k)) ∙ h k refl in
    cc

-- Taking an entry down leaves the others.
delete-Covers :
    (x : String) (xs : List String) (m : Map (Option Chain))
    → Covers (x ∷ xs) m
    → Covers xs (delete x (insert x none m))
delete-Covers x xs m h key out = elim (Bool-cases (x == key)) [
  | inl same ↦
      lookup-delete x key (insert x none m)
      ∙ ap (λ b. if b then none else lookup key (insert x none m)) same
  | inr other ↦
      lookup-delete x key (insert x none m)
      ∙ (ap (λ b. if b then none else lookup key (insert x none m)) other
          ∙ (lookup-insert x key none m
              ∙ (ap (λ b. if b then some none else lookup key m) other
                  ∙ h key (ground (arith, other, out)))))
]

-- What is pending covers the maps of all directions.
abbrev AllCovered : Pending → NfConfigs → Type 0
AllCovered w c = (d : Direction) → Covers (w d) (c.chains d)

any-Post :
    {A : Type 0} (w : View) (r : Result A) (v : View) → Post (λ _ v. v ≡ w) (λ v. v ≡ w) r v → v ≡ w
any-Post w (ok a) v p = p
any-Post w (err e) v p = p
any-Post w panic v p = p
any-Post w blocked v p = p

direction_of-name_of : (d : Direction) → direction_of (name_of d) ≡ some d
unfolding direction_of
direction_of-name_of xdp_ingress = refl
direction_of-name_of ingress = refl
direction_of-name_of egress = refl

taken_down :
    (c : NfConfigs) (d : Direction) (x : String) (xs : List String) (w : Pending)
    → w d ≡ x ∷ xs
    → AllCovered w c
    → AllCovered (done_one w d) (without_key (with_chain c d x none) d x)
taken_down c xdp_ingress x xs w e h xdp_ingress = rw e (
    delete-Covers x xs (c.chains xdp_ingress)
      (subst (λ l. Covers l (c.chains xdp_ingress)) e (h xdp_ingress)))
taken_down c xdp_ingress x xs w e h ingress = h ingress
taken_down c xdp_ingress x xs w e h egress = h egress
taken_down c ingress x xs w e h xdp_ingress = h xdp_ingress
taken_down c ingress x xs w e h ingress =
    rw e (
      delete-Covers x xs (c.chains ingress)
        (subst (λ l. Covers l (c.chains ingress)) e (h ingress)))
taken_down c ingress x xs w e h egress = h egress
taken_down c egress x xs w e h xdp_ingress = h xdp_ingress
taken_down c egress x xs w e h ingress = h ingress
taken_down c egress x xs w e h egress =
    rw e
      (delete-Covers x xs (c.chains egress) (subst (λ l. Covers l (c.chains egress)) e (h egress)))

-- A goroutine that is through stays so.
nothing_left :
    (d : Direction) (w : Pending) (c : NfConfigs)
    → w d ≡ []
    → AllCovered w c
    → AllCovered (done_one w d) c
nothing_left xdp_ingress w c e h xdp_ingress =
    rw e (subst (λ l. Covers l (c.chains xdp_ingress)) e (h xdp_ingress))
nothing_left xdp_ingress w c e h ingress = h ingress
nothing_left xdp_ingress w c e h egress = h egress
nothing_left ingress w c e h xdp_ingress = h xdp_ingress
nothing_left ingress w c e h ingress = rw e (subst (λ l. Covers l (c.chains ingress)) e (h ingress))
nothing_left ingress w c e h egress = h egress
nothing_left egress w c e h xdp_ingress = h xdp_ingress
nothing_left egress w c e h ingress = h ingress
nothing_left egress w c e h egress = rw e (subst (λ l. Covers l (c.chains egress)) e (h egress))

nil_of_is_empty : (l : List String) → is_empty l ≡ true → l ≡ []
nil_of_is_empty [] h = refl
nil_of_is_empty (x ∷ xs) h = cc

is_done : (w : Pending) (d : Direction) → all_done w ≡ true → w d ≡ []
is_done w xdp_ingress h = nil_of_is_empty (w xdp_ingress) (ground (arith, h))
is_done w ingress h = nil_of_is_empty (w ingress) (ground (arith, h))
is_done w egress h = nil_of_is_empty (w egress) (ground (arith, h))

module _ ⦃os : Os⦄ where
  stopped_configs :
      (s : State os) (d : Direction) (x : String)
      → (try (stop_n_remove_all_bpf_programs x (name_of d)) s).1.configs
        ≡ with_chain s.configs d x none
  unfolding try
  stopped_configs s d x =
      ap (λ (v : View). v.configs)
        (any-Post (put_chain (view s) d x none) (stop_n_remove_all_bpf_programs x (name_of d) s).0 _
          (stop_n_remove_all-Outcome s d x (name_of d) (direction_of-name_of d)).at)

  close_one-Ensures :
      (s : State os) (d : Direction) (w : Pending) (l : List String)
      → w d ≡ l
      → AllCovered w s.configs
      → Ensures (close_one d l) s (λ _ t. AllCovered (done_one w d) t.configs)
  unfolding close_one modify
  close_one-Ensures s d w [] e h = pure-Ensures tt s _ (nothing_left d w s.configs e h)
  close_one-Ensures s d w (x ∷ xs) e h =
      bind-Ensures _ (λ _ t. t.configs ≡ with_chain s.configs d x none) _ _ s
        (always-Ensures _ s (λ t. t.configs ≡ with_chain s.configs d x none)
          (stopped_configs s d x))
        (λ _ t q. record {
          at =
              subst (λ c. AllCovered (done_one w d) (without_key c d x)) (sym q)
                (taken_down s.configs d x xs w e h);
        })

  run_turns-Ensures :
      (ds : List Direction) (w : Pending) (s : State os)
      → AllCovered w s.configs
      → Ensures (run_turns ds w) s (λ w' t. AllCovered w' t.configs)
  unfolding run_turns
  run_turns-Ensures [] w s h = pure-Ensures w s _ h
  run_turns-Ensures (d ∷ ds) w s h =
      bind-Ensures _ _ _ _ s (close_one-Ensures s d w (w d) refl h)
        (λ _ t k. run_turns-Ensures ds (done_one w d) t k)

  select-Ensures :
      (w : Pending) (t : State os)
      → AllCovered w t.configs
      → Ensures (select finished w) t (λ _ u. (d : Direction) → u.configs.chains d ≡ [])
  unfolding select
  select-Ensures w t h =
      if-Ensures (all_done w) _ _ t _
        (λ done. pure-Ensures tt t _ (λ d.
          empty_of_Covers (t.configs.chains d)
            (subst (λ l. Covers l (t.configs.chains d)) (is_done w d done) (h d))))
        (λ _. blocks-Ensures t _)

  -- Where Close returns because its goroutines are through, no direction has an interface left, in
  -- whatever order they took their turns and whether or not the programs could be stopped.
  pub close-empties :
      (s t : State os) (turns : List Direction) (d : Direction)
      → close turns finished s ≡ (ok tt, t)
      → t.configs.chains d ≡ []
  unfolding close gets ◌>>=◌
  close-empties s t turns d done =
      Ensures-ok _ s t tt _
        (bind-Ensures (λ _ u. (d : Direction) → u.configs.chains d ≡ []) _
          (run_turns turns (λ d. keys_of (s.configs.chains d))) (λ w. select finished w) s
          (run_turns-Ensures turns _ s (λ d. keys_of-Covers (s.configs.chains d)))
          (λ w u h. select-Ensures w u h))
        done d
