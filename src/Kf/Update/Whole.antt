-- ===== src/Kf/Update/Whole.antt =====
-- VerifyNUpdateBPFProgram as a whole keeps a chain in order.
use l3afd.Prelude.{
  ◌≡◌, refl, sym, ap, ◌∙◌, subst, Bool, true, false, ◌&&◌, ◌||◌, not, String, Option, none, some,
  [], ◌∷◌, ◌⊎◌, inl, inr, eq_ℤ, eq_ℤ_iff, ◌==◌, eq_iff, Bool-cases, arith,
}
use l3afd.Models.{BpfProgram, disabled}
use l3afd.Os.{Os}
use l3afd.Exec.{on_option, wrap}
use l3afd.Kf.ElementList.{Ref, Chain, mem, remove}
use l3afd.Kf.State.{Direction, State}
use l3afd.Kf.Access.{direction_of, chain_at}
use l3afd.Kf.View.{View, view, IsWellFormed}
use l3afd.Kf.Outcome.{
  Outcome, Outcome-mono, bind-Outcome, read-Outcome, return-Outcome, get_chain-Outcome,
  pure-Outcome, wrap-Outcome,
}
use l3afd.Kf.Equality.{program_eq, args_eq}
use l3afd.Kf.Placed.{position}
use l3afd.Kf.Placed.Move.{NameIsUnique}
use l3afd.Kf.Placement.{insert_and_start_bpf_program}
use l3afd.Kf.Placement.Insertion.{placed_chain}
use l3afd.Kf.Placement.Sorted.{insert-keeps_order}
use l3afd.Kf.Update.{find_program, update_element, verify_n_update_bpf_program}
use l3afd.Kf.Update.Same.{named, HasNames}
use l3afd.Kf.Removal.Gone.{IsGone}
use l3afd.Kf.Update.Disable.{change_admin_status-IsGone}
use l3afd.Kf.Update.Version.{change_version-IsKept}
use l3afd.Kf.Update.Settings.{change_settings-keeps_order}
use l3afd.Kf.Update.Names.{names-NameIsUnique, named-mem}

-- The source's test for a restart.
abbrev pub is_restarted : BpfProgram → BpfProgram → Bool
is_restarted old new =
    not (old.version == new.version) || not (args_eq old.start_args new.start_args)

-- A restart changes neither the sequence ID nor the map name.
abbrev pub stays : BpfProgram → BpfProgram → Bool
stays old new =
    not (is_restarted old new) || (eq_ℤ new.seq_id old.seq_id && (new.map_name == old.map_name))

abbrev pub stays_in : View → BpfProgram → Chain → Bool
stays_in v p l = elim (named v p.name l) [ none ↦ true | some e ↦ stays (v.program e) p ]

-- The entry is nil, or a well-formed chain.
abbrev pub IsInOrder : Direction → String → View → Type 0
IsInOrder d iface v =
    (chain_at v.configs d iface ≡ none)
    ⊎ ((k : Chain) × (chain_at v.configs d iface ≡ some k) × IsWellFormed v k)

abbrev pub HasChain : Direction → String → View → Type 0
HasChain d iface v = (k : Chain) × (chain_at v.configs d iface ≡ some k)

IsGone-IsInOrder :
    (b : Bool) (l : Chain) (d : Direction) (iface : String) (e : Ref) (v : View)
    → IsGone b d iface l e v
    → IsInOrder d iface v
IsGone-IsInOrder true l d iface e v gone = inl gone
IsGone-IsInOrder false l d iface e v rest = inr (remove l e, rest.0, rest.1)

pub split_stay : (r a b : Bool) → r ≡ true → (not r || (a && b)) ≡ true → (a ≡ true) × (b ≡ true)
split_stay r a b q p = (ground arith, ground arith)

module _ ⦃os : Os⦄ where
  pub find_program-Outcome :
      (E : View → Type 0) (s : State os) (n : String) (l : Chain)
      → Outcome (find_program n l) s (λ r v. (r ≡ named (view s) n l) × (v ≡ view s)) E
  unfolding find_program
  find_program-Outcome E s n [] = pure-Outcome none s (refl, refl)
  find_program-Outcome E s n (e ∷ es) =
      read-Outcome s e _ (elim (Bool-cases ((s.bpfs e).program.name == n)) [
        | inl here ↦ rw here (pure-Outcome (some e) s (refl, refl))
        | inr differs ↦ rw differs (find_program-Outcome E s n es)
      ])

  -- The branches for a program that is in the chain.
  update_element-Outcome :
      (s : State os) (p : BpfProgram) (e : Ref) (l : Chain) (d : Direction)
      (iface direction : String)
      → direction_of direction ≡ some d
      → mem e l ≡ true
      → NameIsUnique (view s) e l
      → stays (s.bpfs e).program p ≡ true
      → chain_at s.configs d iface ≡ some l
      → IsWellFormed (view s) l
      → Outcome
          (update_element p e l d iface direction)
          s
          (λ _ v. IsInOrder d iface v)
          (HasChain d iface)
  unfolding update_element
  update_element-Outcome s p e l d iface direction dir m u st there w =
      read-Outcome s e _ (elim (Bool-cases (program_eq (s.bpfs e).program p)) [
        | inl same ↦ rw same (pure-Outcome tt s (inr (l, there, w)))
        | inr new ↦ rw new (elim (Bool-cases ((s.bpfs e).program.admin_status == p.admin_status)) [
          | inr status ↦ rw status (
              Outcome-mono _ _ _ _ (λ _ v q. IsGone-IsInOrder _ l d iface e v q)
                (λ v q. elim q [ inl old ↦ (l, old) | inr rest ↦ (remove l e, rest) ])
                (change_admin_status-IsGone s p e l d iface direction dir m there w))
          | inl status ↦ rw status (elim (Bool-cases (is_restarted (s.bpfs e).program p)) [
            | inl restarted ↦
                let keys =
                  split_stay (is_restarted (s.bpfs e).program p)
                    (eq_ℤ p.seq_id (s.bpfs e).program.seq_id)
                    (p.map_name == (s.bpfs e).program.map_name) restarted st in
                rw restarted (
                  Outcome-mono _ _ _ _ (λ _ v q. inr (l, q.0, q.1)) (λ v q. (l, q.0))
                    (change_version-IsKept s p e l d iface direction m
                      ((eq_ℤ_iff p.seq_id (s.bpfs e).program.seq_id).0 keys.0)
                      ((eq_iff p.map_name (s.bpfs e).program.map_name).0 keys.1) there w))
            | inr running ↦ rw running (
                Outcome-mono _ _ _ _ (λ _ v q. inr (q.0, q.1, q.2)) (λ v q. (q.0, q.1))
                  (change_settings-keeps_order s p e l d iface direction m u there w))
          ])
        ])
      ])

  insert_disabled-Outcome :
      (s : State os) (p : BpfProgram) (l : Chain) (d : Direction) (iface direction : String)
      → (p.admin_status == disabled) ≡ true
      → chain_at s.configs d iface ≡ some l
      → IsWellFormed (view s) l
      → Outcome
          (insert_and_start_bpf_program (some p) iface direction)
          s
          (λ _ v. IsInOrder d iface v)
          (HasChain d iface)
  unfolding insert_and_start_bpf_program
  insert_disabled-Outcome s p l d iface direction off there w =
      rw off (pure-Outcome tt s (inr (l, there, w)))

  -- A program that may be disabled, into a chain that lacks it.
  insert_any-Outcome :
      (s : State os) (p : BpfProgram) (l : Chain) (d : Direction) (iface direction : String)
      → direction_of direction ≡ some d
      → chain_at s.configs d iface ≡ some l
      → IsWellFormed (view s) l
      → Outcome
          (insert_and_start_bpf_program (some p) iface direction)
          s
          (λ _ v. IsInOrder d iface v)
          (HasChain d iface)
  insert_any-Outcome s p l d iface direction dir there w =
      elim (Bool-cases (p.admin_status == disabled)) [
        | inl off ↦ insert_disabled-Outcome s p l d iface direction off there w
        | inr on ↦
            Outcome-mono _ _ _ _
              (λ _ v q. inr (placed_chain (view s) l (position (view s) p.seq_id l), q.0, q.1))
              (λ v q. (placed_chain (view s) l (position (view s) p.seq_id l), q))
              (insert-keeps_order s p l d iface direction on dir there w)
      ]

  found-Outcome :
      (s t : State os) (p : BpfProgram) (o : Option Ref) (l : Chain) (d : Direction)
      (iface direction message : String)
      → direction_of direction ≡ some d
      → named (view s) p.name l ≡ o
      → view t ≡ view s
      → HasNames (view s) l
      → stays_in (view s) p l ≡ true
      → chain_at s.configs d iface ≡ some l
      → IsWellFormed (view s) l
      → Outcome
          (on_option o
            (wrap message (insert_and_start_bpf_program (some p) iface direction))
            (λ e. update_element p e l d iface direction))
          t
          (λ _ v. IsInOrder d iface v)
          (HasChain d iface)
  unfolding on_option
  found-Outcome s t p none l d iface direction message dir found same names st there w =
      wrap-Outcome _ _ t (
        insert_any-Outcome t p l d iface direction dir
          (ap (λ v. chain_at v.configs d iface) same ∙ there)
          (subst (λ v. IsWellFormed v l) (sym same) w))
  found-Outcome s t p (some e) l d iface direction message dir found same names st there w =
      let m = named-mem (view s) p.name l e found in
      update_element-Outcome t p e l d iface direction dir m
        (subst (λ v. NameIsUnique v e l) (sym same) (names-NameIsUnique (view s) e l names m))
        (ap (λ v. stays (v.program e) p) same
          ∙ sym (
              ap
                (λ (o : Option Ref). elim o [ none ↦ true | some e ↦ stays ((view s).program e) p ])
                found)
          ∙ st)
        (ap (λ v. chain_at v.configs d iface) same ∙ there)
        (subst (λ v. IsWellFormed v l) (sym same) w)

  -- VerifyNUpdateBPFProgram on a well-formed chain, whatever the system answers: the entry still holds a
  -- chain; if no error is returned it is well-formed, or the entry is nil. The programs of the
  -- chain have different names, and where the running program is to be restarted with a new version
  -- or new arguments, the new configuration has its sequence ID and its map name.
  pub verify_n_update-keeps_order :
      (s : State os) (p : BpfProgram) (l : Chain) (d : Direction) (iface direction : String)
      → direction_of direction ≡ some d
      → HasNames (view s) l
      → stays_in (view s) p l ≡ true
      → chain_at s.configs d iface ≡ some l
      → IsWellFormed (view s) l
      → Outcome
          (verify_n_update_bpf_program (some p) iface direction)
          s
          (λ _ v. IsInOrder d iface v)
          (HasChain d iface)
  unfolding verify_n_update_bpf_program
  verify_n_update-keeps_order s p l d iface direction dir names st there w = rw dir (
      return-Outcome s d _ (
        get_chain-Outcome s d iface _ (
          rw there (
            return-Outcome s l _ (
              bind-Outcome _ _ _ _ s (find_program-Outcome _ s p.name l)
                (λ o t q.
                  found-Outcome s t p o l d iface direction _ dir (sym q.0) q.1 names st there w)
                (λ v h. h))))))
