-- ===== src/Kf/Deploy/Rooted.antt =====
-- The list of a new chain before its first program: empty, or with its root program.
use l3afd.Prelude.{
  ◌≡◌, refl, sym, ap, ◌∙◌, subst, pos, ◌≤ℤ◌, suc, ◌<◌, Bool, true, false, String, Option, some, [],
  ◌∷◌, ◌⊎◌, inl, inr, ◌==◌, nat_eq, if◌then◌else◌, arith,
}
use l3afd.Models.{BpfProgram, xdp_type, tc_type, ingress_type}
use l3afd.Os.{Os}
use l3afd.Exec.{wrap}
use l3afd.Kf.ElementList.{Ref, Chain, mem, prev, prev_from, push_back, push_front}
use l3afd.Kf.ElementList.Split.{nat_eq_refl}
use l3afd.Kf.State.{Direction, xdp_ingress, ingress, egress, State}
use l3afd.Kf.Access.{direction_of, chain_at, set_chain}
use l3afd.Kf.Quiet.{Keeps, quiet_rules}
use l3afd.Kf.View.{View, view, IsWellFormed, put_chain, alloc_view}
use l3afd.Kf.Outcome.{
  Outcome, bind-Outcome, then-Outcome, wrap-Outcome, return-Outcome, gets-Outcome,
  get_chain-Outcome, pure-Outcome,
}
use l3afd.Kf.RootProgram.Effects.{IsLoaded, load_root_program-Outcome}
use l3afd.Kf.Linking.Effects.{pushed, chain-put}
use l3afd.Kf.Deploy.{
  disable_lro, start_root_at, verify_and_start_xdp_root_program, verify_and_start_tc_root_program,
  verify_and_start_root_program,
}

-- An empty list, or one with a root program of sequence ID 0 in a new struct.
abbrev pub IsRooted : Direction → String → View → Type 0
IsRooted d iface v =
    (chain_at v.configs d iface ≡ some [])
    ⊎ ((r : Ref) × (chain_at v.configs d iface ≡ some (r ∷ []))
        × ((v.program r).seq_id ≡ pos 0)
        × (r < v.next_ref))

module _ ⦃os : Os⦄ where
  start_root_at-Outcome :
      (s : State os) (d : Direction) (iface direction prog_type : String)
      → chain_at s.configs d iface ≡ some []
      → Outcome
          (start_root_at d iface direction prog_type)
          s
          (λ _ v. IsRooted d iface v)
          (λ v. Unit)
  unfolding start_root_at push_front set_chain
  start_root_at-Outcome s d iface direction prog_type there = gets-Outcome s _ _ (
      bind-Outcome _ _ _ _ _
        (wrap-Outcome _ _ s
          (load_root_program-Outcome s iface direction prog_type s.configs.host_config))
        (λ r t q. get_chain-Outcome t d iface _ (
          rw (ap (λ v. chain_at v.configs d iface) q.2 ∙ there) (
            return-Outcome t [] _ (record {
              at = inr (
                r,
                chain-put t.configs d iface (some (r ∷ [])),
                root_seq t r q,
                (subst (λ n. r < n) (sym (ap (λ v. v.next_ref) q.2))
                    (subst (λ x. x < suc s.next_ref) (sym q.3) (omega arith))),
              );
            }))))
        (λ v e. tt))
    where
      root_seq :
          (t : State os) (r : Ref)
          → (q : IsLoaded (view s) r (view t)) → ((view t).program r).seq_id ≡ pos 0
      root_seq t r q =
          ap (λ v. (v.program r).seq_id) q.2
          ∙ ap (λ x. ((alloc_view (view s) q.0).program x).seq_id) q.3
          ∙ ap (λ b. (if b then q.0 else (view s).program s.next_ref).seq_id)
              (nat_eq_refl s.next_ref)
          ∙ q.1

pub pushed-IsWellFormed :
    (v : View) (p : BpfProgram) (d : Direction) (iface : String)
    → IsRooted d iface v
    → pos 0 ≤ℤ p.seq_id
    → (l : Chain) × (chain_at v.configs d iface ≡ some l)
      × (chain_at (pushed v p d iface l).configs d iface ≡ some (push_back l v.next_ref))
      × IsWellFormed (pushed v p d iface l) (push_back l v.next_ref)
unfolding push_back prev prev_from mem
pushed-IsWellFormed v p d iface (inl empty) h =
    let e = v.next_ref in
    let w = put_chain (alloc_view v p) d iface (some (e ∷ [])) in
    (
      [],
      empty,
      rw (nat_eq_refl e) (chain-put v.configs d iface (some (e ∷ []))),
      rw (nat_eq_refl e) (record {
        sorted = (tt, tt);
        linked = (tt, tt);
        distinct = (refl, tt);
        allocated = (omega arith, tt);
      }),
    )
pushed-IsWellFormed v p d iface (inr rooted) h =
    let e = v.next_ref in
    let r = rooted.0 in
    let ahead : nat_eq r e ≡ false = ground (arith, rooted.3) in
    let behind : nat_eq e r ≡ false = ground (arith, rooted.3) in
    (
      r ∷ [],
      rooted.1,
      rw (ahead, nat_eq_refl e) (chain-put v.configs d iface (some (r ∷ e ∷ []))),
      rw (ahead, nat_eq_refl e)
          (record {
            sorted = (tt, (rw (behind, nat_eq_refl e, rooted.2) h, tt));
            linked = (tt, (rw (behind, nat_eq_refl e), tt));
            distinct = (rw behind, (refl, tt));
            allocated = (omega (arith, rooted.3), (omega arith, tt));
          }),
    )

ingress_direction :
    (direction : String)
    → direction_of direction ≡ some ingress
    → (direction == ingress_type) ≡ true
unfolding direction_of
ingress_direction direction p = ground arith

egress_direction :
    (direction : String)
    → direction_of direction ≡ some egress
    → (direction == ingress_type) ≡ false
unfolding direction_of
egress_direction direction p = ground arith

module _ ⦃os : Os⦄ where
  if-Outcome :
      {A : Type 0} {P : A → View → Type 0} {E : View → Type 0} (s : State os) (b : Bool)
      (m n : l3afd.Kf.State.Kf A)
      → Outcome m s P E
      → Outcome n s P E
      → Outcome (if b then m else n) s P E
  if-Outcome s true m n p q = p
  if-Outcome s false m n p q = q

  disable_lro-Keeps : (iface : String) → Keeps (wrap "failed to disable lro" (disable_lro iface))
  unfolding disable_lro
  disable_lro-Keeps iface = search quiet_rules depth 30

  at_view :
      (s t : State os) (d : Direction) (iface : String) (l : Option Chain)
      → view t ≡ view s
      → chain_at s.configs d iface ≡ l
      → chain_at t.configs d iface ≡ l
  at_view s t d iface l q there = ap (λ v. chain_at v.configs d iface) q ∙ there

  xdp_root-Outcome :
      (s : State os) (iface direction : String)
      → chain_at s.configs xdp_ingress iface ≡ some []
      → Outcome
          (verify_and_start_xdp_root_program iface direction)
          s
          (λ _ v. IsRooted xdp_ingress iface v)
          (λ v. Unit)
  unfolding verify_and_start_xdp_root_program
  xdp_root-Outcome s iface direction there = gets-Outcome s _ _ (
      if-Outcome s _ _ _ (pure-Outcome tt s (inl there)) (
        get_chain-Outcome s xdp_ingress iface _ (
          rw there (
            return-Outcome s [] _ (
              then-Outcome _ _ s (disable_lro-Keeps iface)
                (λ _ t q.
                  then-Outcome _ _ t (search quiet_rules)
                    (λ mounted u r.
                      then-Outcome _ _ u (search quiet_rules)
                        (λ _ x y.
                          start_root_at-Outcome x xdp_ingress iface direction xdp_type
                            (at_view s x xdp_ingress iface (some []) (y ∙ r ∙ q) there))
                        tt)
                    tt)
                tt)))))

  tc_root-Outcome :
      (s : State os) (d : Direction) (iface direction : String)
      → (if direction == ingress_type then ingress else egress) ≡ d
      → chain_at s.configs d iface ≡ some []
      → Outcome
          (verify_and_start_tc_root_program iface direction)
          s
          (λ _ v. IsRooted d iface v)
          (λ v. Unit)
  unfolding verify_and_start_tc_root_program
  tc_root-Outcome s d iface direction same there = rw same (
      gets-Outcome s _ _ (
        if-Outcome s _ _ _ (pure-Outcome tt s (inl there)) (
          get_chain-Outcome s d iface _ (
            rw there
              (return-Outcome s [] _ (start_root_at-Outcome s d iface direction tc_type there))))))

  pub root-Outcome :
      (s : State os) (d : Direction) (iface direction : String)
      → direction_of direction ≡ some d
      → chain_at s.configs d iface ≡ some []
      → Outcome
          (verify_and_start_root_program d iface direction)
          s
          (λ _ v. IsRooted d iface v)
          (λ v. Unit)
  unfolding verify_and_start_root_program
  root-Outcome s xdp_ingress iface direction dir there = xdp_root-Outcome s iface direction there
  root-Outcome s ingress iface direction dir there =
      tc_root-Outcome s ingress iface direction (rw (ingress_direction direction dir)) there
  root-Outcome s egress iface direction dir there =
      tc_root-Outcome s egress iface direction (rw (egress_direction direction dir)) there
