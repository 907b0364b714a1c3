-- ===== src/Apis/Answers.antt =====
-- What a client of the API learns.
use l3afd.Prelude.{◌≡◌, refl, ap, sym, ◌∙◌, Bool, String, some, List, [], ◌∷◌, if◌then◌else◌, arith}
use l3afd.Models.{L3afBpfPrograms}
use l3afd.Os.{Os}
use l3afd.Exec.{Result, ok, err, panic, blocked, pure, try, on_option, ◌>>=◌, continue, succeeded}
use l3afd.Kf.State.{State, Kf}
use l3afd.Kf.Report.{ebpf_programs, ebpf_programs_all}
use l3afd.Kf.Report.Exact.{ebpf_programs-exact}
use l3afd.Kf.Configs.{Choice, deploye_bpf_programs}
use l3afd.Kf.Configs.Tracked.{last_iface}
use l3afd.Kf.Configs.Interfaces.{deploye-reports_last}
use l3afd.Apis.{
  Response, respond, status_ok, internal_server_error, marshalled, get_config_all, deploy_payload,
  update_config,
}

abbrev answer : Bool → Response
answer deployed =
    if deployed
    then respond status_ok ""
    else respond internal_server_error "failed to deploy ebpf programs"

module _ ⦃os : Os⦄ where
  answered :
      (r : Result (Unit {0})) (u t : State os)
      → continue (succeeded r) (λ deployed. pure (answer deployed)) u
        ≡ (ok (respond status_ok ""), t)
      → (r ≡ ok tt) × (u ≡ t)
  unfolding pure
  answered (ok tt) u t h = (refl, ap (λ (p : Result Response × State os). p.1) h)
  answered (err e) u t h = absurd (ground (arith, h))
  answered panic u t h = absurd (ground (arith, h))
  answered blocked u t h = absurd (ground (arith, h))

  deployed-answer :
      (s t : State os) (choices : List Choice) (ps : List L3afBpfPrograms)
      → deploy_payload choices (some ps) s ≡ (ok (respond status_ok ""), t)
      → deploye_bpf_programs choices ps s ≡ (ok tt, t)
  unfolding deploy_payload try ◌>>=◌
  deployed-answer s t choices ps h =
      let parts =
        answered (deploye_bpf_programs choices ps s).0 (deploye_bpf_programs choices ps s).1 t h in
      λ i. (parts.0 i, parts.1 i)

  update_config-payload :
      (choices : List Choice) (body : String) (ps : List L3afBpfPrograms)
      → os.unmarshal body ≡ some (some ps)
      → update_config choices (some body) ≡ deploy_payload choices (some ps)
  unfolding update_config on_option
  update_config-payload choices body ps decoded = rw decoded

  get_all-exact :
      (t : State os) (all : List L3afBpfPrograms)
      → ebpf_programs_all t ≡ (ok all, t)
      → get_config_all t ≡ (ok (marshalled (os.marshal "  " (some all))), t)
  unfolding get_config_all ◌>>=◌ pure
  get_all-exact t all h =
      ap
        (λ (p : Result (List L3afBpfPrograms) × State os).
          continue p.0 (λ all. pure (marshalled (os.marshal "  " (some all)))) p.1)
        h

  one-exact :
      (t : State os) (q : String) (r : L3afBpfPrograms)
      → (ebpf_programs q t).0 ≡ ok r
      → (ebpf_programs q >>= λ programs. pure (programs ∷ [])) t ≡ (ok (r ∷ []), t)
  unfolding ◌>>=◌ pure
  one-exact t q r h =
      let exact = ebpf_programs-exact t q in
      let returned = sym (ap (λ (p : Result L3afBpfPrograms × State os). p.0) exact) ∙ h in
      ap
        (λ (p : Result L3afBpfPrograms × State os).
          continue p.0 (λ programs. pure (programs ∷ [])) p.1)
        (exact ∙ λ i. (returned i, t))

  -- Where an update is answered with status 200, a request for all configurations is then answered with
  -- the programs of the last interface of the update and of no other.
  pub update_config-get_config_all :
      (s t : State os) (choices : List Choice) (body : String) (p : L3afBpfPrograms)
      (ps : List L3afBpfPrograms) (r : L3afBpfPrograms)
      → os.unmarshal body ≡ some (some (p ∷ ps))
      → update_config choices (some body) s ≡ (ok (respond status_ok ""), t)
      → (ebpf_programs (last_iface p ps) t).0 ≡ ok r
      → get_config_all t ≡ (ok (marshalled (os.marshal "  " (some (r ∷ [])))), t)
  update_config-get_config_all s t choices body p ps r decoded done reported =
      let deployed = deployed-answer s t choices (p ∷ ps) (
        ap (λ (m : Kf Response). m s) (sym (update_config-payload choices body (p ∷ ps) decoded))
        ∙ done) in
      get_all-exact t (r ∷ [])
        (deploye-reports_last s t choices p ps deployed ∙ one-exact t (last_iface p ps) r reported)
