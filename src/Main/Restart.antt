-- ===== src/Main/Restart.antt =====
-- What a restarted daemon finds in its store.
use l3afd.Prelude.{◌≡◌, ◌≢◌, refl, sym, subst, ◌∙◌, ap, String, Option, some, List, [], ◌∷◌, Map}
use l3afd.Models.{L3afBpfPrograms}
use l3afd.Config.{Config}
use l3afd.Os.{Os, Stat, is_file, is_dir, not_exist, stat_error}
use l3afd.Files.{FileSystem}
use l3afd.Sys.{ask}
use l3afd.Exec.{Result, ok, err, pure, fail, gets, try, wrap, ◌>>=◌}
use l3afd.Exec.After.{
  always-Ensures, both-Ensures, gets-Ensures, some_or-Ensures, check-Ensures, mono-Ensures, Ensures,
  Ensures-ok, bind-Ensures, wrap-Ensures, self-Ensures,
}
use l3afd.Kf.State.{State}
use l3afd.Kf.Access.{call}
use l3afd.Kf.View.{view, view-Quiet}
use l3afd.Kf.Report.{ebpf_programs}
use l3afd.Kf.Report.Exact.{shown, ebpf_programs-exact}
use l3afd.Kf.Configs.{
  Choice, or_nil, programs_of_each, save_configs_to_config_store, deploye_bpf_programs,
}
use l3afd.Kf.Configs.Interfaces.{remove_missing-ifaces}
use l3afd.Kf.Configs.Tracked.{last_iface, deploy_each-Ensures, save-Keeps}
use l3afd.Main.{read_store, read_if, read_configs_from_config_store}

module _ ⦃os : Os⦄ (fs : FileSystem os) where
  store-read :
      (name body : String) (w : os.World)
      → fs.Holds w name body
      → (all : Option (List L3afBpfPrograms)) → os.unmarshal body ≡ some all
      → (read_store name w).0 ≡ ok all
  unfolding read_store ask ◌>>=◌ pure
  store-read name body w h all decoded = rw (
    fs.opens name body w h,
    fs.read name body (os.open_file name w).1 (fs.open_keeps name body name w h),
    decoded,
  )

  found-read :
      (name : String) (o : Stat) (w : os.World) (r : Result (Option (List L3afBpfPrograms)))
      → o ≢ not_exist
      → (read_store name w).0 ≡ r
      → (read_if o name w).0 ≡ r
  unfolding read_if
  found-read name not_exist w r h e = absurd (h refl)
  found-read name (is_file x) w r h e = e
  found-read name (is_dir x) w r h e = e
  found-read name stat_error w r h e = e

  pub configs-read :
      (conf : Config) (body : String) (w : os.World) (all : Option (List L3afBpfPrograms))
      → fs.Holds w conf.l3af_config_store_file_name body
      → os.unmarshal body ≡ some all
      → (read_configs_from_config_store conf w).0 ≡ ok all
  unfolding read_configs_from_config_store ask ◌>>=◌
  configs-read conf body w all h decoded =
      let name = conf.l3af_config_store_file_name in
      found-read name (os.stat name w).0 (os.stat name w).1 (ok all) (fs.found name body w h)
        (store-read name body (os.stat name w).1 (fs.stat_keeps name body name w h) all decoded)

  -- The store holds what was reported of each interface.
  abbrev IsStored : State os → Map String → State os → Type 0
  IsStored s m t =
      (all : List L3afBpfPrograms) × (body : String) × ((programs_of_each m s).0 ≡ ok all)
      × (os.marshal " " (or_nil all) ≡ some body)
      × fs.Holds t.world s.configs.host_config.l3af_config_store_file_name body

  save-IsStored :
      (s : State os) → Ensures save_configs_to_config_store s (λ _ t. IsStored s s.configs.ifaces t)
  unfolding save_configs_to_config_store call
  save-IsStored s =
      let c = s.configs in
      let name = c.host_config.l3af_config_store_file_name in
      gets-Ensures _ _ _ s (
        bind-Ensures _ _ _ _ s (self-Ensures (programs_of_each c.ifaces) s) (λ all u read.
          bind-Ensures _ _ _ _ u
            (some_or-Ensures (os.marshal " " (or_nil all)) "failed to marshal configs" u)
            (λ file v made.
              bind-Ensures _
                (λ b t.
                  (b ≡ (os.write_file name file v.world).0)
                  × (t.world ≡ (os.write_file name file v.world).1))
                _ _ v (record { at = (refl, refl) })
                (λ b t written.
                  mono-Ensures _ _ _ t (check-Ensures b "failed to save configs" t) (λ _ x passed. (
                    all,
                    file,
                    read.0,
                    made.0,
                    subst (λ w. fs.Holds w name file)
                        (sym written.1 ∙ ap (λ (y : State os). y.world) passed.1)
                        (fs.written name file v.world (sym written.0 ∙ passed.0)),
                  ))))))

  one-report :
      (u : State os) (q : String) (r : L3afBpfPrograms) (all : List L3afBpfPrograms)
      → shown (view u) q ≡ ok r
      → (programs_of_each ((q, q) ∷ []) u).0 ≡ ok all
      → all ≡ r ∷ []
  unfolding programs_of_each ◌>>=◌ pure
  one-report u q r all e h =
      let exact : ebpf_programs q u ≡ (ok r, u) = ebpf_programs-exact u q ∙ ap (λ x. (x, u)) e in
      let done : ◌≡◌ {A = Result (List L3afBpfPrograms)} (ok (r ∷ [])) (ok all) =
        subst
          (λ (p : Result L3afBpfPrograms × State os).
            (l3afd.Exec.continue p.0 (λ programs. pure [] >>= λ rest. pure (programs ∷ rest)) p.1).0
            ≡ ok all)
          exact h in
      cc

  -- The file of the store holds the report of the interface `q` alone.
  abbrev StoresOnly : String → State os → Type 0
  StoresOnly q t =
      (r : L3afBpfPrograms)
      → shown (view t) q ≡ ok r
      → (body : String) × (os.marshal " " (some (r ∷ [])) ≡ some body)
        × fs.Holds t.world t.configs.host_config.l3af_config_store_file_name body

  saved-StoresOnly :
      (q : String) (u : State os)
      → u.configs.ifaces ≡ (q, q) ∷ []
      → Ensures save_configs_to_config_store u (λ _ t. StoresOnly q t)
  saved-StoresOnly q u tracked =
      mono-Ensures _ _ _ u
        (both-Ensures save_configs_to_config_store u (λ t. view t ≡ view u)
          (view-Quiet u _ (save-Keeps.at u)) (save-IsStored u))
        (λ _ t p r e.
          let (all, body, reported, marshalled, held) = p.1 in
          let one =
            one-report u q r all (ap (λ v. shown v q) (sym p.0) ∙ e)
              (ap (λ m. (programs_of_each m u).0) (sym tracked) ∙ reported) in
          (
            body,
            ap (λ l. os.marshal " " (or_nil l)) (sym one) ∙ marshalled,
            subst (λ v. fs.Holds t.world v.configs.host_config.l3af_config_store_file_name body)
                (sym p.0) held,
          ))

  deploye-StoresOnly :
      (choices : List Choice) (p : L3afBpfPrograms) (ps : List L3afBpfPrograms) (s : State os)
      → Ensures (deploye_bpf_programs choices (p ∷ ps)) s (λ _ t. StoresOnly (last_iface p ps) t)
  unfolding deploye_bpf_programs
  deploye-StoresOnly choices p ps s =
      let q = last_iface p ps in
      bind-Ensures _ _ _ _ s (deploy_each-Ensures p ps s) (λ _ t tracked.
        bind-Ensures _ (λ _ u. u.configs.ifaces ≡ (q, q) ∷ []) _ _ t
          (always-Ensures _ t (λ u. u.configs.ifaces ≡ (q, q) ∷ [])
            (remove_missing-ifaces choices p ps t tracked))
          (λ _ u kept. wrap-Ensures _ _ u _ (saved-StoresOnly q u kept)))

  -- After a deployment that returns no error, a daemon that starts again reads from the store exactly
  -- what is reported of the last interface of the payload, provided that JSON gives that
  -- report back and the file system keeps what it is given.
  pub restart-restores :
      (s t : State os) (choices : List Choice) (p : L3afBpfPrograms) (ps : List L3afBpfPrograms)
      (r : L3afBpfPrograms)
      → deploye_bpf_programs choices (p ∷ ps) s ≡ (ok tt, t)
      → (ebpf_programs (last_iface p ps) t).0 ≡ ok r
      → ((body : String)
          → os.marshal " " (some (r ∷ [])) ≡ some body
          → os.unmarshal body ≡ some (some (r ∷ [])))
      → (read_configs_from_config_store t.configs.host_config t.world).0 ≡ ok (some (r ∷ []))
  restart-restores s t choices p ps r done reported decodes =
      let q = last_iface p ps in
      let (body, marshalled, held) =
        Ensures-ok _ s t tt _ (deploye-StoresOnly choices p ps s) done r (
          ap (λ (x : Result L3afBpfPrograms × State os). x.0) (sym (ebpf_programs-exact t q))
          ∙ reported) in
      configs-read t.configs.host_config body t.world (some (r ∷ [])) held (decodes body marshalled)
