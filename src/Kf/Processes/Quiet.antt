-- ===== src/Kf/Processes/Quiet.antt =====
-- The operations on user processes are quiet.
use l3afd.Prelude.{String, ℤ, ℕ, zero, suc, List, [], ◌∷◌, Map}
use l3afd.Models.{Value, str, other}
use l3afd.Os.{Os, Process}
use l3afd.Kf.ElementList.{Ref}
use l3afd.Kf.Quiet.{Keeps, quiet_rules}
use l3afd.Kf.Processes.{
  stop_matching, stop_external_running_process, assert_executable, flags, is_process_running,
  await_process, verify_process_object, is_running, process_terminate, set_limit, set_pr_limits,
}

module _ ⦃os : Os⦄ where
  stop_matching-Keeps :
      (name : String) (pid : ℕ) (ps : List Process) → Keeps (stop_matching name pid ps)
  unfolding stop_matching
  stop_matching-Keeps name pid [] = search quiet_rules
  stop_matching-Keeps name pid (p ∷ ps) =
      search (quiet_rules, λ (k : String). stop_matching-Keeps k pid ps) depth 30

  pub stop_external_running_process-Keeps :
      (name : String) → Keeps (stop_external_running_process name)
  unfolding stop_external_running_process
  stop_external_running_process-Keeps name = search (quiet_rules, stop_matching-Keeps) depth 30

  pub assert_executable-Keeps : (path : String) → Keeps (assert_executable path)
  unfolding assert_executable
  assert_executable-Keeps path = search quiet_rules depth 30

  pub flags-Keeps : (e : String) (m : Map Value) → Keeps (flags e m)
  unfolding flags
  flags-Keeps e [] = search quiet_rules
  flags-Keeps e ((k, other v) ∷ m) = search quiet_rules
  flags-Keeps e ((k, str v) ∷ m) = search (quiet_rules, λ (k' : String). flags-Keeps k' m) depth 30

  is_process_running-Keeps : (pid : ℕ) → Keeps (is_process_running pid)
  unfolding is_process_running
  is_process_running-Keeps pid = search quiet_rules depth 30

  await_process-Keeps : (n : ℕ) (b : Ref) → Keeps (await_process n b)
  unfolding await_process
  await_process-Keeps zero b = search quiet_rules
  await_process-Keeps (suc n) b =
      search (quiet_rules, λ (r : Ref). await_process-Keeps n r) depth 30

  verify_process_object-Keeps : (b : Ref) → Keeps (verify_process_object b)
  unfolding verify_process_object
  verify_process_object-Keeps b = search (quiet_rules, await_process-Keeps) depth 30

  pub is_running-Keeps : (b : Ref) → Keeps (is_running b)
  unfolding is_running
  is_running-Keeps b =
      search
        (
          quiet_rules, assert_executable-Keeps, flags-Keeps, is_process_running-Keeps,
          verify_process_object-Keeps,
        )
        depth 40

  pub process_terminate-Keeps : (b : Ref) → Keeps (process_terminate b)
  unfolding process_terminate
  process_terminate-Keeps b = search quiet_rules depth 30

  set_limit-Keeps : (b : Ref) (resource : ℕ) (limit : ℤ) → Keeps (set_limit b resource limit)
  unfolding set_limit
  set_limit-Keeps b resource limit = search quiet_rules depth 30

  pub set_pr_limits-Keeps : (b : Ref) → Keeps (set_pr_limits b)
  unfolding set_pr_limits
  set_pr_limits-Keeps b = search (quiet_rules, set_limit-Keeps) depth 30

pub ruleset process_rules = (
  stop_external_running_process-Keeps, assert_executable-Keeps, flags-Keeps, is_running-Keeps,
  process_terminate-Keeps, set_pr_limits-Keeps,
)
