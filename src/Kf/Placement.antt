-- ===== src/Kf/Placement.antt =====
-- Where a program stands in its chain: InsertAndStartBPFProgram and MoveToLocation of
-- kf/nfconfig.go. A chain is kept in the order of the sequence IDs.
pub mod Insertion
pub mod Sorted
pub mod Moving
use l3afd.Prelude.{ℤ, ◌&&◌, not, String, Option, none, some, [], ◌∷◌, leb_ℤ, ◌==◌, if◌then◌else◌}
use l3afd.Models.{BpfProgram, disabled}
use l3afd.Os.{Os}
use l3afd.Exec.{on_option, pure, fail, deref, some_or, wrap, ◌>>=◌, ◌>>◌}
use l3afd.Kf.ElementList.{Ref, Chain, next, prev, insert_before, move_before, move_to_back}
use l3afd.Kf.State.{Direction, Kf}
use l3afd.Kf.Access.{direction_of, read, get_chain, set_chain}
use l3afd.Kf.PinnedMaps.{remove_next_prog_fd}
use l3afd.Kf.Linking.{
  link_bpf_programs, download_and_start_bpf_program, alloc_program, push_back_and_start_bpf,
}

module _ ⦃os : Os⦄ where
  -- The loop of InsertAndStartBPFProgram: the first element whose sequence ID is not smaller.
  unfoldable pub find_position : ℤ → Chain → Kf (Option Ref)
  find_position seq_id [] = pure none
  find_position seq_id (e ∷ es) = do
    data_bpf ← read e
    if leb_ℤ seq_id data_bpf.program.seq_id then pure (some e) else find_position seq_id es

  -- `if e.Next() != nil { c.LinkBPFPrograms(e, e.Next()) }`
  unfoldable pub link_next : Ref → Option Ref → String → Kf (Unit {0})
  link_next e none message = pure tt
  link_next e (some after) message = wrap message (link_bpf_programs e after)

  unfoldable pub insert_at :
      BpfProgram → Ref → Option Ref → Chain → Direction → String → String → Kf (Unit {0})
  unfolding link_next
  insert_at bpf_prog bpf none l d iface_name direction =
      wrap "failed to push back and start network function"
        (push_back_and_start_bpf bpf_prog iface_name direction)
  insert_at bpf_prog bpf (some e) l d iface_name direction = do
    let inserted = insert_before l bpf e
    set_chain d iface_name (some inserted)
    wrap "failed to download and start network function"
        (download_and_start_bpf_program bpf d iface_name direction)
    link_next bpf (next inserted bpf) "InsertAndStartBPFProgram - failed LinkBPFPrograms"

  unfoldable pub insert_into :
      BpfProgram → Ref → Direction → String → String → Option Chain → Kf (Unit {0})
  unfolding find_position insert_at
  insert_into bpf_prog bpf d iface_name direction none = pure tt
  insert_into bpf_prog bpf d iface_name direction (some l) = do
    position ← find_position bpf_prog.seq_id l
    insert_at bpf_prog bpf position l d iface_name direction

  unfoldable pub insert_and_start_bpf_program : Option BpfProgram → String → String → Kf (Unit {0})
  unfolding insert_into
  insert_and_start_bpf_program none iface_name direction =
      fail "InsertAndStartBPFProgram - bpf program is nil"
  insert_and_start_bpf_program (some bpf_prog) iface_name direction =
      if bpf_prog.admin_status == disabled then pure tt else do
        bpf ← alloc_program bpf_prog
        d ← some_or (direction_of direction) "unknown direction type"
        bpf_list ← get_chain d iface_name
        insert_into bpf_prog bpf d iface_name direction bpf_list

  -- The loop of MoveToLocation: the first other element whose sequence ID is not smaller.
  unfoldable pub find_move_mark : Ref → Chain → Kf (Option Ref)
  find_move_mark element [] = pure none
  find_move_mark element (e ∷ es) = do
    data_bpf ← read e
    bpf ← read element
    if leb_ℤ bpf.program.seq_id data_bpf.program.seq_id
          && not (data_bpf.program.name == bpf.program.name)
        then pure (some e)
        else find_move_mark element es

  -- Before a move: the neighbours of the element are joined.
  unfoldable pub close_gap : Option Ref → Option Ref → String → Kf (Unit {0})
  close_gap (some before) (some after) message = wrap message (link_bpf_programs before after)
  close_gap _ _ message = pure tt

  unfoldable pub open_gap : Option Ref → Option Ref → Kf (Unit {0})
  unfolding close_gap
  open_gap (some before) none =
      wrap "failed to remove program fd in map" (remove_next_prog_fd before)
  open_gap before after =
      close_gap before after "MoveToLocation - failed LinkBPFPrograms before move"

  unfoldable pub link_prev : Option Ref → Ref → String → Kf (Unit {0})
  link_prev none e message = pure tt
  link_prev (some before) e message = wrap message (link_bpf_programs before e)

  -- After `MoveBefore` the element's predecessor is used without a test.
  unfoldable pub move_in_front : Ref → Ref → Chain → Direction → String → Kf (Unit {0})
  unfolding open_gap link_next
  move_in_front element mark l d iface_name = do
    open_gap (prev l element) (next l element)
    let moved = move_before l element mark
    set_chain d iface_name (some moved)
    before ← deref (prev moved element)
    wrap "MoveToLocation - failed LinkBPFPrograms after move element to with prev prog"
        (link_bpf_programs before element)
    link_next element (next moved element)
        "MoveToLocation - failed LinkBPFPrograms after move element to with next prog"

  unfoldable pub move_behind : Ref → Chain → Direction → String → Kf (Unit {0})
  unfolding close_gap link_prev on_option
  move_behind element l d iface_name = do
    close_gap (prev l element) (next l element)
        "MoveToLocation - failed LinkBPFPrograms before MoveToBack element to with prev prog"
    let moved = move_to_back l element
    set_chain d iface_name (some moved)
    link_prev (prev moved element) element
        "MoveToLocation - failed LinkBPFPrograms after MoveToBack element to with prev prog"
    on_option (next moved element)
        (wrap "failed to remove MoveToBack program fd in map" (remove_next_prog_fd element))
        (λ after. pure tt)

  -- The list is the one that stands at the direction and the interface.
  unfoldable pub move_to_location : Ref → Direction → String → Kf (Unit {0})
  unfolding find_move_mark move_in_front move_behind on_option
  move_to_location element d iface_name = do
    bpf_list ← get_chain d iface_name
    on_option bpf_list (pure tt) λ l. do
      found ← find_move_mark element l
      on_option found (move_behind element l d iface_name)
          (λ mark. move_in_front element mark l d iface_name)
