-- ===== src/Storage/Atomic.antt =====
-- What a save leaves if it is cut off (crates/nxfr-storage/src/resume.rs).
use nxfr.Prelude.{
  ℕ, zero, suc, ◌≤◌, ◌++◌, All, take, append_assoc, append-nil, ◌<◌, List, [], ◌∷◌, Option, none,
  some, Bool, true, false, list_eq, if◌then◌else◌, length, length-append, ok, ◌≡◌, refl, arith, ap,
  ◌∙◌,
}
use nxfr.Storage.Journal.{
  ResumeState, Directory, read_file, write_file, file_name, tmp_name, save, save_ops, FileOp,
  create, append, move, append_found, apply_op, run_ops, write_all, load_content, load,
}
use nxfr.Storage.Files.{read_file-write_tmp, read_file-rename, read_file_written}

-- An operation on the temporary file of a transfer.
data IsOnTmp (id : List ℕ) : FileOp → Type 0 where
  creates : IsOnTmp id (create (tmp_name id))
  appends : (byte : ℕ) → IsOnTmp id (append (tmp_name id) byte)

append_found_read :
    (id j : List ℕ) (found : Option (List ℕ)) (byte : ℕ) (d : Directory)
    → read_file (file_name j) (append_found found (tmp_name id) byte d) ≡ read_file (file_name j) d
append_found_read id j none byte d = refl
append_found_read id j (some content) byte d = read_file-write_tmp id j (content ++ (byte ∷ [])) d

op_read :
    {op : FileOp} (id j : List ℕ) (d : Directory)
    → IsOnTmp id op
    → read_file (file_name j) (apply_op op d) ≡ read_file (file_name j) d
op_read id j d creates = read_file-write_tmp id j [] d
op_read id j d (appends byte) = append_found_read id j (read_file (tmp_name id) d) byte d

run_ops_read :
    (id j : List ℕ) (ops : List FileOp) (d : Directory)
    → All (IsOnTmp id) ops
    → read_file (file_name j) (run_ops ops d) ≡ read_file (file_name j) d
unfolding run_ops
run_ops_read id j [] d h = refl
run_ops_read id j (op ∷ ops) d h = run_ops_read id j ops (apply_op op d) h.1 ∙ op_read id j d h.0

write_all-IsOnTmp : (id bytes : List ℕ) → All (IsOnTmp id) (write_all (tmp_name id) bytes)
write_all-IsOnTmp id [] = tt
write_all-IsOnTmp id (b ∷ bs) = (appends b, write_all-IsOnTmp id bs)

take-IsOnTmp :
    (id : List ℕ) (last : FileOp) (ops : List FileOp) (cut : ℕ)
    → All (IsOnTmp id) ops
    → cut ≤ length ops
    → All (IsOnTmp id) (take cut (ops ++ (last ∷ [])))
take-IsOnTmp id last ops zero h few = tt
take-IsOnTmp id last [] (suc cut) h few = absurd (omega arith)
take-IsOnTmp id last (op ∷ ops) (suc cut) h few =
    (h.0, take-IsOnTmp id last ops cut h.1 (omega arith))

run_ops-append :
    (ops more : List FileOp) (d : Directory)
    → run_ops (ops ++ more) d ≡ run_ops more (run_ops ops d)
unfolding run_ops
run_ops-append [] more d = refl
run_ops-append (op ∷ ops) more d = run_ops-append ops more (apply_op op d)

-- The bytes of a `write_all` are behind what the file had.
write_all_read :
    (name before bytes : List ℕ) (d : Directory)
    → read_file name d ≡ some before
    → read_file name (run_ops (write_all name bytes) d) ≡ some (before ++ bytes)
unfolding run_ops
write_all_read name before [] d h = rw append-nil h
write_all_read name before (b ∷ bs) d h =
    let step : apply_op (append name b) d ≡ write_file name (before ++ (b ∷ [])) d = rw h refl in
    ap (λ (e : Directory). read_file name (run_ops (write_all name bs) e)) step
    ∙ write_all_read name (before ++ (b ∷ [])) bs (write_file name (before ++ (b ∷ [])) d)
        (read_file_written name (before ++ (b ∷ [])) d)
    ∙ ap some (append_assoc before (b ∷ []) bs)

length-on_tmp : (ops : List FileOp) (last : FileOp) → length (ops ++ (last ∷ [])) ≡ suc (length ops)
length-on_tmp ops last = omega (arith, length-append ops (last ∷ []))

module _ (to_vec : ResumeState → List ℕ) (from_str : List ℕ → Option ResumeState)
    (state : ResumeState) (d : Directory) (j : List ℕ) where
  save_read :
      read_file (file_name j) (save to_vec state d)
      ≡ (if list_eq state.transfer_id j then some (to_vec state) else read_file (file_name j) d)
  unfolding save run_ops
  save_read =
      let id = state.transfer_id in
      let empty : Directory = write_file (tmp_name id) [] d in
      let writes = write_all (tmp_name id) (to_vec state) in
      ap (read_file (file_name j))
        (run_ops-append writes (move (tmp_name id) (file_name id) ∷ []) empty)
      ∙ read_file-rename id j (to_vec state) (run_ops writes empty) (
          write_all_read (tmp_name id) [] (to_vec state) empty
            (read_file_written (tmp_name id) [] d))
      ∙ ap (λ (r : Option (List ℕ)). if list_eq id j then some (to_vec state) else r)
          (run_ops_read id j writes empty (write_all-IsOnTmp id (to_vec state))
            ∙ read_file-write_tmp id j [] d)

  load_pick :
      (b : Bool) (content : List ℕ) (found : Option (List ℕ))
      → from_str content ≡ some state
      → load_content from_str (if b then some content else found)
        ≡ (if b then ok (some state) else load_content from_str found)
  load_pick true content found e = rw e refl
  load_pick false content found e = refl

  cut_read :
      (cut : ℕ)
      → cut < length (save_ops to_vec state)
      → read_file (file_name j) (run_ops (take cut (save_ops to_vec state)) d)
        ≡ read_file (file_name j) d
  cut_read cut early =
      let id = state.transfer_id in
      let ops : List FileOp = create (tmp_name id) ∷ write_all (tmp_name id) (to_vec state) in
      let last : FileOp = move (tmp_name id) (file_name id) in
      run_ops_read id j (take cut (ops ++ (last ∷ []))) d (
        take-IsOnTmp id last ops cut (creates, write_all-IsOnTmp id (to_vec state))
          (omega (arith, length-on_tmp ops last)))

  -- If the JSON reader reads back what the writer writes of a state, then a save of the state is seen by
  -- `load` as a whole or not at all: a save is the run of its operations, and if it is cut off after any
  -- number of them but not all, be it after any byte of the file, every transfer has the state that it had;
  -- after the whole save its transfer has the new state, and every other the one that it had.
  pub save_atomic :
      (cut : ℕ)
      → cut < length (save_ops to_vec state)
      → from_str (to_vec state) ≡ some state
      → (save to_vec state d ≡ run_ops (save_ops to_vec state) d)
        × (load from_str j (run_ops (take cut (save_ops to_vec state)) d) ≡ load from_str j d)
        × (load from_str j (save to_vec state d)
            ≡ (if list_eq state.transfer_id j then ok (some state) else load from_str j d))
  unfolding load save
  save_atomic cut early reads = (
    refl,
    ap (load_content from_str) (cut_read cut early),
    ap (load_content from_str) save_read
        ∙ load_pick (list_eq state.transfer_id j) (to_vec state) (read_file (file_name j) d) reads,
  )
