-- ===== src/Storage/Journal.antt =====
-- crates/nxfr-storage/src/resume.rs: the journal of transfers that can be resumed, one file for each in a
-- directory. The directory is the list of its files; a transfer id is the text in hexadecimal that the
-- callers make. The JSON writer and reader (`to_vec`, `from_str`) and the clock are arguments. An error of
-- the file system ends a call where it occurs.
use nxfr.Prelude.{
  ℕ, suc, ◌-◌, String, codes, List, [], ◌∷◌, ◌++◌, map, Option, none, some, Bool, false, ◌&&◌, ltb,
  list_eq, if◌then◌else◌, length, take, drop, ℤ, ltb_ℤ, Result, ok, err,
}

pub record ResumeManifestEntry : Type 0 where
  pub file_id : ℕ
  pub relative_path : String
  pub size : ℕ
  pub sha256 : List ℕ

pub record ResumeFileState : Type 0 where
  pub received_bytes : ℕ
  pub received_ranges : List (ℕ × ℕ)
  pub partial_sha256 : Option String
  pub dest_path : List ℕ

pub record ResumeState : Type 0 where
  pub transfer_id : List ℕ
  pub peer_device_id : List ℕ
  pub display_name : String
  pub manifest : List ResumeManifestEntry
  pub files : List (ℕ × ResumeFileState)
  pub created_at : ℤ
  pub expires_at : ℤ
  pub version : ℕ

pub data ResumeError : Type 0 where
  json : ResumeError

abbrev pub Directory : Type 0
Directory = List (List ℕ × List ℕ)

unfoldable pub read_file : List ℕ → Directory → Option (List ℕ)
read_file name [] = none
read_file name ((n, content) ∷ d) = if list_eq n name then some content else read_file name d

unfoldable pub remove_file : List ℕ → Directory → Directory
remove_file name [] = []
remove_file name ((n, content) ∷ d) =
    let rest = remove_file name d in if list_eq n name then rest else (n, content) ∷ rest

-- `File::create` and `write_all`: an old file of the name is replaced.
unfoldable pub write_file : List ℕ → List ℕ → Directory → Directory
unfolding remove_file
write_file name content d = (name, content) ∷ remove_file name d

abbrev pub move_found : Option (List ℕ) → List ℕ → List ℕ → Directory → Directory
move_found none old name d = d
move_found (some content) old name d = write_file name content (remove_file old d)

-- A file of the new name is replaced.
abbrev pub rename : List ℕ → List ℕ → Directory → Directory
rename old name d = move_found (read_file old d) old name d

abbrev pub file_name : List ℕ → List ℕ
file_name id = id ++ codes ".json"

-- `set_extension("json.tmp")`
abbrev pub tmp_name : List ℕ → List ℕ
tmp_name id = id ++ codes ".json.tmp"

-- What is done to the directory, one after the other: `write_all` appends byte by byte, and `sync_all`
-- changes nothing that a reader sees.
pub data FileOp : Type 0 where
  create : List ℕ → FileOp
  append : List ℕ → ℕ → FileOp
  move : (old name : List ℕ) → FileOp

abbrev pub append_found : Option (List ℕ) → List ℕ → ℕ → Directory → Directory
append_found none name byte d = d
append_found (some content) name byte d = write_file name (content ++ (byte ∷ [])) d

abbrev pub apply_op : FileOp → Directory → Directory
apply_op (create name) d = write_file name [] d
apply_op (append name byte) d = append_found (read_file name d) name byte d
apply_op (move old name) d = rename old name d

unfoldable pub run_ops : List FileOp → Directory → Directory
run_ops [] d = d
run_ops (op ∷ ops) d = run_ops ops (apply_op op d)

abbrev pub write_all : List ℕ → List ℕ → List FileOp
write_all name bytes = map (append name) bytes

module _ (to_vec : ResumeState → List ℕ) where
  abbrev pub save_ops : ResumeState → List FileOp
  save_ops state =
      create (tmp_name state.transfer_id)
      ∷ (write_all (tmp_name state.transfer_id) (to_vec state)
          ++ (move (tmp_name state.transfer_id) (file_name state.transfer_id) ∷ []))

  unfoldable pub save : ResumeState → Directory → Directory
  unfolding run_ops
  save state d = run_ops (save_ops state) d

unfoldable pub delete : List ℕ → Directory → Directory
delete id d = remove_file (file_name id) d

-- The stem of a file name with the extension `json`; `.json` alone has none.
unfoldable pub active_id : List ℕ → Option (List ℕ)
active_id name =
    if ltb 5 (length name) && list_eq (drop (length name - 5) name) (codes ".json")
    then some (take (length name - 5) name)
    else none

abbrev pub push_some : Option (List ℕ) → List (List ℕ) → List (List ℕ)
push_some none ids = ids
push_some (some id) ids = id ∷ ids

unfoldable pub list_active : Directory → List (List ℕ)
unfolding active_id
list_active [] = []
list_active ((name, content) ∷ d) = push_some (active_id name) (list_active d)

module _ (from_str : List ℕ → Option ResumeState) where
  abbrev pub parsed : Option ResumeState → Result ResumeError (Option ResumeState)
  parsed none = err json
  parsed (some state) = ok (some state)

  abbrev pub load_content : Option (List ℕ) → Result ResumeError (Option ResumeState)
  load_content none = ok none
  load_content (some content) = parsed (from_str content)

  unfoldable pub load : List ℕ → Directory → Result ResumeError (Option ResumeState)
  load id d = load_content (read_file (file_name id) d)

  -- `if let Ok(Some(state))`, and its time is over.
  abbrev pub is_expired : ℤ → Result ResumeError (Option ResumeState) → Bool
  is_expired now (ok (some state)) = ltb_ℤ state.expires_at now
  is_expired now _ = false

  unfoldable pub gc_loop : ℤ → List (List ℕ) → ℕ → Directory → Directory × ℕ
  gc_loop now [] count d = (d, count)
  gc_loop now (id ∷ ids) count d =
      let dead = is_expired now (load id d) in
      gc_loop now ids (if dead then suc count else count) (if dead then delete id d else d)

  unfoldable pub gc_expired : ℤ → Directory → Directory × ℕ
  gc_expired now d = gc_loop now (list_active d) 0 d
