-- ===== src/Storage/Past.antt =====
-- crates/nxfr-storage/src/history.rs: the history of transfers. The table is the list of its rows, the
-- newest id first; SQLite gives a new row an id above every earlier one (`AUTOINCREMENT`). The clock is
-- an argument, and a list of paths stands for its JSON text. A statement that SQLite refuses ends the
-- call with its error.
use nxfr.Prelude.{
  ℕ, suc, String, List, [], ◌∷◌, Bool, ◌&&◌, ◌||◌, ◌==◌, leb, if◌then◌else◌, any, take, ℤ, pos,
  ltb_ℤ, leb_ℤ,
}

abbrev pub max_history_rows : ℕ
max_history_rows = 200

pub record TransferHistoryRecord : Type 0 where
  pub id : ℕ
  pub ts_ms : ℤ
  pub direction : String
  pub peer_name : String
  pub peer_id : String
  pub file_count : ℕ
  pub total_bytes : ℕ
  pub status : String
  pub file_paths : List String

-- The rows, and the id that the next row gets.
pub record HistoryDb : Type 0 where
  pub rows : List TransferHistoryRecord
  pub next_id : ℕ

-- `ts_ms DESC, id DESC`: `a` comes no later than `b`.
unfoldable pub comes_first : TransferHistoryRecord → TransferHistoryRecord → Bool
comes_first a b =
    ltb_ℤ b.ts_ms a.ts_ms || (leb_ℤ a.ts_ms b.ts_ms && leb_ℤ b.ts_ms a.ts_ms && leb b.id a.id)

unfoldable pub insert_ordered :
    TransferHistoryRecord → List TransferHistoryRecord → List TransferHistoryRecord
insert_ordered row [] = row ∷ []
insert_ordered row (r ∷ rs) =
    let later = insert_ordered row rs in if comes_first row r then row ∷ r ∷ rs else r ∷ later

-- `ORDER BY ts_ms DESC, id DESC`
unfoldable pub order_by : List TransferHistoryRecord → List TransferHistoryRecord
unfolding insert_ordered
order_by [] = []
order_by (row ∷ rows) = insert_ordered row (order_by rows)

abbrev pub has_id : List TransferHistoryRecord → TransferHistoryRecord → Bool
has_id kept row = any (λ k. k.id == row.id) kept

unfoldable pub retain :
    (TransferHistoryRecord → Bool) → List TransferHistoryRecord → List TransferHistoryRecord
retain p [] = []
retain p (row ∷ rows) = let rest = retain p rows in if p row then row ∷ rest else rest

-- `DELETE … WHERE id NOT IN (SELECT id … LIMIT 200)`
unfoldable pub prune : List TransferHistoryRecord → List TransferHistoryRecord
unfolding retain order_by
prune rows = retain (has_id (take max_history_rows (order_by rows))) rows

-- The row that is written: a time that is not positive is replaced by the clock's.
unfoldable pub new_row : ℤ → ℕ → TransferHistoryRecord → TransferHistoryRecord
new_row now id r = record {
  id = id;
  ts_ms = if ltb_ℤ (pos 0) r.ts_ms then r.ts_ms else now;
  direction = r.direction;
  peer_name = r.peer_name;
  peer_id = r.peer_id;
  file_count = r.file_count;
  total_bytes = r.total_bytes;
  status = r.status;
  file_paths = r.file_paths;
}

unfoldable pub add : ℤ → TransferHistoryRecord → HistoryDb → HistoryDb × ℕ
unfolding prune new_row
add now r db = (
  record { rows = prune (new_row now db.next_id r ∷ db.rows); next_id = suc db.next_id },
  db.next_id,
)

unfoldable pub list : ℕ → HistoryDb → List TransferHistoryRecord
unfolding order_by
list limit db = take (if limit == 0 then max_history_rows else limit) (order_by db.rows)

-- The ids go on: the sequence of an `AUTOINCREMENT` table is not reset.
abbrev pub clear : HistoryDb → HistoryDb
clear db = record { rows = []; next_id = db.next_id }
