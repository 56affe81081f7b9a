-- ===== src/Storage/Newest.antt =====
-- The history against one that forgets nothing (crates/nxfr-storage/src/history.rs).
use nxfr.Prelude.{
  ℕ, suc, ◌<◌, ◌≤◌, List, [], ◌∷◌, take, length, length-take, ◌≡◌, refl, arith, ap, All, ◌∙◌, ℤ,
}
use nxfr.Storage.Past.{
  TransferHistoryRecord, HistoryDb, max_history_rows, order_by, has_id, prune, new_row, add,
}
use nxfr.Storage.Ordered.{
  Row, IsDistinct, Lacks, All-retain, retain-IsDistinct, order_by_kept, take-insert_ordered,
  length-order_by,
}

-- A call of `add`: the clock's time and the record.
abbrev pub Call : Type 0
Call = ℤ × TransferHistoryRecord

unfoldable pub add_all : List Call → HistoryDb → HistoryDb
add_all [] db = db
add_all ((now, r) ∷ calls) db = add_all calls (add now r db).0

-- The rows of every call, and none is deleted.
unfoldable pub keep_all : List Call → ℕ → List Row → List Row
keep_all [] id rows = rows
keep_all ((now, r) ∷ calls) id rows = keep_all calls (suc id) (new_row now id r ∷ rows)

abbrev pub new_db : HistoryDb
new_db = record { rows = []; next_id = 1 }

abbrev IsBelow : ℕ → List Row → Type 0
IsBelow n = All (λ row. row.id < n)

-- The ids are distinct and used up, and the rows are those that an endless history `ever` has first.
record Follows (db : HistoryDb) (ever : List Row) : Type 0 where
  below : IsBelow db.next_id db.rows
  distinct : IsDistinct db.rows
  newest : order_by db.rows ≡ take max_history_rows (order_by ever)

IsBelow-suc : (n : ℕ) (rows : List Row) → IsBelow n rows → IsBelow (suc n) rows
IsBelow-suc n [] h = tt
IsBelow-suc n (row ∷ rows) h = (omega arith, IsBelow-suc n rows h.1)

below-Lacks : (x : Row) (rows : List Row) → IsBelow x.id rows → Lacks x rows
below-Lacks x [] h = tt
below-Lacks x (row ∷ rows) h = let less = h.0 in (ground arith, below-Lacks x rows h.1)

module _ (x : Row) (rows ever : List Row) (distinct : IsDistinct (x ∷ rows))
    (newest : order_by rows ≡ take max_history_rows (order_by ever)) where
  prune_newest : order_by (prune (x ∷ rows)) ≡ take max_history_rows (order_by (x ∷ ever))
  unfolding prune order_by
  prune_newest =
      order_by_kept max_history_rows (x ∷ rows) distinct
      ∙ rw newest (take-insert_ordered max_history_rows x (order_by ever))

add-Follows :
    (now : ℤ) (r : Row) (db : HistoryDb) (ever : List Row)
    → Follows db ever
    → Follows (add now r db).0 (new_row now db.next_id r ∷ ever)
unfolding add prune new_row
add-Follows now r db ever v =
    let x = new_row now db.next_id r in
    let fresh : Lacks x db.rows = below-Lacks x db.rows v.below in
    let all_below : IsBelow (suc db.next_id) (x ∷ db.rows) =
      (omega arith, IsBelow-suc db.next_id db.rows v.below) in
    record {
      below =
          All-retain _ (has_id (take max_history_rows (order_by (x ∷ db.rows)))) (x ∷ db.rows)
            all_below;
      distinct =
          retain-IsDistinct (has_id (take max_history_rows (order_by (x ∷ db.rows)))) (x ∷ db.rows)
            (fresh, v.distinct);
      newest = prune_newest x db.rows ever (fresh, v.distinct) v.newest;
    }

add_all-Follows :
    (calls : List Call) (db : HistoryDb) (ever : List Row)
    → Follows db ever
    → Follows (add_all calls db) (keep_all calls db.next_id ever)
unfolding add_all keep_all add
add_all-Follows [] db ever v = v
add_all-Follows ((now, r) ∷ calls) db ever v =
    add_all-Follows calls (add now r db).0 (new_row now db.next_id r ∷ ever)
      (add-Follows now r db ever v)

new_db-Follows : Follows new_db []
unfolding order_by
new_db-Follows = record { below = tt; distinct = tt; newest = refl }

-- After any calls of `add` on a new history, the table has at most 200 rows, and they are, in the order
-- of `list`, the first 200 of all the rows ever written: pruning after each call loses no row that a
-- history which is never pruned would show among them.
pub history_newest :
    (calls : List Call)
    → (order_by (add_all calls new_db).rows
        ≡ take max_history_rows (order_by (keep_all calls 1 [])))
      × (length (add_all calls new_db).rows ≤ max_history_rows)
history_newest calls =
    let v = add_all-Follows calls new_db [] new_db-Follows in
    (
      v.newest,
      omega (
        arith,
        length-order_by (add_all calls new_db).rows,
        ap length v.newest,
        length-take max_history_rows (order_by (keep_all calls 1 [])),
      ),
    )
