-- ===== src/Storage/Ordered.antt =====
-- The order of the history's rows, and what selecting among ordered rows leaves
-- (crates/nxfr-storage/src/history.rs).
use nxfr.Prelude.{
  ℕ, zero, suc, List, [], ◌∷◌, Bool, true, false, ◌==◌, if◌then◌else◌, take, length, ◌≡◌, refl,
  arith, ap, All, Bool-cases, inl, inr, ==_refl, ◌∙◌,
}
use nxfr.Storage.Past.{TransferHistoryRecord, comes_first, insert_ordered, order_by, has_id, retain}

abbrev pub Row : Type 0
Row = TransferHistoryRecord

comes_first_total : (a b : Row) → comes_first a b ≡ false → comes_first b a ≡ true
unfolding comes_first
comes_first_total a b h = ground arith

comes_first_trans :
    (a b c : Row) → comes_first a b ≡ true → comes_first b c ≡ true → comes_first a c ≡ true
unfolding comes_first
comes_first_trans a b c h k = ground arith

abbrev Leads : Row → List Row → Type 0
Leads x = All (λ y. comes_first x y ≡ true)

abbrev pub IsOrdered : List Row → Type 0
IsOrdered [] = Unit {0}
IsOrdered (x ∷ xs) = Leads x xs × IsOrdered xs

Leads-trans : (x y : Row) (ys : List Row) → comes_first x y ≡ true → Leads y ys → Leads x ys
Leads-trans x y [] h k = tt
Leads-trans x y (z ∷ zs) h k = (comes_first_trans x y z h k.0, Leads-trans x y zs h k.1)

module _ {ℓ} (P : Row → Type ℓ) where
  pub All-insert_ordered : (x : Row) (ys : List Row) → P x → All P ys → All P (insert_ordered x ys)
  unfolding insert_ordered
  All-insert_ordered x [] h k = (h, tt)
  All-insert_ordered x (y ∷ ys) h k = elim (Bool-cases (comes_first x y)) [
    | inl e ↦ rw e (h, k)
    | inr e ↦ rw e (k.0, All-insert_ordered x ys h k.1)
  ]

  pub All-order_by : (xs : List Row) → All P xs → All P (order_by xs)
  unfolding order_by
  All-order_by [] h = tt
  All-order_by (x ∷ xs) h = All-insert_ordered x (order_by xs) h.0 (All-order_by xs h.1)

  pub All-retain : (p : Row → Bool) (xs : List Row) → All P xs → All P (retain p xs)
  unfolding retain
  All-retain p [] h = tt
  All-retain p (x ∷ xs) h = elim (Bool-cases (p x)) [
    | inl e ↦ rw e (h.0, All-retain p xs h.1)
    | inr e ↦ rw e (All-retain p xs h.1)
  ]

insert_ordered-IsOrdered :
    (x : Row) (ys : List Row) → IsOrdered ys → IsOrdered (insert_ordered x ys)
unfolding insert_ordered
insert_ordered-IsOrdered x [] h = (tt, tt)
insert_ordered-IsOrdered x (y ∷ ys) h = elim (Bool-cases (comes_first x y)) [
  | inl e ↦ rw e ((e, Leads-trans x y ys e h.0), h)
  | inr e ↦
      rw e
        (All-insert_ordered _ x ys (comes_first_total x y e) h.0, insert_ordered-IsOrdered x ys h.1)
]

pub order_by-IsOrdered : (xs : List Row) → IsOrdered (order_by xs)
unfolding order_by
order_by-IsOrdered [] = tt
order_by-IsOrdered (x ∷ xs) = insert_ordered-IsOrdered x (order_by xs) (order_by-IsOrdered xs)

insert_ordered_head : (x : Row) (ys : List Row) → Leads x ys → insert_ordered x ys ≡ x ∷ ys
unfolding insert_ordered
insert_ordered_head x [] h = refl
insert_ordered_head x (y ∷ ys) h = rw h.0 refl

-- To select after an insertion is to insert what is selected.
retain-insert_ordered :
    (p : Row → Bool) (x : Row) (ys : List Row)
    → IsOrdered ys
    → retain p (insert_ordered x ys) ≡ (if p x then insert_ordered x (retain p ys) else retain p ys)
unfolding retain insert_ordered
retain-insert_ordered p x [] h = refl
retain-insert_ordered p x (y ∷ ys) h = elim (Bool-cases (comes_first x y)) [
  | inl e ↦
      let leads : Leads x (retain p (y ∷ ys)) =
        All-retain _ p (y ∷ ys) (e, Leads-trans x y ys e h.0) in
      let head : insert_ordered x (retain p (y ∷ ys)) ≡ x ∷ retain p (y ∷ ys) =
        insert_ordered_head x (retain p (y ∷ ys)) leads in
      rw (e, head) refl
  | inr e ↦ ground (arith, retain-insert_ordered p x ys h.1)
]

pub order_by-retain :
    (p : Row → Bool) (xs : List Row) → order_by (retain p xs) ≡ retain p (order_by xs)
unfolding retain order_by
order_by-retain p [] = refl
order_by-retain p (x ∷ xs) =
    ground
      (arith, retain-insert_ordered p x (order_by xs) (order_by-IsOrdered xs), order_by-retain p xs)

take_shorter : (n : ℕ) (ys : List Row) → take n (take (suc n) ys) ≡ take n ys
take_shorter zero ys = refl
take_shorter (suc n) [] = refl
take_shorter (suc n) (y ∷ ys) = ap (λ zs. y ∷ zs) (take_shorter n ys)

take_cons : (n : ℕ) (y : Row) (ys : List Row) → take n (y ∷ take n ys) ≡ take n (y ∷ ys)
take_cons zero y ys = refl
take_cons (suc n) y ys = ap (λ zs. y ∷ zs) (take_shorter n ys)

-- Only the first `n` rows matter for the first `n` after an insertion.
pub take-insert_ordered :
    (n : ℕ) (x : Row) (ys : List Row)
    → take n (insert_ordered x (take n ys)) ≡ take n (insert_ordered x ys)
unfolding insert_ordered
take-insert_ordered zero x ys = refl
take-insert_ordered (suc n) x [] = refl
take-insert_ordered (suc n) x (y ∷ ys) = elim (Bool-cases (comes_first x y)) [
  | inl e ↦ rw e (ap (λ zs. x ∷ zs) (take_cons n y ys))
  | inr e ↦ rw e (ap (λ zs. y ∷ zs) (take-insert_ordered n x ys))
]

length-insert_ordered : (x : Row) (ys : List Row) → length (insert_ordered x ys) ≡ suc (length ys)
unfolding insert_ordered
length-insert_ordered x [] = refl
length-insert_ordered x (y ∷ ys) = ground (arith, length-insert_ordered x ys)

pub length-order_by : (xs : List Row) → length (order_by xs) ≡ length xs
unfolding order_by
length-order_by [] = refl
length-order_by (x ∷ xs) = ground (arith, length-insert_ordered x (order_by xs), length-order_by xs)

-- No row has the id of `x`.
abbrev pub Lacks : Row → List Row → Type 0
Lacks x = All (λ y. (x.id == y.id) ≡ false)

abbrev pub IsDistinct : List Row → Type 0
IsDistinct [] = Unit {0}
IsDistinct (x ∷ xs) = Lacks x xs × IsDistinct xs

insert_ordered-IsDistinct :
    (x : Row) (ys : List Row) → Lacks x ys → IsDistinct ys → IsDistinct (insert_ordered x ys)
unfolding insert_ordered
insert_ordered-IsDistinct x [] h k = (tt, tt)
insert_ordered-IsDistinct x (y ∷ ys) h k = elim (Bool-cases (comes_first x y)) [
  | inl e ↦ rw e (h, k)
  | inr e ↦
      rw e (All-insert_ordered _ x ys (ground arith) k.0, insert_ordered-IsDistinct x ys h.1 k.1)
]

order_by-IsDistinct : (xs : List Row) → IsDistinct xs → IsDistinct (order_by xs)
unfolding order_by
order_by-IsDistinct [] h = tt
order_by-IsDistinct (x ∷ xs) h =
    insert_ordered-IsDistinct x (order_by xs) (All-order_by _ xs h.0) (order_by-IsDistinct xs h.1)

pub retain-IsDistinct : (p : Row → Bool) (xs : List Row) → IsDistinct xs → IsDistinct (retain p xs)
unfolding retain
retain-IsDistinct p [] h = tt
retain-IsDistinct p (x ∷ xs) h = elim (Bool-cases (p x)) [
  | inl e ↦ rw e (All-retain _ p xs h.0, retain-IsDistinct p xs h.1)
  | inr e ↦ rw e (retain-IsDistinct p xs h.1)
]

retain_lacking :
    (x : Row) (kept ys : List Row)
    → Lacks x ys
    → retain (has_id (x ∷ kept)) ys ≡ retain (has_id kept) ys
unfolding retain
retain_lacking x kept [] h = refl
retain_lacking x kept (y ∷ ys) h = rw (h.0, retain_lacking x kept ys h.1) refl

retain_none : (ys : List Row) → retain (has_id []) ys ≡ []
unfolding retain
retain_none [] = refl
retain_none (y ∷ ys) = retain_none ys

-- The rows whose ids are those of the first `n` are the first `n`.
retain_prefix : (n : ℕ) (xs : List Row) → IsDistinct xs → retain (has_id (take n xs)) xs ≡ take n xs
unfolding retain
retain_prefix zero xs h = retain_none xs
retain_prefix (suc n) [] h = refl
retain_prefix (suc n) (x ∷ xs) h =
    rw ==_refl (ap (λ ys. x ∷ ys) (retain_lacking x (take n xs) xs h.0 ∙ retain_prefix n xs h.1))

-- To delete all but the first `n` in the order leaves those, in the order.
pub order_by_kept :
    (n : ℕ) (xs : List Row)
    → IsDistinct xs
    → order_by (retain (has_id (take n (order_by xs))) xs) ≡ take n (order_by xs)
order_by_kept n xs h =
    order_by-retain (has_id (take n (order_by xs))) xs
    ∙ retain_prefix n (order_by xs) (order_by-IsDistinct xs h)
