-- ===== src/Wim/Dentry/Sorting.antt =====
-- The sort of a child list, and the check behind it: a listing in strict order, of the same nodes.
use go_wim.Base.{ℕ, ◌+◌, ◌≡◌, refl, ◌∙◌, true, false, inl, inr, List, arith, Bool-cases}
use go_wim.Wim.Names.{name_lt, name_eq}
use go_wim.Wim.Names.Order.{name_lt-asymm, name_lt_total}
use go_wim.Wim.Dentry.{
  Dentry, Dentries, nil, cons, entry, insert_child, sort_children, no_twins, append_child,
}
use go_wim.Wim.Dentry.Tree.{Ordered, count_nodes, count_all}

abbrev pub AllChildren : (Dentry → Type 0) → Dentries → Type 0
AllChildren P nil = Unit
AllChildren P (cons d cs) = P d × AllChildren P cs

-- Not below the name before it: what sorting gives.
abbrev NotAbove : List ℕ → Dentries → Type 0
NotAbove name nil = Unit
NotAbove name (cons d cs) = name_lt (entry d).name name ≡ false

abbrev Sorted : Dentries → Type 0
Sorted nil = Unit
Sorted (cons d cs) = NotAbove (entry d).name cs × Sorted cs

insert_child-NotAbove :
    (name : List ℕ) (d : Dentry) (cs : Dentries)
    → name_lt (entry d).name name ≡ false
    → NotAbove name cs
    → NotAbove name (insert_child d cs)
unfolding insert_child
insert_child-NotAbove name d nil h k = h
insert_child-NotAbove name d (cons c cs) h k =
    elim (Bool-cases (name_lt (entry c).name (entry d).name)) [
      | inl lt ↦ rw lt k
      | inr ge ↦ rw ge h
    ]

insert_child-Sorted : (d : Dentry) (cs : Dentries) → Sorted cs → Sorted (insert_child d cs)
unfolding insert_child
insert_child-Sorted d nil h = (tt, tt)
insert_child-Sorted d (cons c cs) (h, hs) =
    elim (Bool-cases (name_lt (entry c).name (entry d).name)) [
      | inl lt ↦ rw lt (
        insert_child-NotAbove (entry c).name d cs (name_lt-asymm (entry c).name (entry d).name lt)
            h,
        insert_child-Sorted d cs hs,
      )
      | inr ge ↦ rw ge (ge, (h, hs))
    ]

sort_children-Sorted : (cs : Dentries) → Sorted (sort_children cs)
unfolding sort_children
sort_children-Sorted nil = tt
sort_children-Sorted (cons d cs) =
    insert_child-Sorted d (sort_children cs) (sort_children-Sorted cs)

strict_of_Sorted : (cs : Dentries) → Sorted cs → no_twins cs ≡ true → Ordered cs
unfolding no_twins
strict_of_Sorted nil h e = tt
strict_of_Sorted (cons a nil) h e = (tt, tt)
strict_of_Sorted (cons a (cons b cs)) (h, hs) e =
    let differ : name_eq (entry b).name (entry a).name ≡ false = ground arith in
    let rest : no_twins (cons b cs) ≡ true = ground arith in
    (name_lt_total (entry a).name (entry b).name h differ, strict_of_Sorted (cons b cs) hs rest)

-- What passes the check is in strict order.
pub sort_children-Ordered :
    (cs : Dentries) → no_twins (sort_children cs) ≡ true → Ordered (sort_children cs)
sort_children-Ordered cs e = strict_of_Sorted (sort_children cs) (sort_children-Sorted cs) e

module _ (P : Dentry → Type 0) where
  insert_child-AllChildren :
      (d : Dentry) (cs : Dentries) → P d → AllChildren P cs → AllChildren P (insert_child d cs)
  unfolding insert_child
  insert_child-AllChildren d nil h k = (h, tt)
  insert_child-AllChildren d (cons c cs) h (k, ks) =
      elim (Bool-cases (name_lt (entry c).name (entry d).name)) [
        | inl lt ↦ rw lt (k, insert_child-AllChildren d cs h ks)
        | inr ge ↦ rw ge (h, (k, ks))
      ]

  pub sort_children-AllChildren :
      (cs : Dentries) → AllChildren P cs → AllChildren P (sort_children cs)
  unfolding sort_children
  sort_children-AllChildren nil k = tt
  sort_children-AllChildren (cons d cs) (k, ks) =
      insert_child-AllChildren d (sort_children cs) k (sort_children-AllChildren cs ks)

  pub append_child-AllChildren :
      (cs : Dentries) (d : Dentry) → P d → AllChildren P cs → AllChildren P (append_child cs d)
  unfolding append_child
  append_child-AllChildren nil d h k = (h, tt)
  append_child-AllChildren (cons c cs) d h (k, ks) = (k, append_child-AllChildren cs d h ks)

count_all-insert_child :
    (d : Dentry) (cs : Dentries) → count_all (insert_child d cs) ≡ count_nodes d + count_all cs
unfolding insert_child count_all
count_all-insert_child d nil = refl
count_all-insert_child d (cons c cs) = elim (Bool-cases (name_lt (entry c).name (entry d).name)) [
  | inl lt ↦ rw lt (omega (arith, count_all-insert_child d cs))
  | inr ge ↦ rw ge
]

pub count_all-sort_children : (cs : Dentries) → count_all (sort_children cs) ≡ count_all cs
unfolding sort_children count_all
count_all-sort_children nil = refl
count_all-sort_children (cons d cs) =
    count_all-insert_child d (sort_children cs) ∙ omega (arith, count_all-sort_children cs)

pub count_all-append_child :
    (cs : Dentries) (d : Dentry) → count_all (append_child cs d) ≡ count_all cs + count_nodes d
unfolding append_child count_all
count_all-append_child nil d = omega arith
count_all-append_child (cons c cs) d = omega (arith, count_all-append_child cs d)
