-- ===== src/Wim/Fs/Search.antt =====
-- `findChild` finds what a scan of the listing finds.
use go_wim.Base.{
  ℕ, zero, suc, ◌+◌, ◌/◌, ◌≤◌, ◌<◌, ◌≡◌, refl, sym, ap, Bool, true, false, inl, inr, List, Option,
  none, some, arith, ltb, leb, if◌then◌else◌, Bool-cases, ltb→lt, ltb-false→le,
}
use go_wim.Wim.Names.{name_lt, name_eq}
use go_wim.Wim.Names.Order.{name_lt_trans, name_lt_irrefl, name_lt_total, name_eq→eq}
use go_wim.Wim.Dentry.{Dentry, Dentries, nil, cons, entry}
use go_wim.Wim.Dentry.Tree.{Ordered}
use go_wim.Wim.Fs.{count_children, child_at, search_loop, at_least, named_at, find_child}

-- The first child of the name, in the order of the listing.
abbrev pub scan : Dentries → List ℕ → Option Dentry
scan nil name = none
scan (cons d cs) name = if name_eq (entry d).name name then some d else scan cs name

-- How many children come before the name.
abbrev rank : Dentries → List ℕ → ℕ
rank nil name = 0
rank (cons d cs) name = if name_lt (entry d).name name then suc (rank cs name) else 0

-- A binary search for the threshold t of a test finds it.
search_loop-threshold :
    (fuel : ℕ) (f : ℕ → Bool) (t i j : ℕ)
    → j ≤ i + fuel
    → i ≤ t
    → t ≤ j
    → ((h : ℕ) → h < j → f h ≡ leb t h)
    → search_loop fuel f i j ≡ t
unfolding search_loop
search_loop-threshold zero f t i j enough lo hi test = omega arith
search_loop-threshold (suc fuel) f t i j enough lo hi test = elim (Bool-cases (ltb i j)) [
  | inr done ↦ rw done (omega (arith, ltb-false→le i j done))
  | inl more ↦
      let lt : i < j = ltb→lt i j more in
      let h = (i + j) / 2 in
      elim (Bool-cases (leb t h)) [
        | inl below ↦
            rw (more, test h (omega arith), below)
              (search_loop-threshold fuel f t i h (omega arith) lo (ground arith)
                (λ h' lt'. test h' (omega arith)))
        | inr above ↦
            rw (more, test h (omega arith), above)
              (search_loop-threshold fuel f t (h + 1) j (omega arith) (ground arith) hi test)
      ]
]

rank-le : (cs : Dentries) (name : List ℕ) → rank cs name ≤ count_children cs
unfolding count_children
rank-le nil name = omega arith
rank-le (cons d cs) name = ground (arith, rank-le cs name)

-- A name that a smaller one is not before is not before it either.
late_trans :
    (a b name : List ℕ) → name_lt a b ≡ true → name_lt a name ≡ false → name_lt b name ≡ false
late_trans a b name lt late = elim (Bool-cases (name_lt b name)) [
  | inl e ↦ absurd (cc (name_lt_trans a b name lt e, late))
  | inr e ↦ e
]

-- From a child on that the name is not behind, the test holds.
late_child :
    (d : Dentry) (cs : Dentries) (name : List ℕ)
    → Ordered (cons d cs)
    → name_lt (entry d).name name ≡ false
    → (i : ℕ) → i < count_children cs
    → at_least cs name i ≡ true
unfolding count_children at_least child_at
late_child d nil name o e i h = absurd (omega arith)
late_child d (cons c cs) name (lt, os) e zero h =
    rw (late_trans (entry d).name (entry c).name name lt e) refl
late_child d (cons c cs) name (lt, os) e (suc i) h =
    late_child c cs name os (late_trans (entry d).name (entry c).name name lt e) i (omega arith)

leb-suc : (m n : ℕ) → leb m n ≡ leb (suc m) (suc n)
leb-suc m n = ground arith

at_least-rank :
    (cs : Dentries) (name : List ℕ)
    → Ordered cs
    → (i : ℕ) → i < count_children cs
    → at_least cs name i ≡ leb (rank cs name) i
unfolding count_children at_least child_at
at_least-rank nil name o i h = absurd (omega arith)
at_least-rank (cons d cs) name (b, os) zero h = elim (Bool-cases (name_lt (entry d).name name)) [
  | inl e ↦ rw e (ground arith)
  | inr e ↦ rw e (ground arith)
]
at_least-rank (cons d cs) name (b, os) (suc i) h = elim (Bool-cases (name_lt (entry d).name name)) [
  | inl e ↦ rw (e, at_least-rank cs name os i (omega arith)) (leb-suc (rank cs name) i)
  | inr e ↦ rw (e, late_child d cs name (b, os) e i (omega arith)) (ground arith)
]

-- A name that is before another is not the other.
lt-not_eq : (a b : List ℕ) → name_lt a b ≡ true → name_eq b a ≡ false
lt-not_eq a b lt = elim (Bool-cases (name_eq b a)) [
  | inl e ↦ absurd (cc (lt, name_lt_irrefl a, ap (name_lt a) (name_eq→eq b a e)))
  | inr e ↦ e
]

before-not_eq : (a b : List ℕ) → name_lt a b ≡ true → name_eq a b ≡ false
before-not_eq a b lt = elim (Bool-cases (name_eq a b)) [
  | inl e ↦ absurd (cc (lt, name_lt_irrefl b, ap (λ x. name_lt x b) (name_eq→eq a b e)))
  | inr e ↦ e
]

-- Behind a child that the name is before, a scan finds nothing.
late_scan :
    (d : Dentry) (cs : Dentries) (name : List ℕ)
    → Ordered (cons d cs)
    → name_lt name (entry d).name ≡ true
    → scan cs name ≡ none
late_scan d nil name o lt = refl
late_scan d (cons c cs) name (b, os) lt =
    let lt' = name_lt_trans name (entry d).name (entry c).name lt b in
    rw (lt-not_eq name (entry c).name lt') (late_scan c cs name os lt')

-- The child at the rank is the one that the scan finds.
named_at-rank :
    (cs : Dentries) (name : List ℕ) → Ordered cs → named_at cs name (rank cs name) ≡ scan cs name
unfolding named_at child_at
named_at-rank nil name o = refl
named_at-rank (cons d cs) name (b, os) = elim (Bool-cases (name_lt (entry d).name name)) [
  | inl e ↦ rw (e, before-not_eq (entry d).name name e) (named_at-rank cs name os)
  | inr e ↦ elim (Bool-cases (name_eq (entry d).name name)) [
    | inl same ↦ rw (e, same) refl
    | inr other ↦
        rw (e, other)
          (sym (late_scan d cs name (b, os) (name_lt_total name (entry d).name e other)))
  ]
]

-- In children in the order of their names, the binary search of findChild returns what a scan from
-- the first child on returns: the child of that name, or none.
pub find_child-eq-scan :
    (cs : Dentries) (name : List ℕ) → Ordered cs → find_child cs name ≡ scan cs name
unfolding find_child
find_child-eq-scan cs name o =
    rw
      (search_loop-threshold (count_children cs) (at_least cs name) (rank cs name) 0
        (count_children cs) (omega arith) (omega arith) (rank-le cs name) (at_least-rank cs name o))
      (named_at-rank cs name o)
