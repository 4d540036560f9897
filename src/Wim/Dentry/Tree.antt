-- ===== src/Wim/Dentry/Tree.antt =====
-- What a parsed tree is: every directory's listing in strict name order, every name one that a path
-- can hold, and the number of nodes.
use go_wim.Base.{ℕ, ◌+◌, ◌≡◌, true, false, List, [], ◌∷◌}
use go_wim.Wim.Names.{name_lt, name_eq, contains_byte}
use go_wim.Wim.Dentry.{Dentry, Dentries, node, nil, cons, entry}

-- A component of a path: not empty, neither `.` nor `..`, and without a slash.
pub record IsComponent (name : List ℕ) : Type 0 where
  pub not_empty : name_eq name [] ≡ false
  pub not_dot : name_eq name (0x2e ∷ []) ≡ false
  pub not_dots : name_eq name (0x2e ∷ 0x2e ∷ []) ≡ false
  pub no_slash : contains_byte 0x2f name ≡ false

-- `name` comes before the first of the listing.
abbrev pub Before : List ℕ → Dentries → Type 0
Before name nil = Unit
Before name (cons d cs) = name_lt name (entry d).name ≡ true

-- A listing in strict order, so that no name stands there twice.
abbrev pub Ordered : Dentries → Type 0
Ordered nil = Unit
Ordered (cons d cs) = Before (entry d).name cs × Ordered cs

unfoldable mutual
  pub IsTree : Dentry → Type 0
  IsTree (node e cs) = Ordered cs × IsForest cs

  pub IsForest : Dentries → Type 0
  IsForest nil = Unit
  IsForest (cons d cs) = IsComponent (entry d).name × IsTree d × IsForest cs

unfoldable mutual
  pub count_nodes : Dentry → ℕ
  count_nodes (node e cs) = 1 + count_all cs

  pub count_all : Dentries → ℕ
  count_all nil = 0
  count_all (cons d cs) = count_nodes d + count_all cs
