-- ===== src/Wim/Fs/Lookup.antt =====
-- `lookup` against a walk that scans each directory for the next name of the path.
use go_wim.Base.{
  ℕ, zero, suc, ◌≤◌, ◌≡◌, refl, ap, subst, Bool, ◌&&◌, ◌||◌, not, inl, inr, List, [], ◌∷◌, Option,
  none, some, arith, ◌==◌, if◌then◌else◌, Bool-cases, length, Result, ok, err, invalid, not_exist,
  ◌>>=◌,
}
use go_wim.Wim.Names.{name_eq}
use go_wim.Wim.Dentry.{Entry, Dentry, Dentries, node, nil, cons, entry, children, is_dir}
use go_wim.Wim.Dentry.Tree.{IsTree, IsForest}
use go_wim.Wim.Fs.{cut, step_into, walk_path, valid_components, lookup}
use go_wim.Wim.Fs.Search.{scan, find_child-eq-scan}

abbrev pub prepend : ℕ → List (List ℕ) → List (List ℕ)
prepend b [] = (b ∷ []) ∷ []
prepend b (n ∷ ns) = (b ∷ n) ∷ ns

-- The names of a path: a slash ends a name.
abbrev pub names_of : List ℕ → List (List ℕ)
names_of [] = []
names_of (b ∷ bs) = if b == 0x2f then [] ∷ names_of bs else prepend b (names_of bs)

-- The node that the names lead to, each of them looked for from the first child on.
abbrev pub follow : Dentry → List (List ℕ) → Result Dentry
follow d [] = ok d
follow d (n ∷ ns) =
    if not (is_dir (entry d))
    then err not_exist
    else elim (scan (children d) n) [ none ↦ err not_exist | some c ↦ follow c ns ]

names_of-cut :
    (b : ℕ) (bs : List ℕ) → names_of (b ∷ bs) ≡ (cut (b ∷ bs)).0 ∷ names_of (cut (b ∷ bs)).1
unfolding cut
names_of-cut b [] = elim (Bool-cases (b == 0x2f)) [ inl e ↦ rw e refl | inr e ↦ rw e refl ]
names_of-cut b (c ∷ cs) = elim (Bool-cases (b == 0x2f)) [
  | inl e ↦ rw e refl
  | inr e ↦ rw e (ap (prepend b) (names_of-cut c cs))
]

length-cut : (bs : List ℕ) → length (cut bs).1 ≤ length bs
unfolding cut
length-cut [] = omega arith
length-cut (b ∷ bs) = ground (arith, length-cut bs)

shorter : (b : ℕ) (bs : List ℕ) → suc (length (cut (b ∷ bs)).1) ≤ length (b ∷ bs)
unfolding cut
shorter b bs = ground (arith, length-cut bs)

-- What a scan finds in a forest is a tree.
scan-IsTree :
    (cs : Dentries) (name : List ℕ) (c : Dentry) → IsForest cs → scan cs name ≡ some c → IsTree c
unfolding IsForest
scan-IsTree nil name c f = λ e. cc
scan-IsTree (cons d cs) name c (comp, t, f) = elim (Bool-cases (name_eq (entry d).name name)) [
  | inl same ↦ rw same (λ e. subst IsTree (ap (λ o. elim o [ none ↦ d | some x ↦ x ]) e) t)
  | inr other ↦ rw other (scan-IsTree cs name c f)
]

-- One step: what the walk does behind the child is known.
found-follow :
    (cs : Dentries) (comp : List ℕ) (ns : List (List ℕ)) (k : Dentry → Result Dentry)
    (s : Option Dentry)
    → IsForest cs
    → ((c : Dentry) → IsTree c → k c ≡ follow c ns)
    → scan cs comp ≡ s
    → (elim s [ none ↦ err not_exist | some c ↦ ok c ] >>= k)
      ≡ elim s [ none ↦ err not_exist | some c ↦ follow c ns ]
found-follow cs comp ns k none f same found = refl
found-follow cs comp ns k (some c) f same found = same c (scan-IsTree cs comp c f found)

step-follow :
    (e : Entry) (cs : Dentries) (comp : List ℕ) (ns : List (List ℕ)) (k : Dentry → Result Dentry)
    → IsTree (node e cs)
    → ((c : Dentry) → IsTree c → k c ≡ follow c ns)
    → (step_into (node e cs) comp >>= k) ≡ follow (node e cs) (comp ∷ ns)
unfolding step_into IsTree
step-follow e cs comp ns k (o, f) same = elim (Bool-cases (is_dir e)) [
  | inr file ↦ rw file refl
  | inl dir ↦
      rw (dir, find_child-eq-scan cs comp o) (found-follow cs comp ns k (scan cs comp) f same refl)
]

walk_path-follow :
    (fuel : ℕ) (d : Dentry) (p : List ℕ)
    → length p ≤ fuel
    → IsTree d
    → walk_path fuel d p ≡ follow d (names_of p)
unfolding walk_path
walk_path-follow fuel d [] enough t = refl
walk_path-follow zero d (b ∷ bs) enough t = absurd (omega arith)
walk_path-follow (suc fuel) (node e cs) (b ∷ bs) enough t = rw (names_of-cut b bs) (
    step-follow e cs (cut (b ∷ bs)).0 (names_of (cut (b ∷ bs)).1)
      (λ c. walk_path fuel c (cut (b ∷ bs)).1) t
      (λ c u. walk_path-follow fuel c (cut (b ∷ bs)).1 (omega (arith, shorter b bs, enough)) u))

-- In a parsed tree, lookup refuses a path that is not valid as such and otherwise returns what a
-- walk along the names of the path returns that scans each directory: the node, or that it does not
-- exist. The path `.` is the root. The loop always ends.
pub lookup-eq-follow :
    (utf8 : List ℕ → Bool) (root : Dentry) (name : List ℕ)
    → IsTree root
    → lookup utf8 root name ≡ (
        if not (utf8 name && (name_eq name (0x2e ∷ []) || valid_components (length name) name))
        then err invalid
        else if name_eq name (0x2e ∷ [])
        then ok root
        else follow root (names_of name))
unfolding lookup
lookup-eq-follow utf8 root name t =
    rw (walk_path-follow (length name) root name (omega arith) t) refl
