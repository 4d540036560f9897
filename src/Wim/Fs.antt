-- ===== src/Wim/Fs.antt =====
-- fs.go: an image as a file system: path lookup by binary search, and open directories.
pub mod Search
pub mod Lookup
pub mod Listing
pub mod File
use go_wim.Base.{
  ℕ, zero, suc, ◌+◌, ◌-◌, ◌*◌, ◌/◌, ◌%◌, ◌≤◌, ◌≡◌, Bool, true, false, ◌&&◌, ◌||◌, not, List, [],
  ◌∷◌, ◌++◌, Option, none, some, ltb, leb, ◌==◌, if◌then◌else◌, length, take, drop, Error, Result,
  ok, err, hang, invalid, not_exist, eof, ◌>>=◌, ◌>>◌, guard,
}
use go_wim.Wim.Names.{name_lt, name_eq, contains_byte}
use go_wim.Wim.Dentry.{Entry, Dentry, Dentries, node, nil, cons, entry, children, is_dir}

pub count_children : Dentries → ℕ
count_children nil = 0
count_children (cons d cs) = suc (count_children cs)

-- `d.children[i]`
pub child_at : Dentries → ℕ → Option Dentry
child_at nil i = none
child_at (cons d cs) zero = some d
child_at (cons d cs) (suc i) = child_at cs i

-- The loop of `sort.Search` between i and j: half of the range is left each round.
pub search_loop : ℕ → (ℕ → Bool) → ℕ → ℕ → ℕ
search_loop zero f i j = i
search_loop (suc fuel) f i j =
    let low = search_loop fuel f i ((i + j) / 2) in
    let high = search_loop fuel f ((i + j) / 2 + 1) j in
    if ltb i j then (if f ((i + j) / 2) then low else high) else i

-- `d.children[i].name >= name`; the search asks only below the number of children.
pub at_least : Dentries → List ℕ → ℕ → Bool
unfolding child_at
at_least cs name i = elim (child_at cs i) [
  | none ↦ false
  | some c ↦ not (name_lt (entry c).name name)
]

-- The child at the index that the search found, if it has the name.
pub named_at : Dentries → List ℕ → ℕ → Option Dentry
unfolding child_at
named_at cs name i = elim (child_at cs i) [
  | none ↦ none
  | some c ↦ if name_eq (entry c).name name then some c else none
]

-- `findChild`
pub find_child : Dentries → List ℕ → Option Dentry
unfolding count_children search_loop at_least named_at
find_child cs name =
    named_at cs name (search_loop (count_children cs) (at_least cs name) 0 (count_children cs))

-- A path up to its first slash, and behind it.
pub cut : List ℕ → List ℕ × List ℕ
cut [] = ([], [])
cut (b ∷ bs) = let (comp, rest) = cut bs in if b == 0x2f then ([], bs) else (b ∷ comp, rest)

-- One component: the child of a directory.
pub step_into : Dentry → List ℕ → Result Dentry
unfolding find_child
step_into d comp =
    if not (is_dir (entry d))
    then err not_exist
    else elim (find_child (children d) comp) [ none ↦ err not_exist | some c ↦ ok c ]

-- The loop of `lookup` over what is left of the path; every round takes a byte at least.
pub walk_path : ℕ → Dentry → List ℕ → Result Dentry
unfolding cut step_into
walk_path fuel d [] = ok d
walk_path zero d (b ∷ bs) = hang
walk_path (suc fuel) d (b ∷ bs) =
    let (comp, rest) = cut (b ∷ bs) in step_into d comp >>= λ c. walk_path fuel c rest

-- `fs.ValidPath`'s test of one component.
pub valid_component : List ℕ → Bool
valid_component c = not (name_eq c [] || name_eq c (0x2e ∷ []) || name_eq c (0x2e ∷ 0x2e ∷ []))

-- Its loop over the components; a path ends with one.
unfoldable pub valid_components : ℕ → List ℕ → Bool
unfolding cut valid_component
valid_components zero name = false
valid_components (suc fuel) name =
    let (comp, rest) = cut name in
    let more = valid_components fuel rest in
    valid_component comp && (if contains_byte 0x2f name then more else true)

-- `lookup`, behind the parse of the tree; `utf8` is `utf8.ValidString`.
pub lookup : (List ℕ → Bool) → Dentry → List ℕ → Result Dentry
unfolding valid_components walk_path
lookup utf8 root name =
    if not (utf8 name && (name_eq name (0x2e ∷ []) || valid_components (length name) name))
    then err invalid
    else if name_eq name (0x2e ∷ [])
    then ok root
    else walk_path (length name) root name

-- `wimDir.ReadDir(n)` over a listing: the entries, the error and the new position. A negative n
-- counts as 0 here: both mean all that is left.
pub read_dir : List Dentry → ℕ → ℕ → List Dentry × Option Error × ℕ
read_dir all pos n =
    let rest = drop pos all in
    let part = if ltb 0 n && ltb n (length rest) then take n rest else rest in
    if leb (length all) pos
    then ([], (if n == 0 then none else some eof), pos)
    else (part, none, pos + length part)
