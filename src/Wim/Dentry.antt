-- ===== src/Wim/Dentry.antt =====
-- dentry.go: the dentry tree of an image, parsed from its metadata. Sums of offsets stand without
-- wrap-around: each follows a call of `fits`, which keeps them below the metadata's length.
pub mod Tree
pub mod Sorting
pub mod Safety
use go_wim.Base.{
  ℕ, zero, suc, ◌+◌, ◌-◌, ◌*◌, ◌/◌, ◌%◌, ◌^◌, ◌≤◌, ◌≡◌, Bool, true, false, ◌&&◌, ◌||◌, not, List,
  [], ◌∷◌, ◌++◌, Option, none, some, ltb, leb, ◌==◌, if◌then◌else◌, length, replicate, u64, Result,
  ok, err, hang, corrupt, ◌>>=◌, ◌>>◌, guard, slice, le_at,
}
use go_wim.Wim.ResHdr.{ResHdr, has_flag, align8}
use go_wim.Wim.Names.{name_lt, name_eq, utf16_decode, utf8_encode, contains_byte}

abbrev pub max_tree_depth : ℕ
max_tree_depth = 64

abbrev pub max_tree_nodes : ℕ
max_tree_nodes = 2 ^ 20

abbrev pub attr_directory : ℕ
attr_directory = 0x10

abbrev pub attr_reparse_point : ℕ
attr_reparse_point = 0x400

abbrev pub stream_entry_header : ℕ
stream_entry_header = 38

abbrev pub dentry_fixed_size : ℕ
dentry_fixed_size = 102

abbrev pub no_hash : List ℕ
no_hash = replicate 20 0

-- A dentry without its children.
pub record Entry : Type 0 where
  pub name : List ℕ
  pub attributes : ℕ
  pub written : ℕ
  pub size : ℕ
  pub hash : List ℕ
  pub res : Option ResHdr
  pub missing : Bool

mutual
  pub data Dentry : Type 0 where
    node : Entry → Dentries → Dentry

  pub data Dentries : Type 0 where
    nil : Dentries
    cons : Dentry → Dentries → Dentries

abbrev pub entry : Dentry → Entry
entry (node e children) = e

abbrev pub children : Dentry → Dentries
children (node e cs) = cs

unfoldable pub is_dir : Entry → Bool
is_dir e = has_flag e.attributes attr_directory

-- `alignUp8`, which saturates.
pub align_up8 : ℕ → ℕ
align_up8 n = if ltb (2 ^ 64 - 1 - 7) n then 2 ^ 64 - 1 else (n + 7) - (n + 7) % 8

-- `fits`
pub fits : List ℕ → ℕ → ℕ → Bool
fits md off n = leb off (length md) && leb n (length md - off)

-- `treeOffset`
unfoldable pub tree_offset : List ℕ → Result ℕ
tree_offset md = do
  guard (leb 8 (length md)) corrupt
  total ← le_at 4 md 0
  count ← le_at 4 md 4
  guard (leb 8 total) corrupt
  guard (leb count ((total - 8) / 8)) corrupt
  guard (leb (align8 total) (length md)) corrupt
  ok (align8 total)

-- The 16-bit units of a name.
unfoldable pub units : List ℕ → List ℕ
units (lo ∷ hi ∷ bs) = (lo + 256 * hi) ∷ units bs
units bs = []

-- `dentryName16`
pub dentry_name16 : List ℕ → Bool → Result (List ℕ)
unfolding units
dentry_name16 b is_root =
    let name = utf8_encode (utf16_decode (units b)) in
    if name_eq name []
    then (if is_root then ok name else err corrupt)
    else if is_root
    then err corrupt
    else if name_eq name (0x2e ∷ []) || name_eq name (0x2e ∷ 0x2e ∷ []) || contains_byte 0x2f name
    then err corrupt
    else ok name

-- `sort.Slice(out, …)` by name, as an insertion sort: two equal names are refused behind it, so
-- that the order of equal elements does not matter.
pub insert_child : Dentry → Dentries → Dentries
insert_child d nil = cons d nil
insert_child d (cons c cs) =
    if name_lt (entry c).name (entry d).name then cons c (insert_child d cs) else cons d (cons c cs)

pub sort_children : Dentries → Dentries
unfolding insert_child
sort_children nil = nil
sort_children (cons c cs) = insert_child c (sort_children cs)

-- The loop that refuses two neighbours of one name.
pub no_twins : Dentries → Bool
no_twins (cons a (cons b cs)) = not (name_eq (entry b).name (entry a).name) && no_twins (cons b cs)
no_twins cs = true

pub append_child : Dentries → Dentry → Dentries
append_child nil d = cons d nil
append_child (cons c cs) d = cons c (append_child cs d)

-- The alternate streams behind a dentry: the hash and where the next sibling begins.
pub read_streams : List ℕ → ℕ → Bool → ℕ → List ℕ → Result (List ℕ × ℕ)
unfolding fits align_up8
read_streams md zero first next hash = ok (hash, next)
read_streams md (suc n) first next hash = do
  guard (fits md next stream_entry_header) corrupt
  slen ← le_at 8 md next
  guard (leb stream_entry_header slen && leb slen (align_up8 slen) && fits md next (align_up8 slen))
      corrupt
  name_len ← le_at 2 md (next + 36)
  stream_hash ← slice md (next + 16) 20
  let hash' = if first && name_len == 0 && name_eq hash no_hash then stream_hash else hash
  read_streams md n false (next + align_up8 slen) hash'

-- The index of the blob table.
abbrev pub BlobIndex : Type 0
BlobIndex = List ℕ → Option ResHdr

-- `resolve`
pub resolve : BlobIndex → Entry → Entry
unfolding is_dir
resolve by_hash e = if is_dir e || name_eq e.hash no_hash then e else elim (by_hash e.hash) [
  | none ↦ record e { missing = true }
  | some res ↦ record e { res = some res; size = res.uncompressed }
]

-- The dentry as its fields give it, before its stream is resolved.
pub raw_entry : List ℕ → ℕ → ℕ → List ℕ → Entry
raw_entry name attributes written hash = record {
  name = name;
  attributes = attributes;
  written = written;
  size = 0;
  hash = hash;
  res = none;
  missing = false;
}

-- One entry of a list at `off`, whose length field is `len`: the entry, its subdirectory offset and
-- where the next sibling begins.
pub read_entry : BlobIndex → List ℕ → ℕ → ℕ → Bool → Result (Entry × ℕ × ℕ)
unfolding align_up8 read_streams dentry_name16 resolve raw_entry
read_entry by_hash md off len is_root = do
  attributes ← le_at 4 md (off + 8)
  written ← le_at 8 md (off + 56)
  subdir ← le_at 8 md (off + 16)
  name_len ← le_at 2 md (off + 100)
  short_len ← le_at 2 md (off + 98)
  streams ← le_at 2 md (off + 96)
  hash ← slice md (off + 64) 20
  guard (leb (name_len + 2 + short_len) (len - 102)) corrupt
  raw ← slice md (off + 102) name_len
  name ← dentry_name16 raw is_root
  (hash', next) ← read_streams md streams true (off + align_up8 len) hash
  ok (resolve by_hash (raw_entry name attributes written hash'), subdir, next)

-- The children of an entry: parsed for a directory that is no link elsewhere.
pub has_children : Entry → ℕ → Bool
has_children e subdir =
    has_flag e.attributes attr_directory
    && not (has_flag e.attributes attr_reparse_point)
    && not (subdir == 0)

-- Parses a child list: the offset, whether it is the root's, and the nodes counted so far.
abbrev pub ListParser : Type 0
ListParser = ℕ → Bool → ℕ → Result (Dentries × ℕ)

-- The children of an entry, by the parser for the next depth.
pub read_children : ListParser → Entry → ℕ → ℕ → Result (Dentries × ℕ)
unfolding has_children
read_children sub e subdir nodes =
    if has_children e subdir then sub subdir false nodes else ok (nil, nodes)

-- The end of a list: the children sorted, and refused if two share a name.
pub finish_list : Dentries → ℕ → Result (Dentries × ℕ)
unfolding sort_children no_twins
finish_list out nodes =
    if no_twins (sort_children out) then ok (sort_children out, nodes) else err corrupt

-- The loop of `list`. Every entry takes 102 bytes at least, so the metadata's length is enough fuel.
module _ (sub : ListParser) (by_hash : BlobIndex) (md : List ℕ) (is_root : Bool) where
  pub list_loop : ℕ → ℕ → ℕ → Dentries → Result (Dentries × ℕ)
  unfolding fits align_up8 read_entry read_children append_child finish_list
  list_loop zero off nodes out = hang
  list_loop (suc fuel) off nodes out =
      guard (fits md off 8) corrupt
      >> (le_at 8 md off >>= λ len.
          let entry_at : Result (Dentries × ℕ) = (do
            guard (leb 102 len && leb len (align_up8 len) && fits md off (align_up8 len)) corrupt
            guard (leb (nodes + 1) max_tree_nodes) corrupt
            (e, subdir, next) ← read_entry by_hash md off len is_root
            (cs, nodes') ← read_children sub e subdir (nodes + 1)
            list_loop fuel next nodes' (append_child out (node e cs))) in
          if len == 0 then finish_list out nodes else entry_at)

-- `list`: `levels` is how many levels are allowed still; none is left past depth 64.
pub parse_list : BlobIndex → List ℕ → ℕ → ListParser
unfolding list_loop
parse_list by_hash md zero off is_root nodes = err corrupt
parse_list by_hash md (suc levels) off is_root nodes =
    list_loop (parse_list by_hash md levels) by_hash md is_root (length md + 1) off nodes nil

-- The checks on the list that the metadata opens with: one dentry, a directory.
pub single_root : Dentries → Result Dentry
unfolding is_dir
single_root (cons d nil) = if is_dir (entry d) then ok d else err corrupt
single_root cs = err corrupt

-- `parseMetadata`
unfoldable pub parse_metadata : BlobIndex → List ℕ → Result Dentry
unfolding tree_offset parse_list single_root
parse_metadata by_hash md = do
  off ← tree_offset md
  (cs, nodes) ← parse_list by_hash md (max_tree_depth + 1) off true 0
  single_root cs
