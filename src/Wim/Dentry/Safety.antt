-- ===== src/Wim/Dentry/Safety.antt =====
-- Parsing metadata ends on any bytes, reads nothing out of range, and gives a well-formed tree.
use go_wim.Base.{
  ℕ, zero, suc, ◌+◌, ◌-◌, ◌/◌, ◌≤◌, ◌<◌, ◌≡◌, refl, Bool, true, false, ◌&&◌, ◌||◌, List, [], ◌∷◌,
  arith, leb, ◌==◌, length, drop, length-take, length-drop, corrupt, Finishes, value, error,
  Finishes-bind, Finishes-guard, Finishes-map, Finishes-if, slice, le_at, slice-eq, leb→le,
}
use go_wim.Wim.ResHdr.{align8}
use go_wim.Wim.Names.{name_eq, utf16_decode, utf8_encode, contains_byte}
use go_wim.Wim.Dentry.{
  Entry, Dentry, Dentries, node, nil, cons, entry, is_dir, align_up8, fits, tree_offset, units,
  dentry_name16, sort_children, no_twins, append_child, read_streams, BlobIndex, resolve, raw_entry,
  read_entry, has_children, ListParser, read_children, finish_list, list_loop, parse_list,
  single_root, parse_metadata, stream_entry_header, max_tree_nodes,
}
use go_wim.Wim.Dentry.Tree.{IsComponent, Ordered, IsTree, IsForest, count_nodes, count_all}
use go_wim.Wim.Dentry.Sorting.{
  AllChildren, sort_children-Ordered, sort_children-AllChildren, append_child-AllChildren,
  count_all-sort_children, count_all-append_child,
}

slice-Finishes :
    (xs : List ℕ) (i n : ℕ) → i + n ≤ length xs → Finishes (λ ys. length ys ≡ n) (slice xs i n)
slice-Finishes xs i n h =
    rw (slice-eq xs i n h) (value (omega (arith, length-take n (drop i xs), length-drop i xs)))

le_at-Finishes :
    (w : ℕ) (b : List ℕ) (o : ℕ) → o + w ≤ length b → Finishes (λ v. Unit) (le_at w b o)
le_at-Finishes w b o h = rw (slice-eq b o w h) (value tt)

fits-le : (md : List ℕ) (off n : ℕ) → fits md off n ≡ true → off + n ≤ length md
unfolding fits
fits-le md off n e = ground arith

tree_offset-Finishes : (md : List ℕ) → Finishes (λ off. off ≤ length md) (tree_offset md)
unfolding tree_offset
tree_offset-Finishes md = Finishes-guard (leb 8 (length md)) corrupt λ long.
    let room : 8 ≤ length md = leb→le 8 (length md) long in
    Finishes-bind (le_at-Finishes 4 md 0 (omega arith)) λ total _.
      Finishes-bind (le_at-Finishes 4 md 4 (omega arith)) λ count _.
        Finishes-guard (leb 8 total) corrupt λ _.
          Finishes-guard (leb count ((total - 8) / 8)) corrupt λ _.
            Finishes-guard (leb (align8 total) (length md)) corrupt
              λ inside. value (leb→le _ _ inside)

-- A name that is accepted is empty at the root, and a path component elsewhere.
abbrev NameFor : Bool → List ℕ → Type 0
NameFor is_root name = is_root ≡ false → IsComponent name

dentry_name16-NameFor :
    (b : List ℕ) (is_root : Bool) → Finishes (NameFor is_root) (dentry_name16 b is_root)
unfolding dentry_name16
dentry_name16-NameFor b is_root =
    let name = utf8_encode (utf16_decode (units b)) in
    Finishes-if (name_eq name []) (λ _. Finishes-if is_root (λ r. value (λ e. cc)) (λ _. error))
      (λ full.
        Finishes-if is_root (λ _. error)
          λ _.
            Finishes-if
              (name_eq name (0x2e ∷ [])
                || name_eq name (0x2e ∷ 0x2e ∷ [])
                || contains_byte 0x2f name)
              (λ _. error)
              (λ plain. value (λ _. record {
                not_empty = full;
                not_dot = ground arith;
                not_dots = ground arith;
                no_slash = ground arith;
              })))

-- Past the streams the position has not moved back, and lies in the metadata.
abbrev Ahead : List ℕ → ℕ → List ℕ × ℕ → Type 0
Ahead md from (hash, next) = (from ≤ next) × (next ≤ length md)

read_streams-Ahead :
    (md : List ℕ) (n : ℕ) (first : Bool) (next : ℕ) (hash : List ℕ)
    → next ≤ length md
    → Finishes (Ahead md next) (read_streams md n first next hash)
unfolding read_streams
read_streams-Ahead md zero first next hash h = value (omega arith, h)
read_streams-Ahead md (suc n) first next hash h =
    Finishes-guard (fits md next stream_entry_header) corrupt λ head.
      let room : next + 38 ≤ length md = fits-le md next 38 head in
      Finishes-bind (le_at-Finishes 8 md next (omega arith)) λ slen _.
        Finishes-guard
          (leb stream_entry_header slen
            && leb slen (align_up8 slen)
            && fits md next (align_up8 slen))
          corrupt
          λ whole.
            let inside : next + align_up8 slen ≤ length md =
              fits-le md next (align_up8 slen) (ground arith) in
            Finishes-bind (le_at-Finishes 2 md (next + 36) (omega arith)) λ name_len _.
              Finishes-bind (slice-Finishes md (next + 16) 20 (omega arith)) λ stream_hash _.
                Finishes-map (λ r a. (omega arith, a.1))
                  (read_streams-Ahead md n false (next + align_up8 slen) _ inside)

resolve-name : (by_hash : BlobIndex) (e : Entry) → (resolve by_hash e).name ≡ e.name
unfolding resolve
resolve-name by_hash e = ground arith

abbrev IsEntryAt : List ℕ → ℕ → Bool → Entry × ℕ × ℕ → Type 0
IsEntryAt md off is_root (e, subdir, next) =
    NameFor is_root e.name × (off + 102 ≤ next) × (next ≤ length md)

read_entry-IsEntryAt :
    (by_hash : BlobIndex) (md : List ℕ) (off len : ℕ) (is_root : Bool)
    → 102 ≤ len
    → len ≤ align_up8 len
    → off + align_up8 len ≤ length md
    → Finishes (IsEntryAt md off is_root) (read_entry by_hash md off len is_root)
unfolding read_entry raw_entry
read_entry-IsEntryAt by_hash md off len is_root long up inside =
    Finishes-bind (le_at-Finishes 4 md (off + 8) (omega arith)) λ attributes _.
      Finishes-bind (le_at-Finishes 8 md (off + 56) (omega arith)) λ written _.
        Finishes-bind (le_at-Finishes 8 md (off + 16) (omega arith)) λ subdir _.
          Finishes-bind (le_at-Finishes 2 md (off + 100) (omega arith)) λ name_len _.
            Finishes-bind (le_at-Finishes 2 md (off + 98) (omega arith)) λ short_len _.
              Finishes-bind (le_at-Finishes 2 md (off + 96) (omega arith)) λ streams _.
                Finishes-bind (slice-Finishes md (off + 64) 20 (omega arith)) λ hash _.
                  Finishes-guard (leb (name_len + 2 + short_len) (len - 102)) corrupt λ room.
                    let short : name_len + 2 + short_len ≤ len - 102 = leb→le _ _ room in
                    Finishes-bind (slice-Finishes md (off + 102) name_len (omega arith)) λ raw _.
                      Finishes-bind (dentry_name16-NameFor raw is_root) λ name named.
                        Finishes-bind
                          (read_streams-Ahead md streams true (off + align_up8 len) hash inside)
                          λ (hash', next) (ahead, below). value (
                            rw (resolve-name by_hash (raw_entry name attributes written hash'))
                                named,
                            omega arith,
                            below,
                          )

-- What one child of a listing is, and what a parsed listing is beside the nodes counted.
abbrev Fine : Bool → Dentry → Type 0
Fine is_root d = NameFor is_root (entry d).name × IsTree d

record IsListing (is_root : Bool) (nodes : ℕ) (r : Dentries × ℕ) : Type 0 where
  ordered : Ordered r.0
  children : AllChildren (Fine is_root) r.0
  counted : r.1 ≡ nodes + count_all r.0
  bounded : r.1 ≤ max_tree_nodes

abbrev Parses : ListParser → Type 0
Parses sub =
    (off : ℕ) (is_root : Bool) (nodes : ℕ)
    → nodes ≤ max_tree_nodes
    → Finishes (IsListing is_root nodes) (sub off is_root nodes)

IsForest-AllChildren : (cs : Dentries) → AllChildren (Fine false) cs → IsForest cs
unfolding IsForest
IsForest-AllChildren nil h = tt
IsForest-AllChildren (cons d cs) ((name, t), hs) = (name refl, t, IsForest-AllChildren cs hs)

-- The children of an entry make it a tree, of as many nodes as were counted.
abbrev Below : Entry → ℕ → Dentries × ℕ → Type 0
Below e nodes (cs, n) =
    IsTree (node e cs) × (n + 1 ≡ nodes + count_nodes (node e cs)) × (n ≤ max_tree_nodes)

read_children-Below :
    (sub : ListParser) (e : Entry) (subdir nodes : ℕ)
    → Parses sub
    → nodes ≤ max_tree_nodes
    → Finishes (Below e nodes) (read_children sub e subdir nodes)
unfolding read_children IsTree count_nodes
read_children-Below sub e subdir nodes parses few =
    Finishes-if (has_children e subdir)
      (λ _.
        Finishes-map
          (λ r k.
            ((k.ordered, IsForest-AllChildren r.0 k.children), omega (arith, k.counted), k.bounded))
          (parses subdir false nodes few))
      (λ _. value ((tt, tt), omega arith, few))

finish_list-IsListing :
    (is_root : Bool) (start nodes : ℕ) (out : Dentries)
    → AllChildren (Fine is_root) out
    → nodes ≡ start + count_all out
    → nodes ≤ max_tree_nodes
    → Finishes (IsListing is_root start) (finish_list out nodes)
unfolding finish_list
finish_list-IsListing is_root start nodes out fine counted few =
    Finishes-if (no_twins (sort_children out))
      (λ strict. value (record {
        ordered = sort_children-Ordered out strict;
        children = sort_children-AllChildren (Fine is_root) out fine;
        counted = omega (arith, counted, count_all-sort_children out);
        bounded = few;
      }))
      (λ _. error)

list_loop-IsListing :
    (sub : ListParser) (by_hash : BlobIndex) (md : List ℕ) (is_root : Bool) (fuel off nodes : ℕ)
    (out : Dentries) (start : ℕ)
    → Parses sub
    → 0 < fuel
    → length md < off + fuel
    → AllChildren (Fine is_root) out
    → nodes ≡ start + count_all out
    → nodes ≤ max_tree_nodes
    → Finishes (IsListing is_root start) (list_loop sub by_hash md is_root fuel off nodes out)
unfolding list_loop
list_loop-IsListing sub by_hash md is_root zero off nodes out start parses pos enough fine counted
      few =
    absurd (omega arith)
list_loop-IsListing sub by_hash md is_root (suc fuel) off nodes out start parses pos enough fine
      counted few =
    Finishes-guard (fits md off 8) corrupt λ head.
      let room : off + 8 ≤ length md = fits-le md off 8 head in
      Finishes-bind (le_at-Finishes 8 md off room) λ len _.
        Finishes-if (len == 0) (λ _. finish_list-IsListing is_root start nodes out fine counted few)
          (λ _.
            Finishes-guard (leb 102 len && leb len (align_up8 len) && fits md off (align_up8 len))
              corrupt
              λ whole.
                let inside : off + align_up8 len ≤ length md =
                  fits-le md off (align_up8 len) (ground arith) in
                let long : 102 ≤ len = ground arith in
                let up : len ≤ align_up8 len = ground arith in
                Finishes-guard (leb (nodes + 1) max_tree_nodes) corrupt λ more.
                  let few' : nodes + 1 ≤ max_tree_nodes = leb→le (nodes + 1) max_tree_nodes more in
                  Finishes-bind (read_entry-IsEntryAt by_hash md off len is_root long up inside)
                    λ (e, subdir, next) (named, ahead, below).
                      Finishes-bind (read_children-Below sub e subdir (nodes + 1) parses few')
                        λ (cs, nodes') (tree, grown, few'').
                          list_loop-IsListing sub by_hash md is_root fuel next nodes'
                            (append_child out (node e cs)) start parses (omega arith) (omega arith)
                            (append_child-AllChildren (Fine is_root) out (node e cs) (named, tree)
                              fine)
                            (omega (arith, count_all-append_child out (node e cs))) few'')

parse_list-Parses :
    (by_hash : BlobIndex) (md : List ℕ) (levels : ℕ) → Parses (parse_list by_hash md levels)
unfolding parse_list
parse_list-Parses by_hash md zero off is_root nodes few = error
parse_list-Parses by_hash md (suc levels) off is_root nodes few =
    list_loop-IsListing (parse_list by_hash md levels) by_hash md is_root (length md + 1) off nodes
      nil nodes (parse_list-Parses by_hash md levels) (omega arith) (omega arith) tt
      (unfold count_all in omega arith) few

-- What a parsed image is: a directory at the root, a well-formed tree, of bounded size.
pub record IsImage (d : Dentry) : Type 0 where
  pub directory : is_dir (entry d) ≡ true
  pub tree : IsTree d
  pub bounded : count_nodes d ≤ max_tree_nodes

single_root-IsImage : (r : Dentries × ℕ) → IsListing true 0 r → Finishes IsImage (single_root r.0)
unfolding single_root count_nodes
single_root-IsImage (nil, n) k = error
single_root-IsImage (cons d nil, n) k =
    Finishes-if (is_dir (entry d))
      (λ dir. value (record {
        directory = dir;
        tree = k.children.0.1;
        bounded = omega (arith, k.counted, k.bounded);
      }))
      (λ _. error)
single_root-IsImage (cons d (cons c cs), n) k = error

-- On any bytes and any blob table `parseMetadata` returns: it ends, slices nothing out of range, and
-- what it accepts is a directory over a well-formed tree within the limit on nodes.
pub parse_metadata-IsImage :
    (by_hash : BlobIndex) (md : List ℕ) → Finishes IsImage (parse_metadata by_hash md)
unfolding parse_metadata
parse_metadata-IsImage by_hash md = Finishes-bind (tree_offset-Finishes md) λ off _.
    Finishes-bind (parse_list-Parses by_hash md 65 off true 0 (omega arith))
      λ (cs, nodes) k. single_root-IsImage (cs, nodes) k
