-- ===== src/Wim/Writer/Run.antt =====
-- Calls on a Writer one after the other, and what each of its steps leaves alone.
use go_wim.Base.{
  ℕ, ◌+◌, ◌≡◌, refl, Bool, true, false, not, List, [], ◌∷◌, ◌++◌, Option, none, some, inl, inr,
  Bool-cases, if◌then◌else◌, ◌&&◌, length, get_elem?, ◌==◌, set, u32, u64, Error, Result, ok, err,
  panic, hang, other, no_security, bad_chunk_size,
}
use go_wim.Wim.Names.{name_eq}
use go_wim.Wim.ResHdr.{ResHdr, flag_metadata}
use go_wim.Wim.Header.{header_size}
use go_wim.Wim.Encode.{BlobEntry}
use go_wim.Wim.Writer.{
  Options, chunk, bad_chunk, ImageInfo, ImageEntry, CapturedBlob, Captured, Calls, Writer,
  find_hash, Act, after, settle, wrap, stick, fail, unless_failed,
}
use go_wim.Wim.Writer.Steps.{
  put_bytes, resource_body, seek_start, write_header, start, write_stored, write_resource, add_refs,
  place_blob, store_blob, add_blob, add_blobs, write_image, any_boot, add_image, seal, close,
}

-- One of the calls: an image with what the context, the files and the capture give, or the end.
pub data Call : Type 0 where
  adding : (ℕ → Option Error) → (List ℕ → Result (List ℕ)) → ImageInfo → Result Captured → Call
  closing : Call

module _ {D : Type 0} (calls : Calls D) (opts : Options) where
  unfoldable pub call : Call → Act D (Unit {0})
  call (adding ctx read_file info captured) = add_image calls opts ctx read_file info captured
  call closing = close calls opts

  -- Each call is made, whatever the ones before it returned.
  unfoldable pub run : List Call → Writer D → List (Result (Unit {0})) × Writer D
  unfolding call
  run [] w = ([], w)
  run (c ∷ cs) w = let (r, w') = call c w in let (rs, w'') = run cs w' in (r ∷ rs, w'')

-- The step keeps P, whatever it returns.
abbrev pub Keeps : {D A : Type 0} → (Writer D → Type 0) → Act D A → Type 0
Keeps P act = (w : Writer _) → P w → P (act w).1

module _ {D : Type 0} (P : Writer D → Type 0) where
  pub after-Keeps :
      {A B : Type 0} (x : Result A × Writer D) (next : A → Act D B)
      → P x.1
      → ((a : A) → Keeps P (next a))
      → P (after x next).1
  after-Keeps (ok a, w) next p k = k a w p
  after-Keeps (err e, w) next p k = p
  after-Keeps (panic, w) next p k = p
  after-Keeps (hang, w) next p k = p

if-Keeps :
    {D A : Type 0} (P : Writer D → Type 0) (b : Bool) (x y : Result A × Writer D)
    → P x.1
    → P y.1
    → P (if b then x else y).1
if-Keeps P true x y p q = p
if-Keeps P false x y p q = q

-- What keeps P through the changes that `addImage` makes to the state.
pub record IsStable (D : Type 0) (P : Writer D → Type 0) : Type 0 where
  pub moved :
      (w : Writer D) (dst : D) (n : ℕ) (s : Bool)
      → P w
      → P (record w { dst = dst; at_byte = n; started = s })
  pub counted :
      (w : Writer D) (j refs : ℕ) (b : BlobEntry)
      → get_elem? w.blobs j ≡ some b
      → P w
      → P (record w { blobs = set w.blobs j (record b { refs = refs }) })
  pub added :
      (w : Writer D) (b : BlobEntry)
      → find_hash w.by_hash b.hash ≡ none
      → P w
      → P (record w { by_hash = (b.hash, length w.blobs) ∷ w.by_hash; blobs = w.blobs ++ (b ∷ []) })
  pub imaged :
      (w : Writer D) (im : ImageEntry) → P w → P (record w { images = w.images ++ (im ∷ []) })

settle-Keeps :
    {D A : Type 0} (P : Writer D → Type 0) (e : Option Error) (a : A) → Keeps P (settle e a)
unfolding settle
settle-Keeps P none a w p = p
settle-Keeps P (some e) a w p = p

-- The new stream in the tables, if its resource was written.
stored_blob :
    {D : Type 0} (P : Writer D → Type 0) (b : CapturedBlob)
    → IsStable D P
    → (x : Result ResHdr × Writer D) → P x.1 × (find_hash x.1.by_hash b.hash ≡ none)
    → P
        (after x (λ res. λ w. (
          ok tt,
          record w {
            by_hash = (b.hash, length w.blobs) ∷ w.by_hash;
            blobs = w.blobs ++ (record { res = res; hash = b.hash; refs = b.refs } ∷ []);
          },
        ))).1
stored_blob P b k (ok res, w) (p, fresh) =
    k.added w (record { res = res; hash = b.hash; refs = b.refs }) fresh p
stored_blob P b k (err e, w) (p, fresh) = p
stored_blob P b k (panic, w) (p, fresh) = p
stored_blob P b k (hang, w) (p, fresh) = p

module _ {D : Type 0} (calls : Calls D) (opts : Options) where
  put_bytes-Keeps :
      (P : Writer D → Type 0) (out : D → List ℕ → D × ℕ × Option Error) (bytes : List ℕ)
      → ((w : Writer D) (dst : D) (n : ℕ) → P w → P (record w { dst = dst; at_byte = n }))
      → Keeps P (put_bytes calls opts out bytes)
  unfolding put_bytes
  put_bytes-Keeps P out bytes moved w p =
      let (dst, n, e) = out w.dst bytes in
      settle-Keeps P e n (record w { dst = dst; at_byte = u64 (w.at_byte + n) }) (moved w dst _ p)

  seek_start-Keeps : (P : Writer D → Type 0) → IsStable D P → Keeps P (seek_start calls opts)
  unfolding seek_start
  seek_start-Keeps P k w p =
      let (dst, e) = calls.seek_start w.dst in
      settle-Keeps P e tt (record w { dst = dst }) (k.moved w dst w.at_byte w.started p)

  write_header-Keeps :
      (P : Writer D → Type 0) (bytes : List ℕ)
      → IsStable D P
      → Keeps P (write_header calls opts bytes)
  unfolding write_header
  write_header-Keeps P bytes k w p =
      let (dst, n, e) = calls.write w.dst bytes in
      settle-Keeps P e tt (record w { dst = dst }) (k.moved w dst w.at_byte w.started p)

  start-Keeps : (P : Writer D → Type 0) → IsStable D P → Keeps P (start calls opts)
  unfolding start
  start-Keeps P k w p =
      if-Keeps P w.started (ok tt, w) _ p
        (after-Keeps P (seek_start calls opts w) _ (seek_start-Keeps P k w p) λ u w1 p1.
          after-Keeps P (write_header calls opts _ w1) _ (write_header-Keeps P _ k w1 p1)
            λ v w2 p2. k.moved w2 w2.dst header_size true p2)

  write_resource-Keeps :
      (P : Writer D → Type 0) (bytes : List ℕ) (flags : ℕ)
      → ((w : Writer D) (dst : D) (n : ℕ) → P w → P (record w { dst = dst; at_byte = n }))
      → Keeps P (write_resource calls opts bytes flags)
  unfolding write_resource
  write_resource-Keeps P bytes flags moved w p =
      let (body, flags') = resource_body calls.coder opts bytes flags in
      after-Keeps P (put_bytes calls opts calls.write body w) _
        (put_bytes-Keeps P calls.write body moved w p) λ n w1 p1. p1

  wrap-Keeps :
      {A : Type 0} (P : Writer D → Type 0) (act : Act D A) → Keeps P act → Keeps P (wrap act)
  unfolding wrap
  wrap-Keeps P act k w p = k w p

  store_blob-Keeps :
      (P : Writer D → Type 0) (b : CapturedBlob) (bytes : List ℕ) (w : Writer D)
      → IsStable D P
      → find_hash w.by_hash b.hash ≡ none
      → P w
      → P (store_blob calls opts b bytes w).1
  unfolding store_blob
  store_blob-Keeps P b bytes w k fresh p = elim (Bool-cases (name_eq (calls.sha1 bytes) b.hash)) [
    | inr e ↦ rw e p
    | inl e ↦
        let Q : Writer D → Type 0 = λ v. P v × (find_hash v.by_hash b.hash ≡ none) in
        let q =
          wrap-Keeps Q (write_resource calls opts bytes 0)
            (write_resource-Keeps Q bytes 0 λ v dst n (pv, f). (k.moved v dst n v.started pv, f)) w
            (p, fresh) in
        rw e (stored_blob P b k (wrap (write_resource calls opts bytes 0) w) q)
  ]

  add_refs-Keeps :
      (P : Writer D → Type 0) (j refs : ℕ) (w : Writer D) (b : Option BlobEntry)
      → IsStable D P
      → get_elem? w.blobs j ≡ b
      → P w
      → P (add_refs j refs b w).1
  unfolding add_refs
  add_refs-Keeps P j refs w none k e p = p
  add_refs-Keeps P j refs w (some b) k e p = k.counted w j (u32 (b.refs + refs)) b e p

  place_blob-Keeps :
      (P : Writer D → Type 0) (file : Result (List ℕ)) (b : CapturedBlob) (w : Writer D)
      (found : Option ℕ)
      → IsStable D P
      → find_hash w.by_hash b.hash ≡ found
      → P w
      → P (place_blob calls opts file b found w).1
  unfolding place_blob
  place_blob-Keeps P (ok bytes) b w none k e p = store_blob-Keeps P b bytes w k e p
  place_blob-Keeps P (err x) b w none k e p = p
  place_blob-Keeps P panic b w none k e p = p
  place_blob-Keeps P hang b w none k e p = p
  place_blob-Keeps P file b w (some j) k e p =
      add_refs-Keeps P j b.refs w (get_elem? w.blobs j) k refl p

  add_blob-Keeps :
      (P : Writer D → Type 0) (cancelled : Option Error) (file : Result (List ℕ)) (b : CapturedBlob)
      → IsStable D P
      → Keeps P (add_blob calls opts cancelled file b)
  unfolding add_blob
  add_blob-Keeps P (some e) file b k w p = p
  add_blob-Keeps P none file b k w p =
      place_blob-Keeps P file b w (find_hash w.by_hash b.hash) k refl p

  add_blobs-Keeps :
      (P : Writer D → Type 0) (ctx : ℕ → Option Error) (read_file : List ℕ → Result (List ℕ))
      (i : ℕ) (blobs : List CapturedBlob)
      → IsStable D P
      → Keeps P (add_blobs calls opts ctx read_file i blobs)
  unfolding add_blobs
  add_blobs-Keeps P ctx read_file i [] k w p = p
  add_blobs-Keeps P ctx read_file i (b ∷ blobs) k w p =
      after-Keeps P (add_blob calls opts (ctx i) (read_file b.path) b w) _
        (add_blob-Keeps P (ctx i) (read_file b.path) b k w p)
        (λ u. add_blobs-Keeps P ctx read_file (i + 1) blobs k)

  -- `addImage` keeps P, on every way out.
  pub write_image-Keeps :
      (P : Writer D → Type 0) (ctx : ℕ → Option Error) (read_file : List ℕ → Result (List ℕ))
      (info : ImageInfo) (c : Captured)
      → IsStable D P
      → Keeps P (write_image calls opts ctx read_file info c)
  unfolding write_image
  write_image-Keeps P ctx read_file info c k w p =
      after-Keeps P (start calls opts w) _ (start-Keeps P k w p) λ u w1 p1.
        after-Keeps P (add_blobs calls opts ctx read_file 0 c.blobs w1) _
          (add_blobs-Keeps P ctx read_file 0 c.blobs k w1 p1)
          λ v w2 p2.
            after-Keeps P (c.metadata, w2) _ p2
              λ meta w3 p3.
                after-Keeps P (wrap (write_resource calls opts meta flag_metadata) w3) _
                  (wrap-Keeps P (write_resource calls opts meta flag_metadata)
                    (write_resource-Keeps P meta flag_metadata
                      λ x dst n px. k.moved x dst n x.started px)
                    w3 p3)
                  λ res w4 p4. k.imaged w4 _ p4

  write_stored-Keeps :
      (P : Writer D → Type 0) (bytes : List ℕ) (flags : ℕ)
      → IsStable D P
      → Keeps P (write_stored calls opts bytes flags)
  unfolding write_stored
  write_stored-Keeps P bytes flags k w p =
      after-Keeps P (put_bytes calls opts calls.copy bytes w) _
        (put_bytes-Keeps P calls.copy bytes (λ v dst n pv. k.moved v dst n v.started pv) w p)
        λ n w1 p1. p1

  pub seal-Keeps : (P : Writer D → Type 0) → IsStable D P → Keeps P (seal calls opts)
  unfolding seal
  seal-Keeps P k w p =
      after-Keeps P (wrap (write_stored calls opts _ 0) w) _
        (wrap-Keeps P (write_stored calls opts _ 0) (write_stored-Keeps P _ 0 k) w p)
        λ tbl w1 p1.
          after-Keeps P (wrap (write_stored calls opts _ 0) w1) _
            (wrap-Keeps P (write_stored calls opts _ 0) (write_stored-Keeps P _ 0 k) w1 p1)
            λ xml w2 p2.
              after-Keeps P (seek_start calls opts w2) _ (seek_start-Keeps P k w2 p2)
                λ u w3 p3. write_header-Keeps P _ k w3 p3

  module _ (P : Writer D → Type 0) (k : IsStable D P)
      (failing : (w : Writer D) (e : Error) → P w → P (record w { failed = some e }))
      (sealing : (w : Writer D) → P w → P (record w { closed = true })) where
    stick-Keeps : (f : Option Error) (e : Error) (w : Writer D) → P w → P (stick f e w)
    unfolding stick
    stick-Keeps none e w p = failing w e p
    stick-Keeps (some old) e w p = p

    fail-Keeps : {A : Type 0} (x : Result A × Writer D) → P x.1 → P (fail x).1
    unfolding fail
    fail-Keeps (ok a, w) p = p
    fail-Keeps (err e, w) p = stick-Keeps w.failed e w p
    fail-Keeps (panic, w) p = p
    fail-Keeps (hang, w) p = p

    unless_failed-Keeps :
        {A : Type 0} (f : Option Error) (act : Act D A)
        → Keeps P act
        → Keeps P (unless_failed f act)
    unfolding unless_failed
    unless_failed-Keeps none act h w p = h w p
    unless_failed-Keeps (some e) act h w p = p

    call-Keeps : (c : Call) → Keeps P (call calls opts c)
    unfolding call add_image close
    call-Keeps (adding ctx read_file info captured) w p =
        unless_failed-Keeps w.failed _
          (λ w1 p1.
            if-Keeps P w1.closed (err other, w1) _ p1
              (if-Keeps P (not opts.has_security) (err no_security, w1) _ p1
                (if-Keeps P (bad_chunk (chunk opts)) (err bad_chunk_size, w1) _ p1
                  (if-Keeps P (info.boot && any_boot w1.images) (err other, w1) _ p1
                    (after-Keeps P (captured, w1) _ p1
                      λ c w2 p2.
                        fail-Keeps (write_image calls opts ctx read_file info c w2)
                          (write_image-Keeps P ctx read_file info c k w2 p2))))))
          w p
    call-Keeps closing w p =
        unless_failed-Keeps w.failed _
          (λ w1 p1.
            if-Keeps P w1.closed (err other, w1) _ p1
              (if-Keeps P (length w1.images == 0) (err other, w1) _ p1
                (fail-Keeps (seal calls opts (record w1 { closed = true }))
                  (seal-Keeps P k (record w1 { closed = true }) (sealing w1 p1)))))
          w p

    -- Any calls, one after the other, keep P.
    pub run-Keeps : (cs : List Call) (w : Writer D) → P w → P (run calls opts cs w).1
    unfolding run
    run-Keeps [] w p = p
    run-Keeps (c ∷ cs) w p = run-Keeps cs (call calls opts c w).1 (call-Keeps c w p)
