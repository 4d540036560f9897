-- ===== src/Wim/Writer/Failure.antt =====
-- What a failed call and a finished Writer mean for the calls behind them.
use go_wim.Base.{
  ℕ, ◌≡◌, refl, sym, subst, ap, ◌∙◌, Bool, true, false, not, ◌&&◌, List, [], ◌∷◌, Option, none,
  some, if◌then◌else◌, ◌==◌, length, replicate, Error, Result, ok, err, panic, hang, other,
}
use go_wim.Wim.Writer.{
  Options, chunk, bad_chunk, ImageInfo, Captured, Calls, Writer, Act, stick, fail, unless_failed,
}
use go_wim.Wim.Writer.Steps.{any_boot, write_image, add_image, seal, close}
use go_wim.Wim.Writer.Run.{
  Call, adding, closing, call, run, IsStable, write_image-Keeps, seal-Keeps,
}

if-no : {A : Type 0} {b : Bool} (x : A) {y z : A} → b ≡ false → y ≡ z → (if b then x else y) ≡ z
if-no {b = true} x h e = cc
if-no {b = false} x h e = e

module _ {D : Type 0} where
  unfailed :
      {w : Writer D} {f : Option Error} (act : Act D (Unit {0})) {z : Result (Unit {0}) × Writer D}
      → f ≡ none
      → act w ≡ z
      → unless_failed f act w ≡ z
  unfolding unless_failed
  unfailed {f = none} act h e = e
  unfailed {f = some x} act h e = cc

  unless_failed_ok :
      {w w' : Writer D} (f : Option Error) (act : Act D (Unit {0}))
      → unless_failed f act w ≡ (ok tt, w')
      → (f ≡ none) × (act w ≡ (ok tt, w'))
  unfolding unless_failed
  unless_failed_ok none act e = (refl, e)
  unless_failed_ok (some x) act e = cc

  if_ok :
      {w' : Writer D} (b : Bool) (x : Error) (w : Writer D) (y : Result (Unit {0}) × Writer D)
      → (if b then (err x, w) else y) ≡ (ok tt, w')
      → y ≡ (ok tt, w')
  if_ok true x w y e = cc
  if_ok false x w y e = e

module _ {D : Type 0} where
  -- The flags that only `fail` and Close change.
  abbrev FlagsOf : Option Error → Bool → Writer D → Type 0
  FlagsOf f c w = (w.failed ≡ f) × (w.closed ≡ c)

  FlagsOf-IsStable : (f : Option Error) (c : Bool) → IsStable D (FlagsOf f c)
  FlagsOf-IsStable f c = record {
    moved = λ w dst n s k. k;
    counted = λ w j refs b e k. k;
    added = λ w b fresh k. k;
    imaged = λ w im k. k;
  }

  sealed :
      (x : Result (Unit {0}) × Writer D) (w' : Writer D)
      → fail x ≡ (ok tt, w')
      → FlagsOf none true x.1
      → FlagsOf none true w'
  unfolding fail
  sealed (ok u, w) w' e (h, k) =
      let same : w ≡ w' = ap (λ x. x.1) e in subst (FlagsOf none true) same (h, k)
  sealed (err x, w) w' e (h, k) = cc
  sealed (panic, w) w' e (h, k) = cc
  sealed (hang, w) w' e (h, k) = cc

  module _ (calls : Calls D) (opts : Options) where
    call-failed :
        (c : Call) (w : Writer D) (e : Error) → w.failed ≡ some e → call calls opts c w ≡ (err e, w)
    unfolding call add_image close unless_failed
    call-failed (adding ctx read_file info captured) w e h = rw h refl
    call-failed closing w e h = rw h refl

    run-failed :
        (cs : List Call) (w : Writer D) (e : Error)
        → w.failed ≡ some e
        → run calls opts cs w ≡ (replicate (length cs) (err e), w)
    unfolding run
    run-failed [] w e h = refl
    run-failed (c ∷ cs) w e h = rw (call-failed c w e h, run-failed cs w e h) refl

    call-closed :
        (c : Call) (w : Writer D)
        → w.failed ≡ none
        → w.closed ≡ true
        → call calls opts c w ≡ (err other, w)
    unfolding call add_image close unless_failed
    call-closed (adding ctx read_file info captured) w h k = rw h (rw k refl)
    call-closed closing w h k = rw h (rw k refl)

    run-closed :
        (cs : List Call) (w : Writer D)
        → w.failed ≡ none
        → w.closed ≡ true
        → run calls opts cs w ≡ (replicate (length cs) (err other), w)
    unfolding run
    run-closed [] w h k = refl
    run-closed (c ∷ cs) w h k = rw (call-closed c w h k, run-closed cs w h k) refl

    stick-none :
        (w : Writer D) (e : Error)
        → w.failed ≡ none
        → stick w.failed e w ≡ record w { failed = some e }
    unfolding stick
    stick-none w e h = rw h refl

    -- AddImage on a Writer and a capture that it does not refuse.
    adding-eq :
        (ctx : ℕ → Option Error) (read_file : List ℕ → Result (List ℕ)) (info : ImageInfo)
        (c : Captured) (w : Writer D)
        → w.failed ≡ none
        → w.closed ≡ false
        → opts.has_security ≡ true
        → bad_chunk (chunk opts) ≡ false
        → (info.boot && any_boot w.images) ≡ false
        → add_image calls opts ctx read_file info (ok c) w
          ≡ fail (write_image calls opts ctx read_file info c w)
    unfolding add_image unless_failed
    adding-eq ctx read_file info c w h1 h2 h3 h4 h5 =
        unfailed _ h1 (if-no _ h2 (if-no _ (ap not h3) (if-no _ h4 (if-no _ h5 refl))))

    -- An error of addImage, in a call of AddImage that got that far, is what that call and every later call
    -- return, and none of the later calls changes anything.
    pub run-write_image_error :
        (ctx : ℕ → Option Error) (read_file : List ℕ → Result (List ℕ)) (info : ImageInfo)
        (c : Captured) (cs : List Call) (w w' : Writer D) (e : Error)
        → w.failed ≡ none
        → w.closed ≡ false
        → opts.has_security ≡ true
        → bad_chunk (chunk opts) ≡ false
        → (info.boot && any_boot w.images) ≡ false
        → write_image calls opts ctx read_file info c w ≡ (err e, w')
        → run calls opts (adding ctx read_file info (ok c) ∷ cs) w
          ≡ (err e ∷ replicate (length cs) (err e), record w' { failed = some e })
    unfolding run call fail
    run-write_image_error ctx read_file info c cs w w' e h1 h2 h3 h4 h5 h6 =
        let kept =
          write_image-Keeps calls opts (FlagsOf none false) ctx read_file info c
            (FlagsOf-IsStable none false) w (h1, h2) in
        let fresh : w'.failed ≡ none = ap (λ x. x.1.failed) (sym h6) ∙ kept.0 in
        let failed_w = record w' { failed = some e } in
        let first : add_image calls opts ctx read_file info (ok c) w ≡ (err e, failed_w) =
          adding-eq ctx read_file info c w h1 h2 h3 h4 h5
          ∙ ap fail h6
          ∙ ap (λ v. (err e, v)) (stick-none w' e fresh) in
        ap (λ x. let (rs, v) = run calls opts cs x.1 in (x.0 ∷ rs, v)) first
        ∙ ap (λ x. (err e ∷ x.0, x.1)) (run-failed cs failed_w e refl)

    seal_ok :
        (w w' : Writer D)
        → fail (seal calls opts (record w { closed = true })) ≡ (ok tt, w')
        → w.failed ≡ none
        → FlagsOf none true w'
    seal_ok w w' e h = sealed (seal calls opts (record w { closed = true })) w' e (
        seal-Keeps calls opts (FlagsOf none true) (FlagsOf-IsStable none true)
          (record w { closed = true }) (h, refl))

    close_ok : (w w' : Writer D) → close calls opts w ≡ (ok tt, w') → FlagsOf none true w'
    unfolding close
    close_ok w w' e =
        let (fresh, e1) = unless_failed_ok w.failed _ e in
        let e2 = if_ok w.closed other w _ e1 in
        let e3 = if_ok (length w.images == 0) other w _ e2 in seal_ok w w' e3 fresh

    -- Behind a Close that returned no error every call is refused, and none changes anything.
    pub run-close :
        (cs : List Call) (w w' : Writer D)
        → close calls opts w ≡ (ok tt, w')
        → run calls opts (closing ∷ cs) w ≡ (ok tt ∷ replicate (length cs) (err other), w')
    unfolding run call
    run-close cs w w' e =
        let (h, k) = close_ok w w' e in
        ap (λ x. let (rs, v) = run calls opts cs x.1 in (x.0 ∷ rs, v)) e
        ∙ ap (λ x. (ok tt ∷ x.0, x.1)) (run-closed cs w' h k)
