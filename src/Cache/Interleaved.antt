-- ===== src/Cache/Interleaved.antt =====
-- The ingesters call the cache wrapper from their own goroutines, so their calls interleave.
use for_visibility.Prelude.{
  ℕ, suc, ◌≡◌, refl, sym, subst, ap, ◌∙◌, Bool, true, false, ◌&&◌, ◌⊎◌, inl, inr, Option, List, [],
  ◌∷◌, All, Bool-cases, if◌then◌else◌, arith,
}
use for_visibility.Text.{Bytes, bytes_beq, bytes_beq_iff}
use for_visibility.Gnmi.{PathElem, TypedValue, Update, GnmiPath, Effect, cache_update, emit}
use for_visibility.Gnmi.Match.{elems_beq, covers, written, deleted}
use for_visibility.Cache.{GnmiCache, update, run_effects}

-- The third list has the calls of the first two, each in its order.
pub data Interleaved : List Effect → List Effect → List Effect → Type 0 where
  done : Interleaved [] [] []
  mine : {a b c : List Effect} (e : Effect) → Interleaved a b c → Interleaved (e ∷ a) b (e ∷ c)
  others : {a b c : List Effect} (e : Effect) → Interleaved a b c → Interleaved a (e ∷ b) (e ∷ c)

-- A call writes leaves or deletes subtrees, not both.
abbrev pub IsSimple : Effect → Type 0
IsSimple (emit bus kind key detail root) = Unit
IsSimple (cache_update origin ups dels) = (ups ≡ []) ⊎ (dels ≡ [])

-- A call that neither writes the leaf nor deletes a subtree with it.
abbrev pub Spares : List PathElem → Effect → Type 0
Spares p (emit bus kind key detail root) = Unit
Spares p (cache_update origin ups dels) =
    All (λ u. elems_beq u.path.elem p ≡ false) ups × All (λ d. covers d.elem p ≡ false) dels

-- what the calls make of the leaf of an origin
abbrev pub leaf_after : Bytes → List PathElem → List Effect → Option TypedValue → Option TypedValue
leaf_after origin p [] old = old
leaf_after origin p (emit bus kind key detail root ∷ effects) old = leaf_after origin p effects old
leaf_after origin p (cache_update o ups dels ∷ effects) old =
    leaf_after origin p effects
      (if bytes_beq o origin then deleted dels p (written ups p old) else old)

written-spared :
    (ups : List Update) (p : List PathElem) (old : Option TypedValue)
    → All (λ (u : Update). elems_beq u.path.elem p ≡ false) ups
    → written ups p old ≡ old
unfolding written
written-spared [] p old h = refl
written-spared (u ∷ ups) p old (h, hs) = rw (h) (written-spared ups p old hs)

deleted-spared :
    (dels : List GnmiPath) (p : List PathElem) (old : Option TypedValue)
    → All (λ (d : GnmiPath). covers d.elem p ≡ false) dels
    → deleted dels p old ≡ old
unfolding deleted
deleted-spared [] p old h = refl
deleted-spared (d ∷ dels) p old (h, hs) = rw (h) (deleted-spared dels p old hs)

leaf_after-Interleaved :
    (origin : Bytes) (p : List PathElem) {a b c : List Effect} (old : Option TypedValue)
    → Interleaved a b c
    → All (Spares p) b
    → leaf_after origin p c old ≡ leaf_after origin p a old
leaf_after-Interleaved origin p old done h = refl
leaf_after-Interleaved origin p old (mine (emit bus kind key detail root) i) h =
    leaf_after-Interleaved origin p old i h
leaf_after-Interleaved origin p old (mine (cache_update o ups dels) i) h =
    leaf_after-Interleaved origin p _ i h
leaf_after-Interleaved origin p old (others (emit bus kind key detail root) i) h =
    leaf_after-Interleaved origin p old i h.1
leaf_after-Interleaved origin p old (others {c} (cache_update o ups dels) i) ((hu, hd), h) =
    ap (leaf_after origin p c) unchanged ∙ leaf_after-Interleaved origin p old i h
  where
    unchanged : (if bytes_beq o origin then deleted dels p (written ups p old) else old) ≡ old
    unchanged =
        ground (arith, written-spared ups p old hu, deleted-spared dels p (written ups p old) hd)

written-nil :
    {ups : List Update} (p : List PathElem) (old : Option TypedValue)
    → ups ≡ []
    → old ≡ written ups p old
unfolding written
written-nil p old none_written = rw (none_written) refl

deleted-nil :
    {dels : List GnmiPath} (p : List PathElem) (old : Option TypedValue)
    → dels ≡ []
    → old ≡ deleted dels p old
unfolding deleted
deleted-nil p old none_deleted = rw (none_deleted) refl

&&-true : (a b : Bool) → a && b ≡ true → (a ≡ true) × (b ≡ true)
&&-true a b h = ground arith

module _ (g : GnmiCache) (target origin : Bytes) (clock : ℕ → ℕ) (p : List PathElem) where
  open g use {Tree, leaf, leaf-update, leaf-delete, leaf-elsewhere}

  update-here :
      (k : ℕ) (ups : List Update) (dels : List GnmiPath) (t : Tree)
      → (ups ≡ []) ⊎ (dels ≡ [])
      → (update g target (clock k) origin ups dels t).1 ≡ true
      → leaf (update g target (clock k) origin ups dels t).0 target origin p
        ≡ deleted dels p (written ups p (leaf t target origin p))
  unfolding update
  update-here k ups dels t (inl no_ups) fine =
      leaf-delete _ t p no_ups refl fine ∙ ap (deleted dels p) (written-nil p _ no_ups)
  update-here k ups dels t (inr no_dels) fine =
      leaf-update _ t p no_dels refl fine ∙ deleted-nil p _ no_dels

  update-leaf :
      (k : ℕ) (o : Bytes) (ups : List Update) (dels : List GnmiPath) (t : Tree)
      → (ups ≡ []) ⊎ (dels ≡ [])
      → (update g target (clock k) o ups dels t).1 ≡ true
      → leaf (update g target (clock k) o ups dels t).0 target origin p ≡ (
          if bytes_beq o origin
          then deleted dels p (written ups p (leaf t target origin p))
          else leaf t target origin p)
  unfolding update
  update-leaf k o ups dels t simple fine = elim (Bool-cases (bytes_beq o origin)) [
    | inl same ↦ rw (same) (
        subst
          (λ o.
            (update g target (clock k) o ups dels t).1 ≡ true
            → leaf (update g target (clock k) o ups dels t).0 target origin p
              ≡ deleted dels p (written ups p (leaf t target origin p)))
          (sym ((bytes_beq_iff o origin).0 same)) (update-here k ups dels t simple) fine)
    | inr other ↦ rw (other) (leaf-elsewhere _ t origin p other fine)
  ]

  -- An accepted run of calls leaves in a leaf what its own calls make of it.
  run_effects-leaf :
      (k : ℕ) (effects : List Effect) (t : Tree)
      → All IsSimple effects
      → (run_effects g target clock k effects t).1 ≡ true
      → leaf (run_effects g target clock k effects t).0 target origin p
        ≡ leaf_after origin p effects (leaf t target origin p)
  unfolding run_effects
  run_effects-leaf k [] t h fine = refl
  run_effects-leaf k (emit bus kind key detail root ∷ effects) t h fine =
      run_effects-leaf (suc k) effects t h.1 fine
  run_effects-leaf k (cache_update o ups dels ∷ effects) t (simple, h) fine =
      let oks = &&-true _ _ fine in
      run_effects-leaf (suc k) effects (update g target (clock k) o ups dels t).0 h oks.1
      ∙ ap (leaf_after origin p effects) (update-leaf k o ups dels t simple oks.0)

Interleaved-All :
    {a b c : List Effect} (P : Effect → Type 0) → Interleaved a b c → All P a → All P b → All P c
Interleaved-All P done ha hb = tt
Interleaved-All P (mine e i) ha hb = (ha.0, Interleaved-All P i ha.1 hb)
Interleaved-All P (others e i) ha hb = (hb.0, Interleaved-All P i ha hb.1)

-- Calls of other ingesters that spare a leaf make no difference to it, in whatever order they come
-- between an ingester's own calls, if the cache accepts all of them.
pub run_effects-Interleaved :
    (g : GnmiCache) (target origin : Bytes) (clock clock' : ℕ → ℕ) (p : List PathElem)
    {a b c : List Effect} (t : g.Tree)
    → Interleaved a b c
    → All IsSimple a
    → All IsSimple b
    → All (Spares p) b
    → (run_effects g target clock 0 c t).1 ≡ true
    → (run_effects g target clock' 0 a t).1 ≡ true
    → g.leaf (run_effects g target clock 0 c t).0 target origin p
      ≡ g.leaf (run_effects g target clock' 0 a t).0 target origin p
run_effects-Interleaved g target origin clock clock' p {a} {b} {c} t i ha hb spared fine alone =
    run_effects-leaf g target origin clock p 0 c t (Interleaved-All IsSimple i ha hb) fine
    ∙ leaf_after-Interleaved origin p (g.leaf t target origin p) i spared
    ∙ sym (run_effects-leaf g target origin clock' p 0 a t ha alone)
