-- ===== src/Cache.antt =====
-- internal/state/cache.go: the wrapper around the openconfig/gnmi cache. That cache is not in the
-- repository: it is the interface `GnmiCache`, and the wrapper and the theorems take it as a
-- parameter.

pub mod Interleaved
use for_visibility.Prelude.{ℕ, suc, ◌≡◌, Bool, true, false, ◌&&◌, Option, List, [], ◌∷◌}
use for_visibility.Text.{Bytes, bytes_beq}
use for_visibility.Gnmi.{
  PathElem, GnmiPath, TypedValue, Update, Notification, Effect, cache_update, emit,
}
use for_visibility.Gnmi.Match.{written, deleted}

-- `gnmi_update` is `GnmiUpdate`: the tree after it, and whether it returned no error. `leaf` is what
-- a query of one leaf gives. The laws say what an accepted notification with updates alone, or with
-- deletes alone, does to the leaves of its target and origin, and that the leaves of another origin
-- stay. They take no account of timestamps: the wrapper stamps each notification with the time of the
-- call, and the laws are those of a clock that does not go back.
pub record GnmiCache : Type 1 where
  pub Tree : Type 0
  pub gnmi_update : Notification → Tree → Tree × Bool
  pub leaf : Tree → Bytes → Bytes → List PathElem → Option TypedValue
  pub leaf-update :
      (n : Notification) (t : Tree) (e : List PathElem)
      → n.delete ≡ []
      → n.prefix.elem ≡ []
      → (gnmi_update n t).1 ≡ true
      → leaf (gnmi_update n t).0 n.prefix.target n.prefix.origin e
        ≡ written n.update e (leaf t n.prefix.target n.prefix.origin e)
  pub leaf-delete :
      (n : Notification) (t : Tree) (e : List PathElem)
      → n.update ≡ []
      → n.prefix.elem ≡ []
      → (gnmi_update n t).1 ≡ true
      → leaf (gnmi_update n t).0 n.prefix.target n.prefix.origin e
        ≡ deleted n.delete e (leaf t n.prefix.target n.prefix.origin e)
  pub leaf-elsewhere :
      (n : Notification) (t : Tree) (origin : Bytes) (e : List PathElem)
      → bytes_beq n.prefix.origin origin ≡ false
      → (gnmi_update n t).1 ≡ true
      → leaf (gnmi_update n t).0 n.prefix.target origin e ≡ leaf t n.prefix.target origin e

module _ (g : GnmiCache) where
  open g use {Tree, gnmi_update, leaf, leaf-update, leaf-delete}

  -- (*Cache).Update at the time `now`: the tree after it, and whether it returned nil
  unfoldable pub update : Bytes → ℕ → Bytes → List Update → List GnmiPath → Tree → Tree × Bool
  update target now origin ups dels t =
      gnmi_update
        (record {
          timestamp = now;
          prefix = record { target = target; origin = origin; elem = [] };
          update = ups;
          delete = dels;
        })
        t

  -- The calls that an ingester makes, in order. The ingesters ignore the error of `Update`; the flag
  -- says that there was none. `clock k` is the time of the k-th call.
  unfoldable pub run_effects : Bytes → (ℕ → ℕ) → ℕ → List Effect → Tree → Tree × Bool
  unfolding update
  run_effects target clock k [] t = (t, true)
  run_effects target clock k (emit bus kind key detail root ∷ effects) t =
      run_effects target clock (suc k) effects t
  run_effects target clock k (cache_update origin ups dels ∷ effects) t =
      let (t', fine) = update target (clock k) origin ups dels t in
      let (t'', rest_fine) = run_effects target clock (suc k) effects t' in (t'', fine && rest_fine)
