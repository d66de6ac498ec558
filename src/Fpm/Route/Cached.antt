-- ===== src/Fpm/Route/Cached.antt =====
-- What a route message leaves in the cache.
use for_visibility.Prelude.{
  ℕ, ◌≡◌, refl, ◌∙◌, Bool, true, false, ◌&&◌, Option, none, some, List, Bool-cases, inl, inr, ◌==◌,
  if◌then◌else◌, arith,
}
use for_visibility.Text.{Bytes, text}
use for_visibility.Gnmi.{PathElem, TypedValue, string_val}
use for_visibility.Cache.{GnmiCache, run_effects}
use for_visibility.Attr.{labels_csv}
use for_visibility.Vrf.{Kernel, name}
use for_visibility.Fpm.Nexthop.{Fpm, Resolved, is_nil}
use for_visibility.Fpm.Route.{
  RouteMsg, format_prefix, route_nexthop, nexthop_text, route_effects, apply_route,
}
use for_visibility.Fpm.Route.Leaves.{
  next_hop_leaf, labels_leaf, label_value, nh_path, lbl_path, deleted-lbl, deleted-both, written-nh,
  written-both,
}

&&-true : (a b : Bool) → a && b ≡ true → (a ≡ true) × (b ≡ true)
&&-true a b h = ground arith

module _ (g : GnmiCache) (target : Bytes) where
  open g use {Tree, leaf, leaf-update, leaf-delete}

  -- What the cache holds for an entry: its next hop and its label stack.
  abbrev pub entry_at : Bytes → Bytes → Bytes → Tree → Option TypedValue × Option TypedValue
  entry_at vrf af_name prefix t = (
    leaf t target (text "openconfig") (next_hop_leaf vrf af_name prefix),
    leaf t target (text "openconfig") (labels_leaf vrf af_name prefix),
  )

  module _ (clock : ℕ → ℕ) (k : ℕ) (vrf af_name prefix : Bytes) (r : Resolved) (t : Tree) where
    route_effects-del :
        (run_effects g target clock k (route_effects true vrf prefix af_name r) t).1 ≡ true
        → entry_at vrf af_name prefix
            (run_effects g target clock k (route_effects true vrf prefix af_name r) t).0
          ≡ (none, none)
    unfolding run_effects route_effects nh_path lbl_path
    route_effects-del fine =
        let law = λ (e : List PathElem). leaf-delete _ t e refl refl (&&-true _ _ fine).0 in
        let gone = deleted-both vrf af_name prefix in
        λ i. ((law _ ∙ (gone _).0) i, (law _ ∙ (gone _).1) i)

    route_effects-bare :
        is_nil r.labels ≡ true
        → (run_effects g target clock k (route_effects false vrf prefix af_name r) t).1 ≡ true
        → entry_at vrf af_name prefix
            (run_effects g target clock k (route_effects false vrf prefix af_name r) t).0
          ≡ (some (string_val (nexthop_text r)), none)
    route_effects-bare bare =
        unfold run_effects route_effects nh_path lbl_path in
        rw bare λ fine.
          let oks = &&-true _ _ fine in
          let cleared =
            leaf-delete _ t (labels_leaf vrf af_name prefix) refl refl oks.0
            ∙ deleted-lbl vrf af_name prefix _ in
          let law = λ (e : List PathElem). leaf-update _ _ e refl refl (&&-true _ _ oks.1).0 in
          let put = written-nh vrf af_name prefix (string_val (nexthop_text r)) in
          λ i. ((law _ ∙ (put _).0) i, (law _ ∙ (put _).1 ∙ cleared) i)

    route_effects-labelled :
        is_nil r.labels ≡ false
        → (run_effects g target clock k (route_effects false vrf prefix af_name r) t).1 ≡ true
        → entry_at vrf af_name prefix
            (run_effects g target clock k (route_effects false vrf prefix af_name r) t).0
          ≡ (some (string_val (nexthop_text r)), some (string_val (labels_csv r.labels)))
    route_effects-labelled labelled =
        unfold run_effects route_effects nh_path lbl_path in
        rw labelled λ fine.
          let law = λ (e : List PathElem). leaf-update _ t e refl refl (&&-true _ _ fine).0 in
          let put =
            written-both vrf af_name prefix (string_val (nexthop_text r))
              (string_val (labels_csv r.labels)) in
          λ i. ((law _ ∙ (put _ none).0) i, (law _ ∙ (put none _).1) i)

    route_effects-add :
        (run_effects g target clock k (route_effects false vrf prefix af_name r) t).1 ≡ true
        → entry_at vrf af_name prefix
            (run_effects g target clock k (route_effects false vrf prefix af_name r) t).0
          ≡ (some (string_val (nexthop_text r)), label_value r.labels)
    route_effects-add fine = elim (Bool-cases (is_nil r.labels)) [
      | inl bare ↦ rw bare (route_effects-bare bare fine)
      | inr labelled ↦ rw labelled (route_effects-labelled labelled fine)
    ]

-- RTA_TABLE, if it is there and not 0, stands for `rtm_table`.
abbrev pub route_table : RouteMsg → ℕ
route_table m = if m.attrs.table == 0 then m.rtm_table else m.attrs.table

abbrev pub route_vrf : Kernel → Fpm → RouteMsg → Bytes
route_vrf kernel f m = (name kernel f.vrf (route_table m)).0

abbrev pub expected_entry : Bool → Resolved → Option TypedValue × Option TypedValue
expected_entry true r = (none, none)
expected_entry false r = (some (string_val (nexthop_text r)), label_value r.labels)

-- After a route message of an IP family, if the cache accepted the updates, the entry of its VRF and
-- prefix holds, whatever stood there before: nothing, if the route was deleted; else the text of its
-- next hop, and the label stack that it pushes, or none if it pushes no label.
pub apply_route-cached :
    (g : GnmiCache) (target : Bytes) (clock : ℕ → ℕ) (k : ℕ) (kernel : Kernel) (f : Fpm)
    (del : Bool) (m : RouteMsg) (t : g.Tree) (prefix af_name : Bytes)
    → format_prefix m.family m.attrs.dst m.dst_len ≡ some (prefix, af_name)
    → (run_effects g target clock k (apply_route kernel f del m).1 t).1 ≡ true
    → entry_at g target
        (route_vrf kernel f m)
        af_name
        prefix
        (run_effects g target clock k (apply_route kernel f del m).1 t).0
      ≡ expected_entry del (route_nexthop f.nh m)
apply_route-cached g target clock k kernel f del m t prefix af_name e fine =
    rw effects (cached del (rw effects at fine))
  where
    effects :
        (apply_route kernel f del m).1
        ≡ route_effects del (route_vrf kernel f m) prefix af_name (route_nexthop f.nh m)
    effects = unfold apply_route in rw (e, apply_route)

    cached :
        (d : Bool)
        → (run_effects g target clock k
            (route_effects d (route_vrf kernel f m) prefix af_name (route_nexthop f.nh m))
            t).1
          ≡ true
        → entry_at g target
            (route_vrf kernel f m)
            af_name
            prefix
            (run_effects g target clock k
              (route_effects d (route_vrf kernel f m) prefix af_name (route_nexthop f.nh m))
              t).0
          ≡ expected_entry d (route_nexthop f.nh m)
    cached true ok =
        route_effects-del g target clock k (route_vrf kernel f m) af_name prefix
          (route_nexthop f.nh m) t ok
    cached false ok =
        route_effects-add g target clock k (route_vrf kernel f m) af_name prefix
          (route_nexthop f.nh m) t ok
