-- ===== src/Netlink/Subtree.antt =====
-- What is left of an interface when its link is removed.
use for_visibility.Prelude.{
  ℕ, ◌≡◌, refl, ◌∙◌, Bool, true, false, none, List, [], ◌∷◌, ◌++◌, arith, All, All-append, All-map,
  ◌&&◌, Option-cases, inl, inr, if◌then◌else◌, not,
}
use for_visibility.Text.{Bytes, text}
use for_visibility.Cache.{GnmiCache, run_effects}
use for_visibility.Gnmi.{PathElem, Effect, cache_update, emit}
use for_visibility.Gnmi.Match.{covers, covers-append, deleted}
use for_visibility.Gnmi.Paths.{plain, keyed, state_leaf}
use for_visibility.Netlink.{
  LinkAttrs, KernelView, Addr, Statistics, iface_elems, counter_updates, link_updates,
  write_link_state, counter_update, addr_elems, link_event, link_addrs, addr_entries, addr_updates,
  link_counters,
}

-- The updates of a call are of the origin openconfig and within the subtree of `p`.
abbrev pub Within : List PathElem → Effect → Type 0
Within p (cache_update origin ups dels) =
    (origin ≡ text "openconfig") × All (λ u. covers p u.path.elem ≡ true) ups
Within p (emit bus kind key detail root) = Unit

-- The calls of three functions of netlink.go that write leaves of one link, collected for the theorem:
-- its state (`writeLinkState`), its counters (`sampleCounters`) and its addresses (`snapshotAddrs`).
unfoldable pub link_writes : KernelView → LinkAttrs → List Effect
link_writes kernel a = write_link_state a ∷ link_counters a ++ link_addrs kernel a

module _ (a : LinkAttrs) where
  abbrev Inside : Effect → Type 0
  Inside = Within (iface_elems a.name [])

  iface-covers :
      (e : List PathElem)
      → covers
          (iface_elems a.name [])
          (plain (text "interfaces") ∷ keyed (text "interface") (text "name") a.name ∷ e)
        ≡ true
  unfolding iface_elems state_leaf
  iface-covers e = covers-append (iface_elems a.name []) [] e ∙ unfold covers in refl

  link_updates-Inside : Inside (write_link_state a)
  unfolding write_link_state link_updates iface_elems
  link_updates-Inside = (
    refl,
    (
      iface-covers _,
      (iface-covers _, (iface-covers _, (iface-covers _, (iface-covers _, (iface-covers _, tt))))),
    ),
  )

  counter_updates-Inside :
      (s : Statistics)
      → All (λ u. covers (iface_elems a.name []) u.path.elem ≡ true) (counter_updates a.name s)
  unfolding counter_updates counter_update iface_elems
  counter_updates-Inside s = (
    iface-covers _,
    (
      iface-covers _,
      (
        iface-covers _,
        (
          iface-covers _,
          (iface-covers _, (iface-covers _, (iface-covers _, (iface-covers _, tt)))),
        ),
      ),
    ),
  )

  link_counters-Inside : All Inside (link_counters a)
  unfolding link_counters
  link_counters-Inside = elim (Option-cases a.statistics) [
    | inl e ↦ rw (e, link_counters) tt
    | inr (s, e) ↦ rw (e, link_counters) ((refl, counter_updates-Inside s), tt)
  ]

  addr_entries-Inside : (addrs : List Addr) → All Inside (addr_entries a.name addrs)
  unfolding addr_entries
  addr_entries-Inside [] = tt
  addr_entries-Inside (x ∷ addrs) = drop_or_keep x.ip_net _ (addr_entries-Inside addrs)
    where
      kept : Inside (cache_update (text "openconfig") (addr_updates a.name x) [])
      kept =
          unfold addr_updates in
          unfold addr_elems in unfold iface_elems in (refl, (iface-covers _, (iface-covers _, tt)))

      drop_or_keep :
          (b : Bool) (rest : List Effect)
          → All Inside rest
          → All Inside (
              if not b
              then rest
              else cache_update (text "openconfig") (addr_updates a.name x) [] ∷ rest)
      drop_or_keep true rest h = (kept, h)
      drop_or_keep false rest h = h

  link_addrs-Inside : (kernel : KernelView) → All Inside (link_addrs kernel a)
  unfolding link_addrs
  link_addrs-Inside kernel = elim (Option-cases (kernel.addr_list a)) [
    | inl e ↦ rw (e, link_addrs) tt
    | inr (addrs, e) ↦ rw (e, link_addrs) (addr_entries-Inside addrs)
  ]

  link_writes-Inside : (kernel : KernelView) → All Inside (link_writes kernel a)
  unfolding link_writes
  link_writes-Inside kernel = (
    link_updates-Inside,
    All-append Inside (link_counters a) (link_addrs kernel a) link_counters-Inside
        (link_addrs-Inside kernel),
  )

module _ (g : GnmiCache) (target : Bytes) where
  open g use {Tree, leaf, leaf-delete}

  -- No leaf that the call writes is in the cache.
  abbrev pub Gone : Tree → Effect → Type 0
  Gone t (cache_update origin ups dels) = All (λ u. leaf t target origin u.path.elem ≡ none) ups
  Gone t (emit bus kind key detail root) = Unit

  module _ (clock : ℕ → ℕ) (k : ℕ) (a : LinkAttrs) (t : Tree) where
    abbrev removed : Tree × Bool
    removed = run_effects g target clock k (link_event true a) t

    removed-leaf :
        (e : List PathElem)
        → removed.1 ≡ true
        → covers (iface_elems a.name []) e ≡ true
        → leaf removed.0 target (text "openconfig") e ≡ none
    unfolding run_effects link_event
    removed-leaf e fine within =
        leaf-delete _ t e refl refl (accepted fine) ∙ unfold deleted in rw within refl
      where
        accepted : {b : Bool} → b && true ≡ true → b ≡ true
        accepted h = ground arith

    Gone-Within :
        (e : Effect) → removed.1 ≡ true → Within (iface_elems a.name []) e → Gone removed.0 e
    Gone-Within (cache_update origin ups dels) fine (same, inside) =
        rw same (All-map (λ u within. removed-leaf u.path.elem fine within) ups inside)
    Gone-Within (emit bus kind key detail root) fine inside = tt

    -- Once the event of a removed link is in the cache, none of the leaves that the ingester writes
    -- for a link of that name is left there: not its state, not its counters and not its addresses.
    -- The cache accepts the notification.
    pub link_event-removes :
        (kernel : KernelView) → removed.1 ≡ true → All (Gone removed.0) (link_writes kernel a)
    link_event-removes kernel fine =
        All-map (λ e inside. Gone-Within e fine inside) (link_writes kernel a)
          (link_writes-Inside a kernel)
