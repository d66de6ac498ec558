-- ===== src/Netlink/Fdb.antt =====
-- The bridge FDB at the start and the FDB events agree.
use for_visibility.Prelude.{
  ◌≡◌, refl, ◌∙◌, true, false, not, inl, inr, some, List, [], ◌∷◌, ◌++◌, arith, All, Bool-cases,
  if◌then◌else◌,
}
use for_visibility.Gnmi.{Effect}
use for_visibility.Netlink.{
  Neigh, KernelView, is_unicast_mac, write_fdb, neigh_event, fdb_entries, snapshot_fdb,
}

-- the rounds of `neighLoop` for new entries, one after another
unfoldable pub neigh_events : KernelView → List Neigh → List Effect
neigh_events kernel [] = []
neigh_events kernel (n ∷ ns) = neigh_event kernel false n ++ neigh_events kernel ns

abbrev pub IsBridge : Neigh → Type 0
IsBridge n = n.bridge ≡ true

neigh_event-new :
    (kernel : KernelView) (n : Neigh)
    → IsBridge n
    → neigh_event kernel false n
      ≡ (if not (is_unicast_mac n.hardware_addr) then [] else write_fdb kernel n ∷ [])
neigh_event-new kernel n bridge = unfold neigh_event in rw bridge refl

fdb_entries-cons :
    (kernel : KernelView) (n : Neigh) (ns : List Neigh)
    → fdb_entries kernel (n ∷ ns)
      ≡ (if not (is_unicast_mac n.hardware_addr) then [] else write_fdb kernel n ∷ [])
        ++ fdb_entries kernel ns
fdb_entries-cons kernel n ns =
    unfold fdb_entries in
    elim (Bool-cases (is_unicast_mac n.hardware_addr)) [
      | inl unicast ↦ rw unicast refl
      | inr group ↦ rw group refl
    ]

neigh_events-cons :
    (kernel : KernelView) (n : Neigh) (ns : List Neigh)
    → IsBridge n
    → fdb_entries kernel ns ≡ neigh_events kernel ns
    → (if not (is_unicast_mac n.hardware_addr) then [] else write_fdb kernel n ∷ [])
        ++ fdb_entries kernel ns
      ≡ neigh_events kernel (n ∷ ns)
unfolding neigh_events
neigh_events-cons kernel n ns bridge e = rw (e, neigh_event-new kernel n bridge) refl

fdb_entries-neigh_events :
    (kernel : KernelView) (ns : List Neigh)
    → All IsBridge ns
    → fdb_entries kernel ns ≡ neigh_events kernel ns
fdb_entries-neigh_events kernel [] h = unfold fdb_entries neigh_events in refl
fdb_entries-neigh_events kernel (n ∷ ns) (bridge, h) =
    fdb_entries-cons kernel n ns
    ∙ neigh_events-cons kernel n ns bridge (fdb_entries-neigh_events kernel ns h)

dumped :
    (kernel : KernelView) (ns : List Neigh)
    → kernel.neigh_list ≡ some ns
    → snapshot_fdb kernel ≡ fdb_entries kernel ns
unfolding snapshot_fdb
dumped kernel ns e = ground (arith, e)

-- The FDB snapshot at the start makes the same cache updates, in the same order, as if each entry
-- of the dump had arrived as a new-neighbor event. The dump of the family AF_BRIDGE has entries of
-- that family only.
pub snapshot_fdb-neigh_events :
    (kernel : KernelView) (ns : List Neigh)
    → kernel.neigh_list ≡ some ns
    → All IsBridge ns
    → snapshot_fdb kernel ≡ neigh_events kernel ns
snapshot_fdb-neigh_events kernel ns e h =
    dumped kernel ns e ∙ (fdb_entries-neigh_events kernel ns h)
