-- ===== src/Fpm/Nexthop/Objects.antt =====
-- What an RTM_NEWNEXTHOP or RTM_DELNEXTHOP message does to the nexthop map.
use for_visibility.Prelude.{
  ℕ, ◌+◌, ◌<◌, ◌≡◌, ◌≢◌, true, false, none, List, [], ◌∷◌, ◌++◌, map, length, length-append,
  drop-append_at, All, returns, arith, le→ltb, ◌==◌, if◌then◌else◌,
}
use for_visibility.Prelude.Assoc.{nat_eq, lookup, insert, lookup-remove}
use for_visibility.Text.{Bytes}
use for_visibility.Text.Address.{Ip}
use for_visibility.Wire.{le32, put_le16, put_le32}
use for_visibility.Attr.{Attr, parse_mpls_encap}
use for_visibility.Attr.Walk.{encode, Fits, strip, for_each_attr-encode}
use for_visibility.Attr.Labels.{StackEntry, IsEntry, encode_stack, parse_mpls_encap-encode}
use for_visibility.Fpm.Nexthop.{
  Fpm, Nexthop, NhScan, no_attrs, scan_nh, store_nexthop, handle_nexthop,
}

-- A nexthop object that pushes labels, as the kernel describes it. NHA_ENCAP is flagged as nested.
pub record Labelled : Type 0 where
  pub id : ℕ
  pub oif : ℕ
  pub gw : Ip
  pub top : StackEntry
  pub below : List StackEntry

abbrev pub encap : Labelled → Bytes
encap n = encode (record { atype = 1; payload = encode_stack n.top n.below } ∷ [])

abbrev pub nexthop_attrs : Labelled → List Attr
nexthop_attrs n =
    record { atype = 1; payload = put_le32 n.id }
    ∷ record { atype = 5; payload = put_le32 n.oif }
    ∷ record { atype = 6; payload = n.gw }
    ∷ record { atype = 7; payload = put_le16 1 }
    ∷ record { atype = 32776; payload = encap n }
    ∷ []

pub record IsLabelled (n : Labelled) : Type 0 where
  pub named : n.id ≢ 0
  pub id_fits : n.id < 4294967296
  pub oif_fits : n.oif < 4294967296
  pub gw_fits : length n.gw < 65000
  pub stack_fits : 4 + length (encode_stack n.top n.below) < 65536
  pub encap_fits : 4 + length (encap n) < 65536
  pub entries : All IsEntry (n.top ∷ n.below)

abbrev pub the_nexthop : Labelled → Nexthop
the_nexthop n = record {
  gw = n.gw;
  oif = n.oif;
  group = [];
  labels = map (λ e. e.label) (n.top ∷ n.below);
  blackhole = false;
}

attrs-Fit : (n : Labelled) → IsLabelled n → All Fits (nexthop_attrs n)
attrs-Fit n h = omega arith

put_le32-le32 : (w : ℕ) → w < 4294967296 → le32 (put_le32 w) 0 ≡ w
put_le32-le32 w h = omega arith

encap-labels :
    (n : Labelled)
    → IsLabelled n
    → parse_mpls_encap (encap n) ≡ returns (map (λ e. e.label) (n.top ∷ n.below))
encap-labels n h = parse_mpls_encap-encode 0 n.top n.below (omega arith) h.stack_fits h.entries

scan-labelled :
    (n : Labelled)
    → IsLabelled n
    → scan_nh no_attrs (map strip (nexthop_attrs n))
      ≡ returns (record {
        id = n.id;
        oif = n.oif;
        gw = n.gw;
        group = [];
        labels = map (λ e. e.label) (n.top ∷ n.below);
        encap_type = 1;
        bh = false;
      })
unfolding scan_nh
scan-labelled n h =
    rw (encap-labels n h, put_le32-le32 n.id h.id_fits, put_le32-le32 n.oif h.oif_fits)

-- A message that describes a nexthop object with a gateway, an interface and an MPLS label stack
-- files exactly that under the object's id, and leaves the other objects and the VRF names as they are.
-- The 24 bytes of the two headers do not matter.
pub handle_nexthop-labelled :
    (f : Fpm) (header : Bytes) (n : Labelled)
    → length header ≡ 24
    → IsLabelled n
    → handle_nexthop f (header ++ encode (nexthop_attrs n)) false
      ≡ returns (record f { nh = insert n.id (the_nexthop n) f.nh })
unfolding handle_nexthop
handle_nexthop-labelled f header n size h =
    rw
      (
        le→ltb (length (header ++ encode (nexthop_attrs n))) 24
            (omega (arith, length-append header (encode (nexthop_attrs n)))),
        drop-append_at 24 header (encode (nexthop_attrs n)) size,
        for_each_attr-encode (nexthop_attrs n) (attrs-Fit n h),
        scan-labelled n h,
      )
      (unfold store_nexthop in ground (arith, h.named))

-- A deletion takes the object with that id out of the map, and no other, whatever else the message
-- says of it.
pub store_nexthop-lookup :
    (f : Fpm) (s : NhScan) (j : ℕ)
    → s.id ≢ 0
    → lookup j (store_nexthop f true s).nh ≡ (if s.id == j then none else lookup j f.nh)
unfolding store_nexthop
store_nexthop-lookup f s j named = ground (arith, lookup-remove j s.id f.nh)
