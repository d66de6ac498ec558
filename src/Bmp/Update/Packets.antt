-- ===== src/Bmp/Update/Packets.antt =====
-- A whole BGP UPDATE.
use for_visibility.Prelude.{
  ℕ, ◌+◌, ◌*◌, ◌/◌, ◌%◌, ◌<◌, ◌≡◌, refl, ◌∙◌, false, true, Option, none, some, ◌==◌, if◌then◌else◌,
  List, [], ◌∷◌, ◌++◌, append_assoc, length, length-append, drop, drop-append_at, take-append_at,
  get_or-append_at, All, arith, le→ltb, returns,
}
use for_visibility.Text.{Bytes}
use for_visibility.Text.Address.{Ip}
use for_visibility.Wire.{put_be16}
use for_visibility.Gnmi.{Effect}
use for_visibility.Bmp.Nlri.{parse_rts}
use for_visibility.Bmp.Update.{
  Found, keep_attr, handle_mp, nothing_found, found_effects, parse_attrs, parse_update,
}
use for_visibility.Bmp.Update.Attributes.{
  PathAttr, IsPathAttr, encode_attrs, keep_all, walk_attrs-encode_attrs,
}

-- A BGP UPDATE: 18 bytes of marker and length, the type 2, the withdrawn routes and the path
-- attributes, each behind its size, and the NLRI.
pub record BgpUpdate : Type 0 where
  pub marker : Bytes
  pub withdrawn : Bytes
  pub attributes : List PathAttr
  pub nlri : Bytes

abbrev pub attr_part : BgpUpdate → Bytes
attr_part u = put_be16 (length (encode_attrs u.attributes)) ++ (encode_attrs u.attributes ++ u.nlri)

abbrev pub type_part : BgpUpdate → Bytes
type_part u = 2 ∷ (put_be16 (length u.withdrawn) ++ (u.withdrawn ++ attr_part u))

abbrev pub update_bytes : BgpUpdate → Bytes
update_bytes u = u.marker ++ type_part u

pub record IsUpdate (u : BgpUpdate) : Type 0 where
  pub marker_size : length u.marker ≡ 18
  pub withdrawn_fits : length u.withdrawn < 65536
  pub attributes_fit : length (encode_attrs u.attributes) < 65536
  pub each_fits : All IsPathAttr u.attributes

-- the value of the last attribute of a type
unfoldable pub last_value : ℕ → List PathAttr → Option Bytes
last_value t [] = none
last_value t (a ∷ attributes) = elim (last_value t attributes) [
  | some v ↦ some v
  | none ↦ if a.atype == t then some a.val else none
]

abbrev pub targets : Option Bytes → List Bytes
targets none = []
targets (some v) = parse_rts v

-- What an UPDATE does: the routes of the last MP_REACH (14) are announced with the route targets of
-- the last extended communities (16), and those of the last MP_UNREACH (15) are withdrawn.
abbrev pub announced : Ip → Option Bytes → List Bytes → List Effect
announced peer none rts = []
announced peer (some v) rts = handle_mp peer v rts false

abbrev pub withdrawn_routes : Ip → Option Bytes → List Effect
withdrawn_routes peer none = []
withdrawn_routes peer (some v) = handle_mp peer v [] true

abbrev pub update_effects : Ip → List PathAttr → List Effect
update_effects peer attributes =
    announced peer (last_value 14 attributes) (targets (last_value 16 attributes))
    ++ withdrawn_routes peer (last_value 15 attributes)

-- what is kept of one kind, after what was kept before
abbrev later : Option Bytes → Option Bytes → Option Bytes
later before none = before
later before (some v) = some v

abbrev later_rts : List Bytes → Option Bytes → List Bytes
later_rts before none = before
later_rts before (some v) = parse_rts v

keep_all-last :
    (s : Found) (attributes : List PathAttr)
    → keep_all s attributes ≡ record {
      mp_reach = later s.mp_reach (last_value 14 attributes);
      mp_unreach = later s.mp_unreach (last_value 15 attributes);
      rts = later_rts s.rts (last_value 16 attributes);
    }
unfolding keep_all keep_attr last_value
keep_all-last s [] = refl
keep_all-last s (a ∷ attributes) =
    keep_all-last (keep_attr s a.atype a.val) attributes ∙ ground arith

found_effects-parts :
    (peer : Ip) (reach unreach communities : Option Bytes)
    → found_effects peer (record {
      mp_reach = later none reach;
      mp_unreach = later none unreach;
      rts = later_rts [] communities;
    })
      ≡ announced peer reach (targets communities) ++ withdrawn_routes peer unreach
unfolding found_effects
found_effects-parts peer reach unreach communities = ground arith

found_effects-last :
    (peer : Ip) (attributes : List PathAttr)
    → found_effects peer (keep_all nothing_found attributes) ≡ update_effects peer attributes
found_effects-last peer attributes = rw (keep_all-last nothing_found attributes) (
    found_effects-parts peer (last_value 14 attributes) (last_value 15 attributes)
      (last_value 16 attributes))

parse_attrs-attr_part :
    (peer : Ip) (u : BgpUpdate)
    → IsUpdate u
    → parse_attrs peer (attr_part u) ≡ returns (update_effects peer u.attributes)
parse_attrs-attr_part peer u h =
    unfold parse_attrs in
    rw (
      size,
      le→ltb (length (encode_attrs u.attributes ++ u.nlri)) (length (encode_attrs u.attributes))
          (omega (arith, length-append (encode_attrs u.attributes) u.nlri)),
      take-append_at _ (encode_attrs u.attributes) u.nlri refl,
      walk_attrs-encode_attrs u.attributes
          (drop (length (encode_attrs u.attributes)) (encode_attrs u.attributes ++ u.nlri))
          h.each_fits,
      found_effects-last peer u.attributes,
    )
  where
    size :
        length (encode_attrs u.attributes) / 256 % 256 * 256
          + length (encode_attrs u.attributes) % 256
        ≡ length (encode_attrs u.attributes)
    size = omega (arith, h.attributes_fit)

-- Of a well-formed UPDATE, whatever its withdrawn routes and NLRI, the MP_REACH that stands last
-- among its attributes is handled as announcements, with the route targets of the extended
-- communities that stand last, if there are any, and then the last MP_UNREACH as withdrawals; nothing
-- else has an effect.
pub parse_update-update_bytes :
    (peer : Ip) (u : BgpUpdate)
    → IsUpdate u
    → parse_update peer (update_bytes u) ≡ returns (update_effects peer u.attributes)
parse_update-update_bytes peer u h =
    let body : Bytes = u.withdrawn ++ attr_part u in
    unfold parse_update in
    rw
      (
        le→ltb (length (update_bytes u)) 19
            (omega (arith, length-append u.marker (type_part u), h.marker_size)),
        get_or-append_at 18 u.marker 2 (put_be16 (length u.withdrawn) ++ body) 0 h.marker_size,
        behind_type,
        size,
        le→ltb (length body) (length u.withdrawn + 2)
            (omega (arith, length-append u.withdrawn (attr_part u))),
        drop-append_at _ u.withdrawn (attr_part u) refl,
        parse_attrs-attr_part peer u h,
      )
      (ground arith)
  where
    behind_type :
        drop 19 (update_bytes u) ≡ put_be16 (length u.withdrawn) ++ (u.withdrawn ++ attr_part u)
    behind_type =
        rw
          (← append_assoc u.marker (2 ∷ [])
            (put_be16 (length u.withdrawn) ++ (u.withdrawn ++ attr_part u)))
          (drop-append_at 19 (u.marker ++ 2 ∷ [])
            (put_be16 (length u.withdrawn) ++ (u.withdrawn ++ attr_part u))
            (omega (arith, length-append u.marker (2 ∷ []), h.marker_size)))

    size : length u.withdrawn / 256 % 256 * 256 + length u.withdrawn % 256 ≡ length u.withdrawn
    size = omega (arith, h.withdrawn_fits)
