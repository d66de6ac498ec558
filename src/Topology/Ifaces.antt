-- ===== src/Topology/Ifaces.antt =====
-- `ifacePeer` and the other end of an OSPF adjacency, by the name of the interface.
use for_visibility.Prelude.{◌≡◌, ◌≢◌, refl, ap, ◌∙◌, false, [], ◌∷◌, ◌++◌, append_assoc, arith}
use for_visibility.Prelude.Assoc.{Map}
use for_visibility.Text.{Bytes, text, bytes_beq, bytes_beq_iff, bytes_beq_refl}
use for_visibility.Text.Split.{has_byte, split_on-part, split_on-last}
use for_visibility.Gnmi.{Update}
use for_visibility.Exporter.{is_empty, get_key}
use for_visibility.Topology.Names.{iface_peer}
use for_visibility.Topology.Layers.{update_key, or_else, ospf_peer}

beq-ne : (a b : Bytes) → a ≢ b → bytes_beq a b ≡ false
beq-ne a b ne = ground (arith, ne, bytes_beq_iff a b)

empty-ne : (a : Bytes) → a ≢ [] → is_empty a ≡ false
empty-ne [] ne = absurd (ne refl)
empty-ne (c ∷ a) ne = refl

dash_text : (a b : Bytes) → a ++ text "-" ++ b ≡ a ++ 45 ∷ b
unfolding text
dash_text a b = append_assoc a (text "-") b

module _ (self peer : Bytes) (plain_self : has_byte 45 self ≡ false)
    (plain_peer : has_byte 45 peer ≡ false) (ne : peer ≢ self) (some_peer : peer ≢ []) where
  -- Of the interface name "<self>-<peer>" the peer is found, and of "<peer>-<self>" too. The names
  -- have no dash, and the peer's is not empty and not the node's own.
  pub iface_peer-link :
      (iface_peer (self ++ text "-" ++ peer) self ≡ peer)
      × (iface_peer (peer ++ text "-" ++ self) self ≡ peer)
  unfolding iface_peer
  iface_peer-link = (
    rw
        (
          iface_peer,
          dash_text self peer,
          split_on-part 45 self peer plain_self,
          split_on-last 45 peer plain_peer,
          bytes_beq_refl self,
          beq-ne peer self ne,
          empty-ne peer some_peer,
        )
        (ground arith),
    rw
        (
          iface_peer,
          dash_text peer self,
          split_on-part 45 peer self plain_peer,
          split_on-last 45 self plain_self,
          beq-ne peer self ne,
          empty-ne peer some_peer,
        )
        refl,
  )

iface_peer-plain :
    (iface self : Bytes)
    → has_byte 45 iface ≡ false
    → iface ≢ []
    → iface ≢ self
    → iface_peer iface self ≡ iface
unfolding iface_peer
iface_peer-plain iface self plain some_iface ne =
    rw (iface_peer, split_on-last 45 iface plain, beq-ne iface self ne, empty-ne iface some_iface)
      refl

or_else-some : (a b : Bytes) → a ≢ [] → or_else a b ≡ a
or_else-some [] b ne = absurd (ne refl)
or_else-some (c ∷ a) b ne = refl

ospf_peer-def :
    (ip2node : Map Bytes Bytes) (node : Bytes) (u : Update)
    → ospf_peer ip2node node u
      ≡ or_else
          (iface_peer (update_key (text "id") u) node)
          (get_key (update_key (text "router-id") u) ip2node)
unfolding ospf_peer
ospf_peer-def ip2node node u = refl

-- The router id of a neighbor is never asked for on an interface whose name has no dash and is not
-- empty or the node's name: the peer is taken to be the interface itself.
pub ospf_peer-unnamed :
    (ip2node : Map Bytes Bytes) (node : Bytes) (u : Update)
    → has_byte 45 (update_key (text "id") u) ≡ false
    → update_key (text "id") u ≢ []
    → update_key (text "id") u ≢ node
    → ospf_peer ip2node node u ≡ update_key (text "id") u
ospf_peer-unnamed ip2node node u plain some_id ne =
    ospf_peer-def ip2node node u
    ∙ ap (λ p. or_else p (get_key (update_key (text "router-id") u) ip2node))
        (iface_peer-plain (update_key (text "id") u) node plain some_id ne)
    ∙ or_else-some (update_key (text "id") u) _ some_id
