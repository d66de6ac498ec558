-- ===== src/Netlink/Kernel.antt =====
-- The types of vishvananda/netlink, as far as internal/ingest/netlink.go reads them, and what the
-- kernel answers to the calls of that package.
use for_visibility.Prelude.{ℕ, Bool, Option, List}
use for_visibility.Text.{Bytes}
use for_visibility.Text.Address.{Ip}

pub data OperState : Type 0 where
  oper_unknown oper_not_present oper_down oper_lower_layer_down : OperState
  oper_testing oper_dormant oper_up : OperState

pub record Statistics : Type 0 where
  pub rx_bytes : ℕ
  pub tx_bytes : ℕ
  pub rx_packets : ℕ
  pub tx_packets : ℕ
  pub rx_errors : ℕ
  pub tx_errors : ℕ
  pub rx_dropped : ℕ
  pub tx_dropped : ℕ

pub record LinkAttrs : Type 0 where
  pub name : Bytes
  pub index : ℕ
  pub mtu : ℕ
  pub up : Bool
  pub oper_state : OperState
  pub link_type : Bytes
  pub statistics : Option Statistics

pub record Neigh : Type 0 where
  pub bridge : Bool
  pub hardware_addr : Bytes
  pub vlan : ℕ
  pub link_index : ℕ

-- `new_dst` are the labels when NewDst is an MPLSDestination; `via` and `gw` are empty for nil.
pub record MplsRoute : Type 0 where
  pub mpls_dst : Option ℕ
  pub new_dst : Option (List ℕ)
  pub via : Ip
  pub gw : Ip
  pub link_index : ℕ

-- An address of a link; `ip_net` says that it has an IPNet, of `prefix_len` bits.
pub record Addr : Type 0 where
  pub ip_net : Bool
  pub ip : Ip
  pub prefix_len : ℕ

-- What the kernel answers; `none` is an error.
pub record KernelView : Type 0 where
  pub link_list : Option (List LinkAttrs)
  pub neigh_list : Option (List Neigh)
  pub mpls_list : Option (List MplsRoute)
  pub addr_list : LinkAttrs → Option (List Addr)
  pub link_by_index : ℕ → Option LinkAttrs
