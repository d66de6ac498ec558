-- ===== src/Shim/Inputs.antt =====
-- The ingesters together: what comes in from the daemons and the kernel, in any order. A connection
-- is one input here.
use for_visibility.Prelude.{
  ℕ, Bool, List, [], ◌∷◌, ◌++◌, All, All-append, Option, Run, returns, ◌>>=◌, map,
}
use for_visibility.Gnmi.{Effect}
use for_visibility.Vrf.{Kernel}
use for_visibility.Fpm.Nexthop.{Fpm}
use for_visibility.Fpm.Stream.{handle as fpm_handle}
use for_visibility.Bmp.Peer.{Bmp}
use for_visibility.Bmp.Stream.{handle as bmp_handle}
use for_visibility.Ospf.{Ospf, Neighbors, reconcile as ospf_reconcile}
use for_visibility.Lldp.{Lldp, reconcile as lldp_reconcile}
use for_visibility.Lldp.Values.{Fields}
use for_visibility.Netlink.{
  LinkAttrs, KernelView, Neigh, link_event, neigh_event, snapshot, counter_tick,
}
use for_visibility.Cgroup.{Files, sample}
use for_visibility.Text.{Bytes}
use for_visibility.Shim.{Part, fpm, bmp, netlink, lldp, cgroup, ospf}
use for_visibility.Shim.Served.{IsServed, AllServed, RunHolds, returns-RunHolds, bind-RunHolds}
use for_visibility.Shim.Routes.{fpm-RunServed}
use for_visibility.Shim.Monitor.{bmp-RunServed}
use for_visibility.Shim.Host.{
  link_event-AllServed, neigh_event-AllServed, snapshot-AllServed, counter_tick-AllServed,
}
use for_visibility.Shim.Neighbors.{ospf-AllServed, lldp-AllServed, cgroup-AllServed}

-- the ingesters that have a state
pub record Ingesters : Type 0 where
  pub fpm_state : Fpm
  pub bmp_state : Bmp
  pub ospf_state : Ospf
  pub lldp_state : Lldp

-- A connection of zebra or of bgpd with all it sends, an answer of vtysh or of lldpcli, an event or
-- a dump of the kernel, and the files of the cgroup.
pub data Input : Type 0 where
  zebra : (ℕ → Kernel) → Bytes → Input
  bgpd : (ℕ → Kernel) → Bytes → Input
  vtysh : Option (Option Neighbors) → Input
  lldpcli : Option (Option Fields) → Input
  link_message : Bool → LinkAttrs → Input
  neigh_message : KernelView → Bool → Neigh → Input
  dump : KernelView → Input
  poll : KernelView → Input
  files_read : Files → Input

-- the effects of a part, in a log of all parts
abbrev pub log_of : Part → List Effect → List (Part × Effect)
log_of part effects = map (λ e. (part, e)) effects

unfoldable pub handle_input : Ingesters → Input → Run (Ingesters × List (Part × Effect))
unfolding fpm_handle bmp_handle ospf_reconcile lldp_reconcile link_event neigh_event snapshot
    counter_tick sample
handle_input s (zebra kernel stream) = fpm_handle kernel s.fpm_state stream >>= λ (f, effects).
    returns (record s { fpm_state = f }, log_of fpm effects)
handle_input s (bgpd kernel stream) = bmp_handle kernel s.bmp_state stream >>= λ (b, effects).
    returns (record s { bmp_state = b }, log_of bmp effects)
handle_input s (vtysh out) =
    let (o, effects) = ospf_reconcile s.ospf_state out in
    returns (record s { ospf_state = o }, log_of ospf effects)
handle_input s (lldpcli out) =
    let (l, effects) = lldp_reconcile s.lldp_state out in
    returns (record s { lldp_state = l }, log_of lldp effects)
handle_input s (link_message del a) = returns (s, log_of netlink (link_event del a))
handle_input s (neigh_message kernel del n) = returns (s, log_of netlink (neigh_event kernel del n))
handle_input s (dump kernel) = returns (s, log_of netlink (snapshot kernel))
handle_input s (poll kernel) = returns (s, log_of netlink (counter_tick kernel))
handle_input s (files_read files) = returns (s, log_of cgroup (sample files))

unfoldable pub handle_inputs : Ingesters → List Input → Run (Ingesters × List (Part × Effect))
unfolding handle_input
handle_inputs s [] = returns (s, [])
handle_inputs s (i ∷ inputs) = handle_input s i >>= λ (s', effects).
    handle_inputs s' inputs >>= λ (s'', more). returns (s'', effects ++ more)

abbrev pub IsLogged : Part × Effect → Type 0
IsLogged (part, e) = IsServed part e

abbrev pub Logged : Ingesters × List (Part × Effect) → Type 0
Logged (s, effects) = All IsLogged effects

log_of-IsLogged :
    (part : Part) (effects : List Effect)
    → AllServed part effects
    → All IsLogged (log_of part effects)
log_of-IsLogged part [] h = tt
log_of-IsLogged part (e ∷ effects) (here, h) = (here, log_of-IsLogged part effects h)

handle_input-Logged : (s : Ingesters) (i : Input) → RunHolds Logged (handle_input s i)
unfolding handle_input
handle_input-Logged s (zebra kernel stream) =
    bind-RunHolds Logged _ (fpm_handle kernel s.fpm_state stream) _
      (fpm-RunServed kernel s.fpm_state stream)
      λ (f, effects) h. returns-RunHolds Logged _ (log_of-IsLogged fpm effects h)
handle_input-Logged s (bgpd kernel stream) =
    bind-RunHolds Logged _ (bmp_handle kernel s.bmp_state stream) _
      (bmp-RunServed kernel s.bmp_state stream)
      λ (b, effects) h. returns-RunHolds Logged _ (log_of-IsLogged bmp effects h)
handle_input-Logged s (vtysh out) =
    returns-RunHolds Logged _ (log_of-IsLogged ospf _ (ospf-AllServed s.ospf_state out))
handle_input-Logged s (lldpcli out) =
    returns-RunHolds Logged _ (log_of-IsLogged lldp _ (lldp-AllServed s.lldp_state out))
handle_input-Logged s (link_message del a) =
    returns-RunHolds Logged _ (log_of-IsLogged netlink _ (link_event-AllServed del a))
handle_input-Logged s (neigh_message kernel del n) =
    returns-RunHolds Logged _ (log_of-IsLogged netlink _ (neigh_event-AllServed kernel del n))
handle_input-Logged s (dump kernel) =
    returns-RunHolds Logged _ (log_of-IsLogged netlink _ (snapshot-AllServed kernel))
handle_input-Logged s (poll kernel) =
    returns-RunHolds Logged _ (log_of-IsLogged netlink _ (counter_tick-AllServed kernel))
handle_input-Logged s (files_read files) =
    returns-RunHolds Logged _ (log_of-IsLogged cgroup _ (cgroup-AllServed files))

-- Whatever the daemons and the kernel send, in any order: unless the shim panics, every path that an
-- ingester updates or deletes belongs to a model that Capabilities advertises, and every event comes
-- from an ingester to which `main` gives the correlator.
pub handle_inputs-Logged :
    (s : Ingesters) (inputs : List Input) → RunHolds Logged (handle_inputs s inputs)
unfolding handle_inputs
handle_inputs-Logged s [] = returns-RunHolds Logged (s, []) tt
handle_inputs-Logged s (i ∷ inputs) =
    bind-RunHolds Logged Logged (handle_input s i) _ (handle_input-Logged s i) λ (s', effects) h.
      bind-RunHolds Logged Logged (handle_inputs s' inputs) _ (handle_inputs-Logged s' inputs)
        λ (s'', more) rest.
          returns-RunHolds Logged (s'', effects ++ more) (All-append IsLogged effects more h rest)
