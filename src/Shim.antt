-- ===== src/Shim.antt =====
-- cmd/frr-visible/main.go: what the entry point starts, in which order, and what ends the process.
-- Listening and the library's server are parameters: whether they return an error.
pub mod Routes
pub mod Essential
pub mod Host
pub mod Inputs
pub mod Neighbors
pub mod Monitor
pub mod Served
use for_visibility.Prelude.{
  ℕ, Bool, true, false, not, ◌==◌, Option, none, some, List, [], ◌∷◌, ◌++◌, if◌then◌else◌,
}
use for_visibility.Text.{Bytes, text}
use for_visibility.Exporter.{is_empty}

-- What `main` starts and can return; the FPM ingester runs in `main` itself. The loop of the
-- correlator, which starts first, never returns.
pub data Part : Type 0 where
  trace_http gnmi bmp netlink lldp cgroup ospf fpm : Part

pub record Flags : Type 0 where
  pub gnmi_addr : Bytes
  pub fpm_addr : Bytes
  pub bmp_addr : Bytes
  pub target : Bytes
  pub ospf_reconcile : ℕ
  pub trace_http_addr : Bytes

-- the defaults of the flags
abbrev pub default_flags : Flags
default_flags = record {
  gnmi_addr = text ":9339";
  fpm_addr = text ":2620";
  bmp_addr = text ":5000";
  target = text "frr";
  ospf_reconcile = 0;
  trace_http_addr = text ":9340";
}

-- the parts to which `main` gives the correlator by SetCorrelator
unfoldable pub correlated : Part → Bool
correlated fpm = true
correlated bmp = true
correlated netlink = true
correlated ospf = true
correlated lldp = false
correlated cgroup = false
correlated trace_http = false
correlated gnmi = false

-- `new_server` says that gnmiserver.New returned no error, `listens addr` the same of net.Listen.
pub record Env : Type 0 where
  pub new_server : Bool
  pub listens : Bytes → Bool

-- the ingesters in the order in which `main` starts them
abbrev pub ingesters : List Part
ingesters = bmp ∷ netlink ∷ lldp ∷ cgroup ∷ ospf ∷ fpm ∷ []

-- What runs when `main` comes to the FPM ingester; `none` is the exit by log.Fatalf.
unfoldable pub start_up : Flags → Env → Option (List Part)
start_up f env =
    let traces = if is_empty f.trace_http_addr then [] else trace_http ∷ [] in
    if not env.new_server
    then none
    else if not (env.listens f.gnmi_addr)
    then none
    else some (traces ++ gnmi ∷ ingesters)

-- Whether the process ends when a part returns: `failed` is `err != nil`. After the FPM ingester
-- `main` itself is at its end.
unfoldable pub ends_process : Part → Bool → Bool
ends_process gnmi failed = failed
ends_process bmp failed = failed
ends_process fpm failed = true
ends_process trace_http failed = false
ends_process netlink failed = false
ends_process lldp failed = false
ends_process cgroup failed = false
ends_process ospf failed = false

-- the number of a part, to compare two
abbrev pub part_id : Part → ℕ
part_id trace_http = 0
part_id gnmi = 1
part_id bmp = 2
part_id netlink = 3
part_id lldp = 4
part_id cgroup = 5
part_id ospf = 6
part_id fpm = 7

unfoldable pub without : Part → List Part → List Part
without p [] = []
without p (q ∷ parts) =
    let rest = without p parts in if part_id q == part_id p then rest else q ∷ rest

-- Parts return one after another; `none` is the end of the process.
unfoldable pub run_process : List Part → List (Part × Bool) → Option (List Part)
unfolding without ends_process
run_process parts [] = some parts
run_process parts ((p, failed) ∷ returned) =
    let rest = run_process (without p parts) returned in
    if ends_process p failed then none else rest
