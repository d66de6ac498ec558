-- ===== src/Cgroup.antt =====
-- internal/ingest/cgroup.go: the resource numbers of the container. What the files hold is an
-- argument; no line is longer than the 64 KB that `bufio.Scanner` takes.
pub mod Read
use for_visibility.Prelude.{
  ℕ, ◌-◌, ◌^◌, Bool, true, false, Option, none, some, List, [], ◌∷◌, ◌++◌, leb, if◌then◌else◌,
}
use for_visibility.Prelude.Assoc.{Map, lookup, insert}
use for_visibility.Text.{Bytes, text, bytes_beq, bytes_eq}
use for_visibility.Text.Split.{split_on, trim_space}
use for_visibility.Text.Cidr.{parse_digits}
use for_visibility.Aggregator.Link.{fields}
use for_visibility.Gnmi.{Update, uint_val, elems_path, Effect, cache_update}
use for_visibility.Gnmi.Paths.{plain}

-- The files below the root of the hierarchy; `none` is one that cannot be read.
abbrev pub Files : Type 0
Files = Bytes → Option Bytes

-- strconv.ParseUint(s, 10, 64); `none` is an error
unfoldable pub parse_uint : Bytes → Option ℕ
unfolding parse_digits
parse_uint s = elim (parse_digits s) [
  | none ↦ none
  | some n ↦ if leb n (2 ^ 64 - 1) then some n else none
]

-- a line "key value"
abbrev pub put_line : List Bytes → Map Bytes ℕ → Map Bytes ℕ
put_line (k ∷ v ∷ []) m = elim (parse_uint v) [ some n ↦ insert k n m | none ↦ m ]
put_line _ m = m

abbrev pub put_lines : List Bytes → Map Bytes ℕ → Map Bytes ℕ
put_lines [] m = m
put_lines (line ∷ lines) m = put_lines lines (put_line (fields line) m)

-- readKV
unfoldable pub read_kv : Option Bytes → Map Bytes ℕ
unfolding split_on fields parse_uint
read_kv none = []
read_kv (some s) = put_lines (split_on 10 s) []

-- readUint
unfoldable pub read_uint : Option Bytes → Option ℕ
unfolding parse_uint
read_uint none = none
read_uint (some s) = parse_uint (trim_space s)

-- readLimit: "max" is no limit
unfoldable pub read_limit : Option Bytes → Option ℕ
unfolding parse_uint
read_limit none = none
read_limit (some s) =
    if bytes_beq (trim_space s) (text "max") then none else parse_uint (trim_space s)

-- hostUpdate
unfoldable pub host_update : Bytes → Bytes → ℕ → Update
host_update group leaf v = record {
  path =
      elems_path (plain (text "container") ∷ plain group ∷ plain (text "state") ∷ plain leaf ∷ []);
  val = uint_val v;
}

-- `if ok { ups = append(ups, hostUpdate(group, leaf, v)) }`
unfoldable pub update_of : Bytes → Bytes → Option ℕ → List Update
unfolding host_update
update_of group leaf none = []
update_of group leaf (some v) = host_update group leaf v ∷ []

-- the keys of cpu.stat with their leaves
abbrev pub cpu_leaves : List (Bytes × Bytes)
cpu_leaves =
    (text "usage_usec", text "usage-usec")
    ∷ (text "user_usec", text "user-usec")
    ∷ (text "system_usec", text "system-usec")
    ∷ (text "nr_periods", text "nr-periods")
    ∷ (text "nr_throttled", text "nr-throttled")
    ∷ (text "throttled_usec", text "throttled-usec")
    ∷ []

unfoldable pub cpu_updates : Map Bytes ℕ → List (Bytes × Bytes) → List Update
unfolding update_of
cpu_updates cpu [] = []
cpu_updates cpu ((k, leaf) ∷ leaves) =
    update_of (text "cpu") leaf (lookup k cpu) ++ cpu_updates cpu leaves

abbrev pub host_effects : List Update → List Effect
host_effects [] = []
host_effects (u ∷ ups) = cache_update (text "host") (u ∷ ups) [] ∷ []

-- the updates of a sample
unfoldable pub sample_updates : Files → List Update
unfolding cpu_updates read_kv read_uint read_limit
sample_updates files =
    cpu_updates (read_kv (files (text "/cpu.stat"))) cpu_leaves
    ++ update_of (text "memory") (text "current") (read_uint (files (text "/memory.current")))
    ++ update_of (text "memory") (text "swap-current")
        (read_uint (files (text "/memory.swap.current")))
    ++ update_of (text "memory") (text "max") (read_limit (files (text "/memory.max")))

-- sample
unfoldable pub sample : Files → List Effect
unfolding sample_updates
sample files = host_effects (sample_updates files)
