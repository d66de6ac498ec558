-- ===== src/Server.antt =====
-- internal/gnmiserver/server.go: the snapshot `Get`, and the target that `Recv` puts into a
-- subscription. `CompletePath` and the cache's `Query` are in openconfig/gnmi, not in the repository:
-- they are parameters. Of their errors only the fact is used.
pub mod Subscribe
pub mod Capabilities
use for_visibility.Prelude.{
  ◌≡◌, ◌≢◌, ◌⊎◌, refl, sym, ap, ◌∙◌, Option, none, some, List, [], ◌∷◌, ◌++◌, append_assoc,
  append-nil, Option-cases, inl, inr, arith,
}
use for_visibility.Text.{Bytes}
use for_visibility.Gnmi.{GnmiPath, Notification}

-- `complete prefix path` is CompletePath, and `query target path` the notifications that Query
-- visits, in order; `none` is an error.
pub record Backend : Type 0 where
  pub complete : GnmiPath → GnmiPath → Option (List Bytes)
  pub query : Bytes → List Bytes → Option (List Notification)

-- codes.InvalidArgument, codes.NotFound, and the response
pub data Answer : Type 0 where
  invalid_argument : Answer
  not_found : Answer
  response : List Notification → Answer

pub record GetRequest : Type 0 where
  pub prefix : GnmiPath
  pub path : List GnmiPath

abbrev pub empty_path : GnmiPath
empty_path = record { target = []; origin = []; elem = [] }

-- `if target == "" { target = own }`
abbrev pub or_own : Bytes → Bytes → Bytes
or_own [] own = own
or_own (c ∷ target) own = c ∷ target

-- an empty list of paths asks for everything
abbrev pub or_whole : List GnmiPath → List GnmiPath
or_whole [] = empty_path ∷ []
or_whole (p ∷ paths) = p ∷ paths

-- The loop over the paths, from `notifs` on.
unfoldable pub get_loop : Backend → Bytes → GnmiPath → List GnmiPath → List Notification → Answer
get_loop b target prefix [] notifs = response notifs
get_loop b target prefix (p ∷ paths) notifs = elim (b.complete prefix p) [
  | none ↦ invalid_argument
  | some query ↦ elim (b.query target query) [
    | none ↦ not_found
    | some found ↦ get_loop b target prefix paths (notifs ++ found)
  ]
]

-- (*Server).Get of a server whose cache has the target `own`
unfoldable pub get_snapshot : Backend → Bytes → GetRequest → Answer
unfolding get_loop
get_snapshot b own req = get_loop b (or_own req.prefix.target own) req.prefix (or_whole req.path) []

-- what `Recv` makes of the prefix of a subscription; `none` is a prefix that is not there
unfoldable pub default_prefix : Bytes → Option GnmiPath → GnmiPath
default_prefix own none = record empty_path { target = own }
default_prefix own (some prefix) = record prefix { target = or_own prefix.target own }

abbrev pub behind : List Notification → Answer → Answer
behind ns invalid_argument = invalid_argument
behind ns not_found = not_found
behind ns (response ms) = response (ns ++ ms)

behind-append :
    (ns ms : List Notification) (a : Answer) → behind (ns ++ ms) a ≡ behind ns (behind ms a)
behind-append ns ms invalid_argument = refl
behind-append ns ms not_found = refl
behind-append ns ms (response ks) = ap response (append_assoc ns ms ks)

-- the path of a request is found in the cache, with these notifications
abbrev pub Finds : Backend → Bytes → GnmiPath → GnmiPath → List Notification → Type 0
Finds b target prefix p ns =
    (q : List Bytes) × (b.complete prefix p ≡ some q) × (b.query target q ≡ some ns)

-- every path of a list is found, and these are the notifications of each
abbrev pub FindsAll : Backend → Bytes → GnmiPath → List GnmiPath → List (List Notification) → Type 0
FindsAll b target prefix [] [] = Unit {0}
FindsAll b target prefix [] (ns ∷ found) = ⊥
FindsAll b target prefix (p ∷ paths) [] = ⊥
FindsAll b target prefix (p ∷ paths) (ns ∷ found) =
    Finds b target prefix p ns × FindsAll b target prefix paths found

abbrev pub concat : List (List Notification) → List Notification
concat [] = []
concat (ns ∷ found) = ns ++ concat found

-- What the answer to a list of paths has to be.
abbrev pub Outcome : Backend → Bytes → GnmiPath → List GnmiPath → Answer → Type 0
Outcome b target prefix paths (response ns) =
    (found : List (List Notification)) × FindsAll b target prefix paths found × (ns ≡ concat found)
Outcome b target prefix paths invalid_argument =
    (before after : List GnmiPath) × (p : GnmiPath) × (found : List (List Notification)) × (paths
      ≡ before ++ p ∷ after)
    × FindsAll b target prefix before found
    × (b.complete prefix p ≡ none)
Outcome b target prefix paths not_found =
    (before after : List GnmiPath) × (p : GnmiPath) × (found : List (List Notification)) × (q : List
      Bytes)
    × (paths ≡ before ++ p ∷ after)
    × FindsAll b target prefix before found
    × (b.complete prefix p ≡ some q)
    × (b.query target q ≡ none)

module _ (b : Backend) (target : Bytes) (prefix : GnmiPath) where
  -- a path that is found stands before the others
  found-Outcome :
      (p : GnmiPath) (ns : List Notification) (paths : List GnmiPath) (a : Answer)
      → Finds b target prefix p ns
      → Outcome b target prefix paths a
      → Outcome b target prefix (p ∷ paths) (behind ns a)
  found-Outcome p ns paths (response ms) f (found, all, e) =
      (ns ∷ found, (f, all), ap (λ t. ns ++ t) e)
  found-Outcome p ns paths invalid_argument f (before, after, q, found, e, all, bad) =
      (p ∷ before, after, q, ns ∷ found, ap (λ t. p ∷ t) e, (f, all), bad)
  found-Outcome p ns paths not_found f (before, after, p', found, q, e, all, good, bad) =
      (p ∷ before, after, p', ns ∷ found, q, ap (λ t. p ∷ t) e, (f, all), good, bad)

  -- the notifications of the paths before stand in front
  get_loop-behind :
      (paths : List GnmiPath) (ns : List Notification)
      → get_loop b target prefix paths ns ≡ behind ns (get_loop b target prefix paths [])
  unfolding get_loop
  get_loop-behind [] ns = ap response (sym (append-nil ns))
  get_loop-behind (p ∷ paths) ns = elim (Option-cases (b.complete prefix p)) [
    | inl bad ↦ rw (get_loop, bad) refl
    | inr (query, good) ↦ elim (Option-cases (b.query target query)) [
      | inl bad ↦ rw (get_loop, good, bad) refl
      | inr (found, fine) ↦
          rw (get_loop, good, fine)
            (get_loop-behind paths (ns ++ found)
              ∙ behind-append ns found (get_loop b target prefix paths [])
              ∙ ap (behind ns) (sym (get_loop-behind paths found)))
    ]
  ]

  get_loop-Outcome :
      (paths : List GnmiPath) → Outcome b target prefix paths (get_loop b target prefix paths [])
  unfolding get_loop
  get_loop-Outcome [] = ([], tt, refl)
  get_loop-Outcome (p ∷ paths) = elim (Option-cases (b.complete prefix p)) [
    | inl bad ↦ rw (get_loop, bad) ([], paths, p, [], refl, tt, bad)
    | inr (query, good) ↦ elim (Option-cases (b.query target query)) [
      | inl bad ↦ rw (get_loop, good, bad) ([], paths, p, [], query, refl, tt, good, bad)
      | inr (found, fine) ↦
          rw (get_loop, good, fine, get_loop-behind paths found)
            (found-Outcome p found paths (get_loop b target prefix paths []) (query, good, fine)
              (get_loop-Outcome paths))
    ]
  ]

-- the target and the paths that a request is about
abbrev pub Asks : Bytes → GetRequest → Bytes → List GnmiPath → Type 0
Asks own req target paths =
    (((req.prefix.target ≡ []) × (target ≡ own))
      ⊎ ((req.prefix.target ≢ []) × (target ≡ req.prefix.target)))
    × (((req.path ≡ []) × (paths ≡ record { target = []; origin = []; elem = [] } ∷ []))
        ⊎ ((req.path ≢ []) × (paths ≡ req.path)))

or_own-eq :
    (t own target : Bytes)
    → ((t ≡ []) × (target ≡ own)) ⊎ ((t ≢ []) × (target ≡ t))
    → or_own t own ≡ target
or_own-eq [] own target (inl (e, same)) = sym same
or_own-eq [] own target (inr (ne, same)) = absurd (ne refl)
or_own-eq (c ∷ t) own target (inl (e, same)) = absurd (ground (arith, e))
or_own-eq (c ∷ t) own target (inr (ne, same)) = sym same

or_whole-eq :
    (ps paths : List GnmiPath)
    → ((ps ≡ []) × (paths ≡ empty_path ∷ [])) ⊎ ((ps ≢ []) × (paths ≡ ps))
    → or_whole ps ≡ paths
or_whole-eq [] paths (inl (e, same)) = sym same
or_whole-eq [] paths (inr (ne, same)) = absurd (ne refl)
or_whole-eq (p ∷ ps) paths (inl (e, same)) = absurd (ground (arith, e))
or_whole-eq (p ∷ ps) paths (inr (ne, same)) = sym same

-- A Get is about its own target and its own paths; without a target it is about the server's, and
-- without paths about the empty path alone. Its answer is a response only if the cache finds every
-- path, and then it has the notifications of each, in order. It is an InvalidArgument only if a
-- path cannot be completed, and a NotFound only if one is completed and the query fails; all
-- paths before that one are found.
pub get_snapshot-Outcome :
    (b : Backend) (own : Bytes) (req : GetRequest) (target : Bytes) (paths : List GnmiPath)
    → Asks own req target paths
    → Outcome b target req.prefix paths (get_snapshot b own req)
unfolding get_snapshot
get_snapshot-Outcome b own req target paths (whom, what) =
    rw (or_own-eq req.prefix.target own target whom, or_whole-eq req.path paths what)
      (get_loop-Outcome b target req.prefix paths)
