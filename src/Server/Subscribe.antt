-- ===== src/Server/Subscribe.antt =====
-- internal/gnmiserver/server.go: `Subscribe` hands the stream of the client to the library's server
-- behind `Recv`, which puts in the target of the cache.
use for_visibility.Prelude.{◌≡◌, refl, ap, false, Option, none, some, [], ◌∷◌}
use for_visibility.Text.{Bytes}
use for_visibility.Exporter.{is_empty}
use for_visibility.Gnmi.{GnmiPath}
use for_visibility.Subtest.{SubscribeRequest}
use for_visibility.Server.{empty_path, or_own, default_prefix}

-- What the stream of the client gives: a SubscribeRequest with a subscription list, one with anything
-- else or nothing in it, or the error of its end.
pub data Incoming : Type 0 where
  subscribe : SubscribeRequest → Incoming
  no_subscribe : Incoming
  recv_error : Incoming

-- (*targetDefaultingStream).Recv of a server whose cache has the target `own`
unfoldable pub recv : Bytes → Incoming → Incoming
unfolding default_prefix
recv own recv_error = recv_error
recv own no_subscribe = no_subscribe
recv own (subscribe sub) = subscribe (record sub { prefix = some (default_prefix own sub.prefix) })

-- What the library's server accepts: a prefix with a target.
abbrev pub IsTargeted : Incoming → Type 0
IsTargeted recv_error = Unit
IsTargeted no_subscribe = Unit
IsTargeted (subscribe sub) = (p : GnmiPath) × (sub.prefix ≡ some p) × (is_empty p.target ≡ false)

-- the target that a request names
abbrev pub target_of : Option GnmiPath → Bytes
target_of none = []
target_of (some p) = p.target

or_own-full : (target own : Bytes) → is_empty own ≡ false → is_empty (or_own target own) ≡ false
or_own-full [] own full = full
or_own-full (c ∷ target) own full = refl

or_own-twice : (target own : Bytes) → or_own (or_own target own) own ≡ or_own target own
or_own-twice [] [] = refl
or_own-twice [] (c ∷ own) = refl
or_own-twice (c ∷ target) own = refl

default_prefix-full :
    (own : Bytes) (prefix : Option GnmiPath)
    → is_empty own ≡ false
    → is_empty (default_prefix own prefix).target ≡ false
unfolding default_prefix
default_prefix-full own none full = full
default_prefix-full own (some p) full = or_own-full p.target own full

default_prefix-twice :
    (own : Bytes) (prefix : Option GnmiPath)
    → default_prefix own (some (default_prefix own prefix)) ≡ default_prefix own prefix
unfolding default_prefix
default_prefix-twice own none =
    ap (λ target. record empty_path { target = target }) (or_own-twice [] own)
default_prefix-twice own (some p) =
    ap (λ target. record p { target = target }) (or_own-twice p.target own)

-- Whatever the client sends, behind `Recv` every subscription has a prefix with a target, if the
-- cache's own is not empty; and a second `Recv` would change nothing.
pub recv-IsTargeted :
    (own : Bytes) (r : Incoming)
    → is_empty own ≡ false
    → IsTargeted (recv own r) × (recv own (recv own r) ≡ recv own r)
unfolding recv
recv-IsTargeted own recv_error full = (tt, refl)
recv-IsTargeted own no_subscribe full = (tt, refl)
recv-IsTargeted own (subscribe sub) full = (
  (default_prefix own sub.prefix, refl, default_prefix-full own sub.prefix full),
  ap (λ p. subscribe (record sub { prefix = some p })) (default_prefix-twice own sub.prefix),
)

-- A subscription asks for the target that a Get with the same prefix asks for.
pub recv-target :
    (own : Bytes) (prefix : Option GnmiPath)
    → (default_prefix own prefix).target ≡ or_own (target_of prefix) own
unfolding default_prefix
recv-target own none = refl
recv-target own (some p) = refl
