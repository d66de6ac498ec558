-- ===== src/Exporter/Clients.antt =====
-- The map of clients of the exporters (`client`), and that it makes no difference to what is asked.
-- A client stands for the address that it was dialled with; `dials` says for which addresses
-- grpc.NewClient returns no error.
use for_visibility.Prelude.{
  ◌≡◌, refl, subst, ◌∙◌, Bool, true, false, Option, none, some, inl, inr, Option-cases, Bool-cases,
  arith, if◌then◌else◌,
}
use for_visibility.Prelude.Assoc.{Map, lookup, insert, lookup-insert}
use for_visibility.Text.{Bytes, bytes_beq, bytes_eq, bytes_beq_iff}
use for_visibility.Exporter.{address}

-- the client that is made for an address, and the map after it
abbrev pub dialled :
    (Bytes → Bool) → Map Bytes Bytes → Bytes → Bytes → Option Bytes × Map Bytes Bytes
dialled dials clients node addr =
    if dials addr then (some addr, insert node addr clients) else (none, clients)

abbrev pub new_client :
    (Bytes → Bool) → Map Bytes Bytes → Bytes → Option Bytes → Option Bytes × Map Bytes Bytes
new_client dials clients node none = (none, clients)
new_client dials clients node (some addr) = dialled dials clients node addr

-- client
unfoldable pub client :
    (Bytes → Bool) → Map Bytes Bytes → Map Bytes Bytes → Bytes → Option Bytes × Map Bytes Bytes
unfolding address
client dials inventory clients node = elim (lookup node clients) [
  | some c ↦ (some c, clients)
  | none ↦ new_client dials clients node (address inventory node)
]

-- Every client was dialled with the address of its node, without an error.
abbrev pub IsDialled : (Bytes → Bool) → Map Bytes Bytes → Map Bytes Bytes → Type 0
IsDialled dials inventory clients =
    (node addr : Bytes)
    → lookup node clients ≡ some addr
    → (address inventory node ≡ some addr) × (dials addr ≡ true)

abbrev pub reachable : (Bytes → Bool) → Option Bytes → Option Bytes
reachable dials none = none
reachable dials (some addr) = if dials addr then some addr else none

module _ (dials : Bytes → Bool) (inventory clients : Map Bytes Bytes) (node : Bytes) where
  insert-IsDialled :
      (addr : Bytes)
      → IsDialled dials inventory clients
      → address inventory node ≡ some addr
      → dials addr ≡ true
      → IsDialled dials inventory (insert node addr clients)
  insert-IsDialled addr h here fine n a found = elim (Bool-cases (bytes_beq node n)) [
    | inl same ↦
        let e = (bytes_beq_iff node n).0 same in
        let now : some addr ≡ some a =
          ground (arith, found, same, lookup-insert n node addr clients) in
        (
          subst (λ m. address inventory m ≡ some a) e (here ∙ now),
          subst (λ o. reachable_text o ≡ true) now fine,
        )
    | inr other ↦ h n a (ground (arith, found, other, lookup-insert n node addr clients))
  ]
    where
      reachable_text : Option Bytes → Bool
      reachable_text none = false
      reachable_text (some b) = dials b

  -- The client of a node is the one of its address in the inventory, kept or new; the map stays a map
  -- of such clients.
  pub client-address :
      IsDialled dials inventory clients
      → ((client dials inventory clients node).0 ≡ reachable dials (address inventory node))
        × IsDialled dials inventory (client dials inventory clients node).1
  unfolding client
  client-address h = elim (Option-cases (lookup node clients)) [
    | inr (c, kept) ↦ let (here, fine) = h node c kept in rw (client, kept, here, fine) (refl, h)
    | inl fresh ↦ elim (Option-cases (address inventory node)) [
      | inl unknown ↦ rw (client, fresh, unknown) (refl, h)
      | inr (addr, here) ↦ elim (Bool-cases (dials addr)) [
        | inl fine ↦ rw (client, fresh, here, fine) (refl, insert-IsDialled addr h here fine)
        | inr bad ↦ rw (client, fresh, here, bad) (refl, h)
      ]
    ]
  ]
