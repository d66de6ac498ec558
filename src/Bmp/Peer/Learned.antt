-- ===== src/Bmp/Peer/Learned.antt =====
-- Under which network instance a BGP neighbor is filed.
use for_visibility.Prelude.{
  ◌≡◌, ◌≢◌, refl, ◌⊎◌, inl, inr, Bool, none, some, List, [], ◌∷◌, if◌then◌else◌, arith,
  Option-cases,
}
use for_visibility.Prelude.Assoc.{lookup, lookup-insert, lookup-insert_self}
use for_visibility.Text.{Bytes, bytes_beq_iff, bytes_eq}
use for_visibility.Vrf.{Kernel, non_default_names}
use for_visibility.Bmp.Peer.{
  Bmp, per_peer, peer_up_vrf, sole, learn, learn_new, rd_instance, peer_instance, peer_known,
  peer_state,
}

module _ (j n : Bytes) where
  learn-keeps :
      (b : Bmp) (rd name : Bytes)
      → lookup rd b.rd_vrf ≡ none
      → lookup j b.rd_vrf ≡ some n
      → lookup j (learn b rd name).0.rd_vrf ≡ some n
  unfolding learn
  learn-keeps b rd name unknown known =
      ground (arith, lookup-insert j rd name b.rd_vrf, bytes_beq_iff rd j)

  learn_new-keeps :
      (kernel : Kernel) (b : Bmp) (rd told : Bytes)
      → lookup rd b.rd_vrf ≡ none
      → lookup j b.rd_vrf ≡ some n
      → lookup j (learn_new kernel b rd told).0.rd_vrf ≡ some n
  learn_new-keeps kernel b rd [] unknown known =
      unfold learn_new in
      learn-keeps (record b { vrf = (non_default_names kernel b.vrf).1 }) rd
        (sole (non_default_names kernel b.vrf).0) unknown known
  learn_new-keeps kernel b rd (c ∷ told) unknown known =
      unfold learn_new in learn-keeps b rd (c ∷ told) unknown known

  rd_instance-keeps :
      (kernel : Kernel) (b : Bmp) (rd body : Bytes) (up : Bool)
      → lookup j b.rd_vrf ≡ some n
      → lookup j (rd_instance kernel b rd body up).0.rd_vrf ≡ some n
  rd_instance-keeps kernel b rd body up known = elim (Option-cases (lookup rd b.rd_vrf)) [
    | inl e ↦
        unfold rd_instance in
        rw (e, rd_instance)
          (learn_new-keeps kernel b rd (if up then peer_up_vrf body else []) e known)
    | inr (name, e) ↦ unfold rd_instance in rw (e, rd_instance) known
  ]

  peer_instance-keeps :
      (kernel : Kernel) (b : Bmp) (rd body : Bytes) (up : Bool)
      → lookup j b.rd_vrf ≡ some n
      → lookup j (peer_instance kernel b rd body up).0.rd_vrf ≡ some n
  unfolding peer_instance
  peer_instance-keeps kernel b rd body up known =
      ground (arith, rd_instance-keeps kernel b rd body up known)

  -- A VRF name, once learned for a route distinguisher, is never changed by a later message.
  pub peer_state-keeps :
      (kernel : Kernel) (b : Bmp) (body : Bytes) (up : Bool)
      → lookup j b.rd_vrf ≡ some n
      → lookup j (peer_state kernel b body up).0.rd_vrf ≡ some n
  peer_state-keeps kernel b body up known = elim (Option-cases (per_peer body)) [
    | inl e ↦ unfold peer_state in rw (e, peer_state) known
    | inr (h, e) ↦
        unfold peer_state in
        rw (e, peer_state)
          (unfold peer_known in ground (arith, peer_instance-keeps kernel b h.rd body up known))
  ]

-- Peer Up and Peer Down messages, each with what the kernel answers during it
pub record PeerMsg : Type 0 where
  pub kernel : Kernel
  pub body : Bytes
  pub up : Bool

unfoldable pub peer_states : Bmp → List PeerMsg → Bmp
peer_states b [] = b
peer_states b (m ∷ ms) = peer_states (peer_state m.kernel b m.body m.up).0 ms

peer_states-keeps :
    (j n : Bytes) (b : Bmp) (ms : List PeerMsg)
    → lookup j b.rd_vrf ≡ some n
    → lookup j (peer_states b ms).rd_vrf ≡ some n
unfolding peer_states
peer_states-keeps j n b [] known = known
peer_states-keeps j n b (m ∷ ms) known =
    peer_states-keeps j n (peer_state m.kernel b m.body m.up).0 ms
      (peer_state-keeps j n m.kernel b m.body m.up known)

rd_instance-known :
    (kernel : Kernel) (b : Bmp) (rd body n : Bytes) (up : Bool)
    → lookup rd b.rd_vrf ≡ some n
    → (rd_instance kernel b rd body up).1 ≡ n
rd_instance-known kernel b rd body n up e = unfold rd_instance in rw (e, rd_instance)

-- Once a route distinguisher has a name, every later Peer Up or Peer Down of that distinguisher is
-- filed under that name, whatever messages came in between and whatever VRFs the kernel shows by then.
pub peer_instance-stable :
    (b : Bmp) (rd n : Bytes) (ms : List PeerMsg) (kernel : Kernel) (body : Bytes) (up : Bool)
    → rd ≢ []
    → lookup rd b.rd_vrf ≡ some n
    → (peer_instance kernel (peer_states b ms) rd body up).1 ≡ n
peer_instance-stable b [] n ms kernel body up named known = absurd (named refl)
peer_instance-stable b (c ∷ rd) n ms kernel body up named known =
    unfold peer_instance in
    rd_instance-known kernel (peer_states b ms) (c ∷ rd) body n up
      (peer_states-keeps (c ∷ rd) n b ms known)

-- A name was learned, or none was found and nothing was learned.
abbrev pub Learns : Bytes → Bmp → Bmp × Bytes → Type 0
Learns rd b r =
    (lookup rd r.0.rd_vrf ≡ some r.1)
    ⊎ ((r.1 ≡ rd) × (lookup rd r.0.rd_vrf ≡ none) × (r.0.rd_vrf ≡ b.rd_vrf))

learn-Learns :
    (b : Bmp) (rd name : Bytes) → lookup rd b.rd_vrf ≡ none → Learns rd b (learn b rd name)
unfolding learn
learn-Learns b rd [] e = inr (refl, e, refl)
learn-Learns b rd (c ∷ name) e = inl (lookup-insert_self rd (c ∷ name) b.rd_vrf)

learn_new-Learns :
    (kernel : Kernel) (b : Bmp) (rd told : Bytes)
    → lookup rd b.rd_vrf ≡ none
    → Learns rd b (learn_new kernel b rd told)
unfolding learn_new
learn_new-Learns kernel b rd [] e =
    learn-Learns (record b { vrf = (non_default_names kernel b.vrf).1 }) rd
      (sole (non_default_names kernel b.vrf).0) e
learn_new-Learns kernel b rd (c ∷ told) e = learn-Learns b rd (c ∷ told) e

-- A Peer Up or Peer Down of a distinguisher leaves it with the name under which the neighbor is
-- filed; or no name is found, and the neighbor is filed under the distinguisher itself and nothing
-- is learned.
pub rd_instance-Learns :
    (kernel : Kernel) (b : Bmp) (rd body : Bytes) (up : Bool)
    → Learns rd b (rd_instance kernel b rd body up)
unfolding rd_instance
rd_instance-Learns kernel b rd body up = elim (Option-cases (lookup rd b.rd_vrf)) [
  | inl e ↦
      rw (e, rd_instance) (learn_new-Learns kernel b rd (if up then peer_up_vrf body else []) e)
  | inr (name, e) ↦ rw (e, rd_instance) (inl e)
]
