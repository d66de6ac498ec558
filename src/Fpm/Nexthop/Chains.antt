-- ===== src/Fpm/Nexthop/Chains.antt =====
-- What `resolveNH` finds: the end of a chain of groups, each followed to its first member.
use for_visibility.Prelude.{
  ℕ, zero, suc, ◌≤◌, ◌<◌, ◌≡◌, ◌≢◌, refl, sym, ◌∙◌, subst, ◌⊎◌, inl, inr, Bool, true, false, some,
  List, [], ◌∷◌, arith, Option-cases,
}
use for_visibility.Prelude.Assoc.{Map, nat_eq, lookup}
use for_visibility.Fpm.Nexthop.{
  Nexthop, Resolved, unresolved, black_hole, resolve_step, resolve_rounds, resolve_nh,
}

-- A nexthop that ends a chain: a blackhole, or one with a gateway or an interface of its own.
pub data Ends (n : Nexthop) (r : Resolved) : Type 0 where
  drops : n.blackhole ≡ true → r ≡ black_hole → Ends n r
  sends :
      n.blackhole ≡ false
      → (n.gw ≢ []) ⊎ (n.oif ≢ 0)
      → r ≡ record { gw = n.gw; oif = n.oif; blackhole = false; labels = n.labels }
      → Ends n r

pub record IsGroup (n : Nexthop) (g : ℕ) : Type 0 where
  pub lives : n.blackhole ≡ false
  pub no_gw : n.gw ≡ []
  pub no_oif : n.oif ≡ 0
  pub rest : List ℕ
  pub first : n.group ≡ g ∷ rest

-- `Chain nh id k r`: from `id` through `k` groups to a nexthop that gives `r`.
pub data Chain (nh : Map ℕ Nexthop) : ℕ → ℕ → Resolved → Type 0 where
  stop : {id : ℕ} {r : Resolved} (n : Nexthop) → lookup id nh ≡ some n → Ends n r → Chain nh id 0 r
  through :
      {id g k : ℕ} {r : Resolved} (n : Nexthop)
      → lookup id nh ≡ some n
      → IsGroup n g
      → Chain nh g k r
      → Chain nh id (suc k) r

resolve_step-Ends :
    (n : Nexthop) (r : Resolved) (follow : ℕ → Resolved) → Ends n r → resolve_step n follow ≡ r
unfolding resolve_step
resolve_step-Ends n r follow (drops b e) = ground arith
resolve_step-Ends n r follow (sends b (inl h) e) = ground arith
resolve_step-Ends n r follow (sends b (inr h) e) = ground arith

resolve_step-IsGroup :
    (n : Nexthop) (g : ℕ) (follow : ℕ → Resolved) → IsGroup n g → resolve_step n follow ≡ follow g
unfolding resolve_step
resolve_step-IsGroup n g follow h = ground arith

resolve_rounds-some :
    (nh : Map ℕ Nexthop) (rounds id : ℕ) (n : Nexthop)
    → lookup id nh ≡ some n
    → resolve_rounds nh (suc rounds) id ≡ resolve_step n (resolve_rounds nh rounds)
unfolding resolve_rounds
resolve_rounds-some nh rounds id n e = rw (e, resolve_rounds)

resolve_rounds-Chain :
    (nh : Map ℕ Nexthop) (rounds : ℕ) {id k : ℕ} {r : Resolved}
    → Chain nh id k r
    → k < rounds
    → resolve_rounds nh rounds id ≡ r
unfolding resolve_rounds
resolve_rounds-Chain nh zero c h = absurd (omega arith)
resolve_rounds-Chain nh (suc rounds) (stop n e ends) h =
    resolve_rounds-some nh rounds _ n e ∙ resolve_step-Ends n _ _ ends
resolve_rounds-Chain nh (suc rounds) (through n e group c) h =
    resolve_rounds-some nh rounds _ n e
    ∙ resolve_step-IsGroup n _ (resolve_rounds nh rounds) group
    ∙ resolve_rounds-Chain nh rounds c (omega arith)

resolve_rounds-deep :
    (nh : Map ℕ Nexthop) (rounds : ℕ) {id k : ℕ} {r : Resolved}
    → Chain nh id k r
    → rounds ≤ k
    → resolve_rounds nh rounds id ≡ unresolved
unfolding resolve_rounds
resolve_rounds-deep nh zero c h = refl
resolve_rounds-deep nh (suc rounds) (stop n e ends) h = absurd (omega arith)
resolve_rounds-deep nh (suc rounds) (through n e group c) h =
    resolve_rounds-some nh rounds _ n e
    ∙ resolve_step-IsGroup n _ (resolve_rounds nh rounds) group
    ∙ resolve_rounds-deep nh rounds c (omega arith)

-- A chain of at most four groups is followed to its end, blackhole, gateway and labels included.
pub resolve_nh-Chain :
    (nh : Map ℕ Nexthop) {id k : ℕ} {r : Resolved}
    → Chain nh id k r
    → k ≤ 4
    → resolve_nh nh id 0 ≡ r
unfolding resolve_nh
resolve_nh-Chain nh c h = resolve_rounds-Chain nh 5 c (omega arith)

-- A chain of more groups is given up, as if there were no nexthop.
pub resolve_nh-deep :
    (nh : Map ℕ Nexthop) {id k : ℕ} {r : Resolved}
    → Chain nh id k r
    → 4 < k
    → resolve_nh nh id 0 ≡ unresolved
unfolding resolve_nh
resolve_nh-deep nh c h = resolve_rounds-deep nh 5 c (omega arith)

-- What `resolveNH` makes of one nexthop.
data Shape (n : Nexthop) : Type 0 where
  ends : (r : Resolved) → Ends n r → Shape n
  groups : (g : ℕ) → IsGroup n g → Shape n
  empty : ((follow : ℕ → Resolved) → resolve_step n follow ≡ unresolved) → Shape n

shape :
    (n : Nexthop) (b : Bool) (gw : List ℕ) (oif : ℕ) (group : List ℕ)
    → n.blackhole ≡ b
    → n.gw ≡ gw
    → n.oif ≡ oif
    → n.group ≡ group
    → Shape n
shape n true gw oif group b g o s = ends black_hole (drops b refl)
shape n false (x ∷ gw) oif group b g o s = ends _ (sends b (inl (λ e. cc)) refl)
shape n false [] (suc oif) group b g o s = ends _ (sends b (inr (λ e. omega arith)) refl)
shape n false [] zero (x ∷ rest) b g o s =
    groups x (record { lives = b; no_gw = g; no_oif = o; rest = rest; first = s })
shape n false [] zero [] b g o s = empty (λ follow. unfold resolve_step in ground arith)

abbrev pub Found : Map ℕ Nexthop → ℕ → ℕ → Resolved → Type 0
Found nh rounds id r = (r ≡ unresolved) ⊎ ((k : ℕ) × (k < rounds) × Chain nh id k r)

Found-shape :
    (nh : Map ℕ Nexthop) (rounds id : ℕ) (n : Nexthop) (follow : ℕ → Resolved)
    → lookup id nh ≡ some n
    → ((g : ℕ) → Found nh rounds g (follow g))
    → Shape n
    → Found nh (suc rounds) id (resolve_step n follow)
Found-shape nh rounds id n follow e ih (ends r h) =
    inr (0, omega arith, stop n e (subst (Ends n) (sym (resolve_step-Ends n r follow h)) h))
Found-shape nh rounds id n follow e ih (empty h) = inl (h follow)
Found-shape nh rounds id n follow e ih (groups g h) =
    subst (Found nh (suc rounds) id) (sym (resolve_step-IsGroup n g follow h)) (deeper (ih g))
  where
    deeper : Found nh rounds g (follow g) → Found nh (suc rounds) id (follow g)
    deeper (inl none_found) = inl none_found
    deeper (inr (k, less, c)) = inr (suc k, omega arith, through n e h c)

resolve_rounds-Found :
    (nh : Map ℕ Nexthop) (rounds id : ℕ) → Found nh rounds id (resolve_rounds nh rounds id)
resolve_rounds-Found nh zero id = inl (unfold resolve_rounds in refl)
resolve_rounds-Found nh (suc rounds) id = elim (Option-cases (lookup id nh)) [
  | inl e ↦ inl (unfold resolve_rounds in rw (e, resolve_rounds))
  | inr (n, e) ↦ subst (Found nh (suc rounds) id) (sym (resolve_rounds-some nh rounds id n e)) (
      Found-shape nh rounds id n (resolve_rounds nh rounds) e (resolve_rounds-Found nh rounds)
        (shape n n.blackhole n.gw n.oif n.group refl refl refl refl))
]

-- `resolveNH` invents nothing: its answer is that of a chain of at most four groups, or that there is
-- no nexthop. It always answers, also where groups refer to one another in a cycle.
pub resolve_nh-Found : (nh : Map ℕ Nexthop) (id : ℕ) → Found nh 5 id (resolve_nh nh id 0)
unfolding resolve_nh
resolve_nh-Found nh id = resolve_rounds-Found nh 5 id
