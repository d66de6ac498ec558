-- ===== src/Aggregator/Groups.antt =====
-- The clusters of `build`: every trace that was pulled is in one of them, and a cluster is a window.
use for_visibility.Prelude.{
  ℕ, ◌+◌, ◌≤◌, ◌<◌, ◌≡◌, refl, sym, ap, ◌∙◌, List, [], ◌∷◌, ◌++◌, append_assoc, append-nil, leb,
  leb→le, if-cases, All, All-append, arith,
}
use mathlib.Core.List.{Perm}
use for_visibility.Prelude.Assoc.{Map}
use for_visibility.Prelude.Sort.{sort_on, sort_by-Perm, IsSorted, sort_on-IsSorted}
use for_visibility.Text.{Bytes}
use for_visibility.Correlate.{Trace}
use for_visibility.Aggregator.{
  Pulls, pull_all, first_start, place, place_all, group_traces, clusters,
}

abbrev pub concat : List (List Trace) → List Trace
concat [] = []
concat (g ∷ gs) = g ++ concat gs

-- traces that all start within the window of the first one
abbrev pub IsCluster : ℕ → List Trace → Type 0
IsCluster window [] = ⊥
IsCluster window (t ∷ ts) = All (λ u. u.start ≤ t.start + window) (t ∷ ts)

-- Each cluster begins behind the window of the one before it.
abbrev pub AreClusters : ℕ → List (List Trace) → Type 0
AreClusters window [] = Unit
AreClusters window (g ∷ []) = IsCluster window g
AreClusters window (g ∷ h ∷ gs) =
    IsCluster window g × (first_start g + window < first_start h) × AreClusters window (h ∷ gs)

concat-place :
    (window : ℕ) (t : Trace) (gs : List (List Trace))
    → concat (place window t gs) ≡ concat gs ++ t ∷ []
unfolding place
concat-place window t [] = refl
concat-place window t (g ∷ []) =
    if-cases (λ gs. concat gs ≡ (g ++ []) ++ t ∷ []) (leb t.start (first_start g + window)) _ _
      (λ _. rw (append-nil (g ++ t ∷ []), append-nil g) refl) (λ _. rw (append-nil g) refl)
concat-place window t (g ∷ h ∷ gs) =
    rw (concat-place window t (h ∷ gs)) (sym (append_assoc g (h ++ concat gs) (t ∷ [])))

concat-place_all :
    (window : ℕ) (ts : List Trace) (gs : List (List Trace))
    → concat (place_all window ts gs) ≡ concat gs ++ ts
unfolding place_all
concat-place_all window [] gs = sym (append-nil (concat gs))
concat-place_all window (t ∷ ts) gs =
    concat-place_all window ts (place window t gs)
    ∙ ap (λ xs. xs ++ ts) (concat-place window t gs)
    ∙ append_assoc (concat gs) (t ∷ []) ts

grow-IsCluster :
    (window : ℕ) (t : Trace) (g : List Trace)
    → IsCluster window g
    → t.start ≤ first_start g + window
    → IsCluster window (g ++ t ∷ [])
grow-IsCluster window t [] c h = absurd c
grow-IsCluster window t (u ∷ us) c h =
    (c.0, All-append (λ v. v.start ≤ u.start + window) us (t ∷ []) c.1 (h, tt))

-- the start of the first cluster
abbrev first_of : List (List Trace) → ℕ
first_of [] = 0
first_of (g ∷ gs) = first_start g

head-IsCluster :
    (window : ℕ) (g : List Trace) (gs : List (List Trace))
    → AreClusters window (g ∷ gs)
    → IsCluster window g
head-IsCluster window g [] h = h
head-IsCluster window g (k ∷ gs) h = h.0

cons-AreClusters :
    (window : ℕ) (g : List Trace) (gs : List (List Trace))
    → IsCluster window g
    → first_start g + window < first_of gs
    → AreClusters window gs
    → AreClusters window (g ∷ gs)
cons-AreClusters window g [] c gap h = c
cons-AreClusters window g (k ∷ gs) c gap h = (c, gap, h)

first_start-grow :
    (window : ℕ) (t : Trace) (g : List Trace)
    → IsCluster window g
    → first_start (g ++ t ∷ []) ≡ first_start g
first_start-grow window t [] c = absurd c
first_start-grow window t (u ∷ us) c = refl

first_of-place :
    (window : ℕ) (t : Trace) (g : List Trace) (gs : List (List Trace))
    → IsCluster window g
    → first_of (place window t (g ∷ gs)) ≡ first_start g
unfolding place
first_of-place window t g [] c =
    if-cases (λ gs. first_of gs ≡ first_start g) (leb t.start (first_start g + window)) _ _
      (λ _. first_start-grow window t g c) (λ _. refl)
first_of-place window t g (h ∷ gs) c = refl

place-AreClusters :
    (window : ℕ) (t : Trace) (gs : List (List Trace))
    → AreClusters window gs
    → AreClusters window (place window t gs)
unfolding place
place-AreClusters window t [] h = (omega arith, tt)
place-AreClusters window t (g ∷ []) h =
    if-cases (AreClusters window) (leb t.start (first_start g + window)) _ _
      (λ near. grow-IsCluster window t g h (leb→le _ _ near))
      (λ far. (h, ground (arith, far), (omega arith, tt)))
place-AreClusters window t (g ∷ h ∷ gs) (c, gap, rest) =
    cons-AreClusters window g (place window t (h ∷ gs)) c
      (rw (first_of-place window t h gs (head-IsCluster window h gs rest)) gap)
      (place-AreClusters window t (h ∷ gs) rest)

place_all-AreClusters :
    (window : ℕ) (ts : List Trace) (gs : List (List Trace))
    → AreClusters window gs
    → AreClusters window (place_all window ts gs)
unfolding place_all
place_all-AreClusters window [] gs h = h
place_all-AreClusters window (t ∷ ts) gs h =
    place_all-AreClusters window ts (place window t gs) (place-AreClusters window t gs h)

-- The clusters hold the pulled traces, each once and by their start. In a cluster all traces start at
-- most a window after its first one, and the next cluster begins more than a window after it.
pub clusters-AreClusters :
    (window : ℕ) (pulls : Pulls) (inventory : Map Bytes Bytes)
    → AreClusters window (clusters window pulls inventory)
      × Perm (concat (clusters window pulls inventory)) (pull_all pulls inventory)
      × IsSorted (λ t. t.start) (concat (clusters window pulls inventory))
unfolding clusters group_traces
clusters-AreClusters window pulls inventory =
    let by_start : Trace → ℕ = λ t. t.start in
    let all = pull_all pulls inventory in
    let same = concat-place_all window (sort_on by_start all) [] in
    (
      place_all-AreClusters window (sort_on by_start all) [] tt,
      rw same (sort_by-Perm _ all),
      rw same (sort_on-IsSorted by_start all),
    )
