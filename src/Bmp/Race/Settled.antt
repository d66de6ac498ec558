-- ===== src/Bmp/Race/Settled.antt =====
-- What the goroutines of the BMP connections do with a distinguisher that has its name.
use for_visibility.Prelude.{
  ℕ, ◌≡◌, ◌≢◌, refl, ap, sym, ◌∙◌, Bool, true, Option, some, none, [], ◌∷◌, ◌==◌, All, All-append,
  arith, if-cases,
}
use for_visibility.Prelude.Assoc.{lookup, lookup-insert}
use for_visibility.Text.{Bytes, text, bytes_eq, bytes_beq_iff}
use for_visibility.Vrf.{Kernel}
use for_visibility.Bmp.Peer.{Bmp, PeerHeader, is_empty}
use for_visibility.Bmp.Race.{
  Stage, away, unnamed, naming, filing, Board, looked_up, look_up, named_or_rd, choose_name,
  told_name, Act, skip_short, skip_unspecified, look, choose, store, file, System, set_stage, Step,
  turn, Steps, rest, steps,
}

module _ (rd n : Bytes) where
  -- A goroutine is not about to name the distinguisher, and files it under `n`.
  abbrev pub Follows : Stage → Type 0
  Follows away = Unit
  Follows (unnamed h body up) = h.rd ≢ rd
  Follows (naming h up name) = h.rd ≢ rd
  Follows (filing h up vrf) = h.rd ≡ rd → vrf ≡ n

  abbrev pub FiledUnder : Bytes × Bytes → Type 0
  FiledUnder (r, vrf) = r ≡ rd → vrf ≡ n

  -- The distinguisher has the name `n`, and whoever is in a message of it files it under `n`.
  pub record IsSettled (s : System) : Type 0 where
    pub learned : lookup rd s.board.bmp.rd_vrf ≡ some n
    pub follows : (g : ℕ) → Follows (s.stage g)
    pub under : All FiledUnder s.board.filed

  looked_up-Follows :
      (body : Bytes) (up : Bool) (h : PeerHeader) (name : Option Bytes)
      → (h.rd ≡ rd → name ≡ some n)
      → Follows (looked_up body up h name)
  looked_up-Follows body up h (some name) v = λ same. let e = v same in cc
  looked_up-Follows body up h none v = λ same. let e = v same in cc

  look_up-Follows :
      (b : Bmp) (body : Bytes) (up : Bool) (h : PeerHeader)
      → rd ≢ []
      → lookup rd b.rd_vrf ≡ some n
      → Follows (look_up b body up h)
  unfolding look_up
  look_up-Follows b body up h full e =
      if-cases Follows (is_empty h.rd) (filing h up (text "default"))
        (looked_up body up h (lookup h.rd b.rd_vrf))
        (λ nothing same. absurd (full (sym same ∙ empty h.rd nothing)))
        (λ _.
          looked_up-Follows body up h (lookup h.rd b.rd_vrf)
            (λ same. ap (λ r. lookup r b.rd_vrf) same ∙ e))
    where
      empty : (r : Bytes) → is_empty r ≡ true → r ≡ []
      empty [] h = refl
      empty (c ∷ r) h = cc

  choose_name-Follows :
      (kernel : Kernel) (b : Bmp) (h : PeerHeader) (up : Bool) (told : Bytes)
      → h.rd ≢ rd
      → Follows (choose_name kernel b h up told).1
  unfolding choose_name named_or_rd
  choose_name-Follows kernel b h up told other = ground arith

  choose_name-keeps :
      (kernel : Kernel) (b : Bmp) (h : PeerHeader) (up : Bool) (told : Bytes)
      → (choose_name kernel b h up told).0.rd_vrf ≡ b.rd_vrf
  unfolding choose_name
  choose_name-keeps kernel b h up told = ground arith

  Act-Follows :
      {s t : Board} {p q : Stage}
      → rd ≢ []
      → lookup rd s.bmp.rd_vrf ≡ some n
      → Follows p
      → Act s p t q
      → Follows q
  Act-Follows full e v (skip_short body h) = tt
  Act-Follows full e v (skip_unspecified body h known unspecified) = tt
  Act-Follows full e v (look body up h known specified) = look_up-Follows _ body up h full e
  Act-Follows full e v (choose kernel h body up) =
      choose_name-Follows kernel _ h up (told_name body up) v
  Act-Follows full e v (store h up name) = λ same. absurd (v same)
  Act-Follows full e v (file h up vrf) = tt

  Act-learned :
      {s t : Board} {p q : Stage}
      → lookup rd s.bmp.rd_vrf ≡ some n
      → Follows p
      → Act s p t q
      → lookup rd t.bmp.rd_vrf ≡ some n
  Act-learned e v (skip_short body h) = e
  Act-learned e v (skip_unspecified body h known unspecified) = e
  Act-learned e v (look body up h known specified) = e
  Act-learned {s} e v (choose kernel h body up) =
      rw (choose_name-keeps kernel s.bmp h up (told_name body up)) e
  Act-learned {s} e v (store h up name) =
      ground (arith, lookup-insert rd h.rd name s.bmp.rd_vrf, bytes_beq_iff h.rd rd)
  Act-learned e v (file h up vrf) = e

  Act-under :
      {s t : Board} {p q : Stage}
      → All FiledUnder s.filed
      → Follows p
      → Act s p t q
      → All FiledUnder t.filed
  Act-under under v (skip_short body h) = under
  Act-under under v (skip_unspecified body h known unspecified) = under
  Act-under under v (look body up h known specified) = under
  Act-under under v (choose kernel h body up) = under
  Act-under under v (store h up name) = under
  Act-under {s} under v (file h up vrf) =
      All-append FiledUnder s.filed ((h.rd, vrf) ∷ []) under (v, tt)

  set_stage-Follows :
      (g : ℕ) (q : Stage) (stage : ℕ → Stage)
      → Follows q
      → ((j : ℕ) → Follows (stage j))
      → (j : ℕ) → Follows (set_stage g q stage j)
  set_stage-Follows g q stage v others j =
      if-cases Follows (j == g) q (stage j) (λ _. v) (λ _. others j)

  Step-IsSettled : {s t : System} → rd ≢ [] → IsSettled s → Step s t → IsSettled t
  Step-IsSettled {s} full v (turn {t} {p} g act) = record {
    learned = Act-learned v.learned (v.follows g) act;
    follows =
        set_stage-Follows g p s.stage (Act-Follows full v.learned (v.follows g) act) v.follows;
    under = Act-under v.under (v.follows g) act;
  }

  -- If a distinguisher (not the empty one) has its name, its neighbors were filed under that name so
  -- far, and no goroutine is between the lookup and the store of it or about to file it under another
  -- name, then all this stays so, whatever the order in which the connections take turns: the name
  -- stays, and every Peer Up and Peer Down of the distinguisher is filed under it.
  pub Steps-IsSettled : {s t : System} → rd ≢ [] → IsSettled s → Steps s t → IsSettled t
  Steps-IsSettled full v rest = v
  Steps-IsSettled full v (steps step later) =
      Steps-IsSettled full (Step-IsSettled full v step) later
