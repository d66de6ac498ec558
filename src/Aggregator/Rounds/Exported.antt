-- ===== src/Aggregator/Rounds/Exported.antt =====
-- How often a trace is exported.
use for_visibility.Prelude.{
  ℕ, suc, ◌+◌, ◌≤◌, ◌≡◌, refl, sym, subst, ap, ◌∙◌, Bool, true, false, ◌&&◌, List, [], ◌∷◌, ◌++◌,
  All, arith,
}
use for_visibility.Text.{Bytes, bytes_beq, bytes_beq_iff}
use for_visibility.Exporter.{is_empty}
use for_visibility.Aggregator.{Dtrace, build}
use for_visibility.Aggregator.Zipkin.{Formats, trace_id_of, push_zipkin, was_pushed, push-marks}
use for_visibility.Aggregator.Rounds.{
  Post, noted, push_all, Aggregator, Round, Config, run_round, run_rounds, new_aggregator,
}

abbrev pub one_if : Bool → ℕ
one_if true = 1
one_if false = 0

-- how many of the posts of a trace id returned no error
unfoldable pub exports : Bytes → List Post → ℕ
exports id [] = 0
exports id (p ∷ posts) = one_if (bytes_beq p.trace_id id && p.posted) + exports id posts

exports-append :
    (id : Bytes) (ps qs : List Post) → exports id (ps ++ qs) ≡ exports id ps + exports id qs
unfolding exports
exports-append id [] qs = omega arith
exports-append id (p ∷ ps) qs = omega (arith, exports-append id ps qs)

module _ (f : Formats) (id : Bytes) where
  abbrev pub Counts : List Bytes → List Bytes × List Post → Type 0
  Counts pushed r = exports id r.1 + one_if (was_pushed id pushed) ≡ one_if (was_pushed id r.0)

  push-Counts :
      (posted : Bool) (dt : Dtrace) (pushed : List Bytes) (posts : List Post)
      → exports id (noted (trace_id_of f dt) posted (push_zipkin f posted dt pushed).1 posts)
          + one_if (was_pushed id pushed)
        ≡ exports id posts + one_if (was_pushed id (push_zipkin f posted dt pushed).0)
  unfolding push_zipkin was_pushed exports
  push-Counts posted dt pushed posts = ground (arith, bytes_beq_iff (trace_id_of f dt) id)

  push_all-Counts :
      (posted : ℕ → Bool) (i : ℕ) (dts : List Dtrace) (pushed : List Bytes)
      → Counts pushed (push_all f posted i dts pushed)
  unfolding push_all exports
  push_all-Counts posted i [] pushed = omega arith
  push_all-Counts posted i (dt ∷ dts) pushed =
      push-Counts (posted i) dt pushed
        (push_all f posted (suc i) dts (push_zipkin f (posted i) dt pushed).0).1
      ∙ push_all-Counts posted (suc i) dts (push_zipkin f (posted i) dt pushed).0

  run_round-Counts :
      (c : Config) (a : Aggregator) (r : Round)
      → exports id (run_round f c a r).1 + one_if (was_pushed id a.pushed)
        ≡ one_if (was_pushed id (run_round f c a r).0.pushed)
  unfolding run_round exports
  run_round-Counts c a r =
      ground (arith, push_all-Counts r.posted 0 (build c.window r.pulls r.inventory) a.pushed)

  run_rounds-Counts :
      (c : Config) (a : Aggregator) (rs : List Round)
      → exports id (run_rounds f c a rs).1 + one_if (was_pushed id a.pushed)
        ≡ one_if (was_pushed id (run_rounds f c a rs).0.pushed)
  unfolding run_rounds exports
  run_rounds-Counts c a [] = omega arith
  run_rounds-Counts c a (r ∷ rs) = omega (
    arith,
    exports-append id (run_round f c a r).1 (run_rounds f c (run_round f c a r).0 rs).1,
    run_round-Counts c a r,
    run_rounds-Counts c (run_round f c a r).0 rs,
  )

one_if-le : (b : Bool) → one_if b ≤ 1
one_if-le b = ground arith

-- Whatever the nodes serve and whichever posts fail, over all rounds of the aggregator at most one
-- post of a trace id succeeds.
pub run_rounds-once :
    (f : Formats) (c : Config) (rs : List Round) (id : Bytes)
    → exports id (run_rounds f c new_aggregator rs).1 ≤ 1
unfolding was_pushed
run_rounds-once f c rs id = omega (
  arith,
  run_rounds-Counts f id c new_aggregator rs,
  one_if-le (was_pushed id (run_rounds f c new_aggregator rs).0.pushed),
)

push-grows :
    (f : Formats) (id : Bytes) (posted : Bool) (dt : Dtrace) (pushed : List Bytes)
    → was_pushed id pushed ≡ true
    → was_pushed id (push_zipkin f posted dt pushed).0 ≡ true
unfolding push_zipkin was_pushed
push-grows f id posted dt pushed h = ground arith

push_all-grows :
    (f : Formats) (id : Bytes) (posted : ℕ → Bool) (i : ℕ) (dts : List Dtrace) (pushed : List Bytes)
    → was_pushed id pushed ≡ true
    → was_pushed id (push_all f posted i dts pushed).0 ≡ true
unfolding push_all
push_all-grows f id posted i [] pushed h = h
push_all-grows f id posted i (dt ∷ dts) pushed h =
    push_all-grows f id posted (suc i) dts (push_zipkin f (posted i) dt pushed).0
      (push-grows f id (posted i) dt pushed h)

module _ (f : Formats) (posted : ℕ → Bool) (fine : (k : ℕ) → posted k ≡ true) where
  push-marked :
      (i : ℕ) (dt : Dtrace) (pushed : List Bytes)
      → was_pushed (trace_id_of f dt) (push_zipkin f (posted i) dt pushed).0 ≡ true
  push-marked i dt pushed = rw (fine i) (push-marks f dt pushed)

  push_all-marks :
      (P : Dtrace → Type 0) (i : ℕ) (dts : List Dtrace) (pushed : List Bytes)
      → ((dt : Dtrace)
          → was_pushed (trace_id_of f dt) (push_all f posted i dts pushed).0 ≡ true
          → P dt)
      → All P dts
  unfolding push_all
  push_all-marks P i [] pushed h = tt
  push_all-marks P i (dt ∷ dts) pushed h = (
    h dt (
        push_all-grows f (trace_id_of f dt) posted (suc i) dts
          (push_zipkin f (posted i) dt pushed).0 (push-marked i dt pushed)),
    push_all-marks P (suc i) dts (push_zipkin f (posted i) dt pushed).0 h,
  )

run_rounds-last :
    (f : Formats) (c : Config) (a : Aggregator) (rs : List Round) (r : Round)
    → (run_rounds f c a (rs ++ r ∷ [])).0 ≡ (run_round f c (run_rounds f c a rs).0 r).0
unfolding run_rounds
run_rounds-last f c a [] r = refl
run_rounds-last f c a (q ∷ rs) r = run_rounds-last f c (run_round f c a q).0 rs r

run_round-pushed :
    (f : Formats) (c : Config) (a : Aggregator) (r : Round)
    → is_empty c.zipkin_url ≡ false
    → (run_round f c a r).0 ≡ record {
      out = build c.window r.pulls r.inventory;
      pushed = (push_all f r.posted 0 (build c.window r.pulls r.inventory) a.pushed).0;
    }
unfolding run_round
run_round-pushed f c a r named = rw (run_round, named) refl

-- If the export is enabled (the Zipkin URL is not empty), then after a round in which every post
-- succeeds, of every trace that the aggregator then serves exactly one post has succeeded over all
-- rounds, whichever posts failed before.
pub run_rounds-exported :
    (f : Formats) (c : Config) (rs : List Round) (r : Round)
    → is_empty c.zipkin_url ≡ false
    → ((k : ℕ) → r.posted k ≡ true)
    → All
        (λ dt. exports (trace_id_of f dt) (run_rounds f c new_aggregator (rs ++ r ∷ [])).1 ≡ 1)
        (run_rounds f c new_aggregator (rs ++ r ∷ [])).0.out
unfolding was_pushed
run_rounds-exported f c rs r named fine =
    subst (λ (a : Aggregator). All Once a.out) (sym ended)
      (push_all-marks f r.posted fine Once 0 (build c.window r.pulls r.inventory)
        (run_rounds f c new_aggregator rs).0.pushed
        λ dt marked. omega (
          arith,
          run_rounds-Counts f (trace_id_of f dt) c new_aggregator (rs ++ r ∷ []),
          ap (λ (a : Aggregator). one_if (was_pushed (trace_id_of f dt) a.pushed)) ended,
          ap one_if marked,
        ))
  where
    Once : Dtrace → Type 0
    Once dt = exports (trace_id_of f dt) (run_rounds f c new_aggregator (rs ++ r ∷ [])).1 ≡ 1

    ended : (run_rounds f c new_aggregator (rs ++ r ∷ [])).0 ≡ record {
      out = build c.window r.pulls r.inventory;
      pushed =
          (push_all f r.posted 0
            (build c.window r.pulls r.inventory)
            (run_rounds f c new_aggregator rs).0.pushed).0;
    }
    ended =
        run_rounds-last f c new_aggregator rs r
        ∙ run_round-pushed f c (run_rounds f c new_aggregator rs).0 r named
