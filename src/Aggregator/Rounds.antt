-- ===== src/Aggregator/Rounds.antt =====
-- The rounds of `loop`: `build`, the list that the page serves, and the export of every trace of it
-- to Zipkin. What the nodes serve in a round, the order in which the round goes over the inventory and
-- which posts fail are parameters.
pub mod Exported
use for_visibility.Prelude.{
  ℕ, suc, ◌+◌, Bool, true, false, ◌&&◌, Option, none, some, List, [], ◌∷◌, ◌++◌, if◌then◌else◌,
}
use for_visibility.Prelude.Assoc.{Map}
use for_visibility.Text.{Bytes, bytes_beq}
use for_visibility.Exporter.{is_empty}
use for_visibility.Aggregator.{Dtrace, Pulls, build}
use for_visibility.Aggregator.Zipkin.{Formats, Zspan, trace_id_of, push_zipkin}

-- a post with its trace id, and whether it returned no error
pub record Post : Type 0 where
  pub trace_id : Bytes
  pub spans : List Zspan
  pub posted : Bool

abbrev pub noted : Bytes → Bool → Option (List Zspan) → List Post → List Post
noted trace_id posted none posts = posts
noted trace_id posted (some spans) posts =
    record { trace_id = trace_id; spans = spans; posted = posted } ∷ posts

-- `for i := range dt { pushZipkin(cl, dt[i]) }`, from the index `i` on
unfoldable pub push_all :
    Formats → (ℕ → Bool) → ℕ → List Dtrace → List Bytes → List Bytes × List Post
unfolding push_zipkin
push_all f posted i [] pushed = (pushed, [])
push_all f posted i (dt ∷ dts) pushed =
    let (pushed', spans) = push_zipkin f (posted i) dt pushed in
    let (pushed'', posts) = push_all f posted (suc i) dts pushed' in
    (pushed'', noted (trace_id_of f dt) (posted i) spans posts)

-- the variables that `loop` changes
pub record Aggregator : Type 0 where
  pub out : List Dtrace
  pub pushed : List Bytes

pub record Round : Type 0 where
  pub pulls : Pulls
  pub inventory : Map Bytes Bytes
  pub posted : ℕ → Bool

pub record Config : Type 0 where
  pub window : ℕ
  pub zipkin_url : Bytes

-- One round of `loop`. Without an address of Zipkin nothing is posted.
unfoldable pub run_round : Formats → Config → Aggregator → Round → Aggregator × List Post
unfolding push_all build
run_round f c a r =
    let dt = build c.window r.pulls r.inventory in
    let (pushed, posts) = push_all f r.posted 0 dt a.pushed in
    if is_empty c.zipkin_url
    then (record a { out = dt }, [])
    else (record { out = dt; pushed = pushed }, posts)

unfoldable pub run_rounds : Formats → Config → Aggregator → List Round → Aggregator × List Post
unfolding run_round
run_rounds f c a [] = (a, [])
run_rounds f c a (r ∷ rs) =
    let (a', posts) = run_round f c a r in
    let (a'', more) = run_rounds f c a' rs in (a'', posts ++ more)

abbrev pub new_aggregator : Aggregator
new_aggregator = record { out = []; pushed = [] }
