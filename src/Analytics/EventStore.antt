-- ===== src/Analytics/EventStore.antt =====
-- internal/analytics/memstore.go, with the results of internal/analytics/types.go: the list of events in memory,
-- and the queries over them. A map from ints is a list of its entries. `%d` and the time are arguments. The map
-- `offOnly` of QueryStaleFlags is written and never read, so it is left out.
pub mod Totals
use pennant.Prelude.{
  ℕ, ◌+◌, ◌*◌, String, Option, none, some, List, [], ◌∷◌, ◌++◌, Bool, true, false, not, ◌||◌, ◌&&◌,
  ◌==◌, length, leb, member, or_else, is_some, if◌then◌else◌,
}
use pennant.Prelude.Int.{ℤ, pos, neg_part, pos_part, ◌+ℤ◌, sub_ℕ, eqb_ℤ, ltb_ℤ, wrap64}
use pennant.Prelude.Dict.{Dict, get, put}
use pennant.Analytics.{Event, EventKind, eval_event, custom_event, exposure_event, other_event}

pub record FlagInsight : Type 0 where
  pub flag_key : String
  pub environment_key : String
  pub variation_counts : Dict ℤ
  pub total_evals : ℤ
  pub unique_contexts : ℤ

pub record StaleFlag : Type 0 where
  pub flag_key : String
  pub environment_key : String
  pub last_eval_at : ℤ
  pub reason : String

-- `n++` on an `int64`
abbrev pub increment : ℤ → ℤ
increment n = wrap64 (n +ℤ pos 1)

abbrev pub is_eval : EventKind → Bool
is_eval eval_event = true
is_eval k = false

abbrev pub is_custom : EventKind → Bool
is_custom custom_event = true
is_custom k = false

-- The entries of a `map[int]int64`.
abbrev pub Counts : Type 0
Counts = List (ℤ × ℤ)

-- `m[i]++`
unfoldable pub count_up : ℤ → Counts → Counts
count_up i [] = (i, increment (pos 0)) ∷ []
count_up i ((j, n) ∷ m) = if eqb_ℤ j i then (j, increment n) ∷ m else (j, n) ∷ count_up i m

-- The keys of a `map[int]bool`: `m[i] = true`
unfoldable pub insert : ℤ → List ℤ → List ℤ
insert i [] = i ∷ []
insert i (j ∷ js) = if eqb_ℤ j i then j ∷ js else j ∷ insert i js

-- What QueryFlagInsights keeps: the insights, and the contexts that were seen for each flag.
pub record Tally : Type 0 where
  pub by_flag : Dict FlagInsight
  pub seen : Dict (List String)

-- `fi.VariationCounts[key]++` for an index that is there
abbrev pub count_variation : (ℤ → String) → Option ℤ → Dict ℤ → Dict ℤ
count_variation format_int none counts = counts
count_variation format_int (some i) counts =
    put (format_int i) (increment (or_else (get (format_int i) counts) (pos 0))) counts

-- What QueryStaleFlags keeps: the last evaluation of each flag, and the variations that were seen.
pub record Activity : Type 0 where
  pub last_eval : Dict ℤ
  pub variations_seen : Dict (List ℤ)

abbrev pub insert_index : Option ℤ → List ℤ → List ℤ
insert_index none is = is
insert_index (some i) is = insert i is

abbrev pub stale_flag : String → String → ℤ → String → StaleFlag
stale_flag flag_key env_key last reason = record {
  flag_key = flag_key;
  environment_key = env_key;
  last_eval_at = last;
  reason = reason;
}

-- The loop over `lastEval`.
unfoldable pub stale : ℤ → String → Dict (List ℤ) → Dict ℤ → List StaleFlag
stale threshold env_key seen [] = []
stale threshold env_key seen ((flag_key, last) ∷ m) =
    let rest = stale threshold env_key seen m in
    if ltb_ℤ last threshold
    then stale_flag flag_key env_key last "no_evals_30d" ∷ rest
    else if leb (length (or_else (get flag_key seen) [])) 1
    then stale_flag flag_key env_key last "single_variation" ∷ rest
    else rest

-- `ctxToVar[e.ContextKey] = *e.VariationIndex` for an index that is there
abbrev pub expose : String → Option ℤ → Dict ℤ → Dict ℤ
expose key none m = m
expose key (some i) m = put key i m

abbrev pub convert : Option ℤ → Counts → Counts
convert none result = result
convert (some i) result = count_up i result

module _ {F : Type 0} where
  unfoldable pub insert_events : List (Event F) → List (Event F) → List (Event F)
  insert_events s events = s ++ events

  -- The event is of the environment.
  abbrev pub is_from : String → String → Event F → Bool
  is_from project_key env_key e = e.environment_key == env_key && e.project_key == project_key

  abbrev pub new_insight : Event F → FlagInsight
  new_insight e = record {
    flag_key = e.flag_key;
    environment_key = e.environment_key;
    variation_counts = [];
    total_evals = pos 0;
    unique_contexts = pos 0;
  }

  -- The event counts: an evaluation of the environment, not before `since`.
  abbrev pub counts : String → String → ℤ → Event F → Bool
  counts project_key env_key since e =
      is_eval e.kind && (is_from project_key env_key e && not (ltb_ℤ e.timestamp since))

  module _ (format_int : ℤ → String) where
    -- One event that passed the filters.
    unfoldable pub count_event : Event F → Tally → Tally
    count_event e t =
        let fi = or_else (get e.flag_key t.by_flag) (new_insight e) in
        let contexts = or_else (get e.flag_key t.seen) [] in
        let is_new = not (member e.context_key contexts) in
        record {
          by_flag =
              put e.flag_key
                (record fi {
                  variation_counts =
                      count_variation format_int e.variation_index fi.variation_counts;
                  total_evals = increment fi.total_evals;
                  unique_contexts =
                      if is_new then increment fi.unique_contexts else fi.unique_contexts;
                })
                t.by_flag;
          seen = put e.flag_key (if is_new then e.context_key ∷ contexts else contexts) t.seen;
        }

    unfoldable pub tally : String → String → ℤ → List (Event F) → Tally → Tally
    tally project_key env_key since [] t = t
    tally project_key env_key since (e ∷ es) t =
        tally project_key env_key since es
          (if counts project_key env_key since e then count_event e t else t)

    -- The insights by their flag's key; the code returns them in the map's order.
    unfoldable pub query_flag_insights : List (Event F) → String → String → ℤ → Dict FlagInsight
    query_flag_insights s project_key env_key since =
        (tally project_key env_key since s (record { by_flag = []; seen = [] })).by_flag

  unfoldable pub note_event : Event F → Activity → Activity
  note_event e a = record {
    last_eval =
        if ltb_ℤ (or_else (get e.flag_key a.last_eval) (pos 0)) e.timestamp
        then put e.flag_key e.timestamp a.last_eval
        else a.last_eval;
    variations_seen =
        put e.flag_key
          (insert_index e.variation_index (or_else (get e.flag_key a.variations_seen) []))
          a.variations_seen;
  }

  unfoldable pub activity : String → String → List (Event F) → Activity → Activity
  activity project_key env_key [] a = a
  activity project_key env_key (e ∷ es) a =
      activity project_key env_key es
        (if is_eval e.kind && is_from project_key env_key e then note_event e a else a)

  -- `now` is in milliseconds, and so is the threshold 30 days before it.
  unfoldable pub query_stale_flags : ℤ → List (Event F) → String → String → List StaleFlag
  query_stale_flags now s project_key env_key =
      let a = activity project_key env_key s (record { last_eval = []; variations_seen = [] }) in
      stale (sub_ℕ (pos_part now) (neg_part now + 30 * 24 * 3600 * 1000)) env_key a.variations_seen
        a.last_eval

  -- `ctxToVar`: the variation of each context's last evaluation.
  unfoldable pub exposures : String → String → String → ℤ → List (Event F) → Dict ℤ → Dict ℤ
  exposures project_key env_key flag_key since [] m = m
  exposures project_key env_key flag_key since (e ∷ es) m =
      exposures project_key env_key flag_key since es (
        if is_eval e.kind
          && (e.flag_key == flag_key
              && (is_from project_key env_key e && not (ltb_ℤ e.timestamp since)))
        then expose e.context_key e.variation_index m
        else m)

  unfoldable pub conversions :
      String → String → String → ℤ → Dict ℤ → List (Event F) → Counts → Counts
  conversions project_key env_key metric since ctx_to_var [] result = result
  conversions project_key env_key metric since ctx_to_var (e ∷ es) result =
      conversions project_key env_key metric since ctx_to_var es (
        if is_custom e.kind
          && (e.metric_name == metric
              && (is_from project_key env_key e && not (ltb_ℤ e.timestamp since)))
        then convert (get e.context_key ctx_to_var) result
        else result)

  unfoldable pub query_conversions : List (Event F) → String → String → String → String → ℤ → Counts
  query_conversions s project_key env_key flag_key metric since =
      conversions project_key env_key metric since
        (exposures project_key env_key flag_key since s []) s []
