-- ===== src/Schemas.antt =====
-- apps/frontend/src/features/realtime/schemas/serving-event.schema.ts: the schemas of the events, as
-- values. What a schema accepts is for the zod library to say; the values are what it is given.
use Prim.Native.String.{String}
use trading_monitoring_dashb.Base.{ℕ, List, [], ◌∷◌}

-- The constructors and the methods of zod that the schemas use.
mutual
  pub data Zod : Type 0 where
    z_number : Zod
    z_string : Zod
    z_boolean : Zod
    object : Shape → Zod
    array : Zod → Zod
    union : Zod → Zod → Zod
    enum : List String → Zod
    optional : Zod → Zod
    nullable : Zod → Zod
    int : Zod → Zod
    positive : Zod → Zod
    nonnegative : Zod → Zod
    trimmed : Zod → Zod
    min_length : ℕ → Zod → Zod

  -- The fields of `z.object`.
  pub data Shape : Type 0 where
    no_more : Shape
    key : String → Zod → Shape → Shape

abbrev pub shape : List (String × Zod) → Shape
shape [] = no_more
shape ((k, z) ∷ fs) = key k z (shape fs)

abbrev pub kbar_current_schema : Zod
kbar_current_schema = object (
    shape (
      ("code", min_length 1 z_string)
      ∷ ("trade_date", min_length 1 z_string)
      ∷ ("minute_ts", z_number)
      ∷ ("open", z_number)
      ∷ ("high", z_number)
      ∷ ("low", z_number)
      ∷ ("close", z_number)
      ∷ ("volume", z_number)
      ∷ ("day_amplitude", optional (nullable z_number))
      ∷ []))

abbrev pub metric_latest_schema : Zod
metric_latest_schema = object (
    shape (
      ("bid", optional z_number)
      ∷ ("ask", optional z_number)
      ∷ ("mid", optional z_number)
      ∷ ("spread", optional z_number)
      ∷ ("bid_size", optional z_number)
      ∷ ("ask_size", optional z_number)
      ∷ ("main_force_big_order", optional z_number)
      ∷ ("main_force_big_order_strength", optional (nullable z_number))
      ∷ ("event_ts", optional z_string)
      ∷ ("ts", optional z_number)
      ∷ []))

abbrev pub heartbeat_schema : Zod
heartbeat_schema = object (shape (("ts", z_number) ∷ []))

abbrev pub index_contribution_ranking_row_schema : Zod
index_contribution_ranking_row_schema = object (
    shape (
      ("rank_no", positive (int z_number))
      ∷ ("symbol", min_length 1 z_string)
      ∷ ("contribution_points", z_number)
      ∷ []))

abbrev pub index_contribution_ranking_schema : Zod
index_contribution_ranking_schema = object (
    shape (
      ("index_code", min_length 1 z_string)
      ∷ ("trade_date", min_length 1 z_string)
      ∷ ("top", array index_contribution_ranking_row_schema)
      ∷ ("bottom", array index_contribution_ranking_row_schema)
      ∷ ("ts", z_number)
      ∷ []))

abbrev pub index_contribution_sector_item_schema : Zod
index_contribution_sector_item_schema = object (
    shape (
      ("name", min_length 1 z_string)
      ∷ ("size", z_number)
      ∷ ("contribution_points", z_number)
      ∷ []))

abbrev pub index_contribution_sector_group_schema : Zod
index_contribution_sector_group_schema = object (
    shape (
      ("name", min_length 1 z_string)
      ∷ ("children", array index_contribution_sector_item_schema)
      ∷ []))

abbrev pub index_contribution_sector_schema : Zod
index_contribution_sector_schema = object (
    shape (
      ("index_code", min_length 1 z_string)
      ∷ ("trade_date", min_length 1 z_string)
      ∷ ("sectors", array index_contribution_sector_group_schema)
      ∷ ("ts", z_number)
      ∷ []))

abbrev pub market_summary_latest_schema : Zod
market_summary_latest_schema = object (
    shape (
      ("code", optional (min_length 1 (trimmed z_string)))
      ∷ ("market_code", optional (min_length 1 (trimmed z_string)))
      ∷ ("minute_ts", optional z_number)
      ∷ ("event_ts", optional z_number)
      ∷ ("spread", optional (nullable z_number))
      ∷ ("estimated_turnover", optional (nullable z_number))
      ∷ ("yesterday_estimated_turnover", optional (nullable z_number))
      ∷ ("estimated_turnover_diff", optional (nullable z_number))
      ∷ ("estimated_turnover_ratio", optional (nullable z_number))
      ∷ ("cumulative_turnover", optional (nullable z_number))
      ∷ []))

abbrev pub otc_summary_latest_schema : Zod
otc_summary_latest_schema = object (
    shape (
      ("code", optional (min_length 1 (trimmed z_string)))
      ∷ ("minute_ts", optional z_number)
      ∷ ("event_ts", optional z_number)
      ∷ ("index_value", optional (nullable z_number))
      ∷ []))

abbrev pub quote_latest_schema : Zod
quote_latest_schema = object (
    shape (
      ("code", optional (min_length 1 (trimmed z_string)))
      ∷ ("event_ts", optional (union z_number z_string))
      ∷ ("ts", optional (union z_number z_string))
      ∷ ("main_chip", optional (nullable z_number))
      ∷ ("long_short_force", optional (nullable z_number))
      ∷ ("main_chip_strength", optional (nullable z_number))
      ∷ ("long_short_force_strength", optional (nullable z_number))
      ∷ []))

abbrev pub spot_latest_list_schema : Zod
spot_latest_list_schema = object (
    shape (
      ("ts", z_number)
      ∷ ("market_strength_score", optional (nullable z_number))
      ∷ ("market_strength_pct", optional (nullable z_number))
      ∷ ("market_strength_count", optional (nonnegative (int z_number)))
      ∷ (
        "sector_strength",
        optional (
            object (
              shape (
                ("weighted", optional (nullable z_number))
                ∷ ("financial", optional (nullable z_number))
                ∷ ("tech", optional (nullable z_number))
                ∷ []))),
      )
      ∷ (
        "market_strength_breakdown",
        optional (
            object (
              shape (
                ("new_high", optional (nonnegative (int z_number)))
                ∷ ("strong_up", optional (nonnegative (int z_number)))
                ∷ ("flat", optional (nonnegative (int z_number)))
                ∷ ("strong_down", optional (nonnegative (int z_number)))
                ∷ ("new_low", optional (nonnegative (int z_number)))
                ∷ []))),
      )
      ∷ (
        "items",
        array (
            object (
              shape (
                ("symbol", min_length 1 (trimmed z_string))
                ∷ ("open", optional (nullable z_number))
                ∷ ("high", optional (nullable z_number))
                ∷ ("low", optional (nullable z_number))
                ∷ ("close", optional (nullable z_number))
                ∷ ("last_price", optional (nullable z_number))
                ∷ ("session_high", optional (nullable z_number))
                ∷ ("session_low", optional (nullable z_number))
                ∷ ("reference_price", optional (nullable z_number))
                ∷ ("price_chg", optional (nullable z_number))
                ∷ ("pct_chg", optional (nullable z_number))
                ∷ ("gap_value", optional (nullable z_number))
                ∷ ("gap_pct", optional (nullable z_number))
                ∷ ("is_gap_up", optional (nullable z_boolean))
                ∷ ("is_gap_down", optional (nullable z_boolean))
                ∷ ("is_new_high", optional (nullable z_boolean))
                ∷ ("is_new_low", optional (nullable z_boolean))
                ∷ (
                  "strength_state",
                  optional (
                      nullable (
                        enum ("new_high" ∷ "strong_up" ∷ "flat" ∷ "strong_down" ∷ "new_low" ∷ []))),
                )
                ∷ ("strength_score", optional (nullable z_number))
                ∷ ("strength_pct", optional (nullable z_number))
                ∷ ("updated_at", optional (nullable z_number))
                ∷ []))),
      )
      ∷ []))

abbrev pub spot_market_distribution_bucket_schema : Zod
spot_market_distribution_bucket_schema = object (
    shape (
      ("label", min_length 1 z_string)
      ∷ ("lower_pct", z_number)
      ∷ ("upper_pct", z_number)
      ∷ ("count", nonnegative (int z_number))
      ∷ []))

abbrev pub spot_market_distribution_latest_schema : Zod
spot_market_distribution_latest_schema = object (
    shape (
      ("ts", z_number)
      ∷ ("up_count", nonnegative (int z_number))
      ∷ ("down_count", nonnegative (int z_number))
      ∷ ("flat_count", nonnegative (int z_number))
      ∷ ("total_count", nonnegative (int z_number))
      ∷ ("trend_index", optional (nullable z_number))
      ∷ ("bucket_width_pct", positive (int z_number))
      ∷ ("distribution_buckets", array spot_market_distribution_bucket_schema)
      ∷ []))

abbrev pub spot_market_distribution_series_item_schema : Zod
spot_market_distribution_series_item_schema = object (
    shape (
      ("ts", z_number)
      ∷ ("up_count", nonnegative (int z_number))
      ∷ ("down_count", nonnegative (int z_number))
      ∷ ("flat_count", nonnegative (int z_number))
      ∷ ("total_count", nonnegative (int z_number))
      ∷ ("trend_index", optional (nullable z_number))
      ∷ []))

abbrev pub spot_market_distribution_series_schema : Zod
spot_market_distribution_series_schema =
    object (shape (("items", array spot_market_distribution_series_item_schema) ∷ []))
