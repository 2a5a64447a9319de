-- ===== src/Events.antt =====
-- apps/frontend/src/features/realtime/types/realtime.types.ts: the names of the events, and the
-- states of the connection. A name is compared as text once; `other` is a name that no branch knows.
use trading_monitoring_dashb.Base.{if◌then◌else◌}
use trading_monitoring_dashb.Base.Text.{Text, codes, text_eq}

pub data ServingSseEventName : Type 0 where
  kbar_current metric_latest index_contrib_ranking index_contrib_sector : ServingSseEventName
  market_summary_latest otc_summary_latest quote_latest spot_latest_list : ServingSseEventName
  spot_market_distribution_latest spot_market_distribution_series : ServingSseEventName
  heartbeat other : ServingSseEventName

pub data SseConnectionStatus : Type 0 where
  idle connecting connected retrying error : SseConnectionStatus

-- The reasons that accompany a status.
pub data ErrorReason : Type 0 where
  stream_disconnected auth_failed rate_limited : ErrorReason

unfoldable pub event_name : Text → ServingSseEventName
event_name t =
    if text_eq t (codes "kbar_current")
    then kbar_current
    else if text_eq t (codes "metric_latest")
    then metric_latest
    else if text_eq t (codes "index_contrib_ranking")
    then index_contrib_ranking
    else if text_eq t (codes "index_contrib_sector")
    then index_contrib_sector
    else if text_eq t (codes "market_summary_latest")
    then market_summary_latest
    else if text_eq t (codes "otc_summary_latest")
    then otc_summary_latest
    else if text_eq t (codes "quote_latest")
    then quote_latest
    else if text_eq t (codes "spot_latest_list")
    then spot_latest_list
    else if text_eq t (codes "spot_market_distribution_latest")
    then spot_market_distribution_latest
    else if text_eq t (codes "spot_market_distribution_series")
    then spot_market_distribution_series
    else if text_eq t (codes "heartbeat")
    then heartbeat
    else other
