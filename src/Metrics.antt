-- ===== src/Metrics.antt =====
-- src/metrics.rs: the counters are u64 and wrap, as `fetch_add` does. A snapshot reads each of them.
use llm_wake_proxy.Base.{ℕ, ◌+◌, ◌%◌, ◌^◌}

-- Metrics, and MetricsSnapshot, which has the same fields.
pub record Metrics : Type 0 where
  pub cold_starts : ℕ
  pub warm_requests : ℕ
  pub queue_full_rejections : ℕ
  pub queue_timeouts : ℕ
  pub wake_attempts : ℕ
  pub wake_failures : ℕ
  pub tunnel_drops : ℕ
  pub embeddings_degraded : ℕ
  pub forwarding_errors : ℕ
  pub chat_requests : ℕ
  pub embeddings_requests : ℕ

abbrev pub default_metrics : Metrics
default_metrics = record {
  cold_starts = 0;
  warm_requests = 0;
  queue_full_rejections = 0;
  queue_timeouts = 0;
  wake_attempts = 0;
  wake_failures = 0;
  tunnel_drops = 0;
  embeddings_degraded = 0;
  forwarding_errors = 0;
  chat_requests = 0;
  embeddings_requests = 0;
}

-- `Metrics::snapshot`, with no increment between two of its reads.
unfoldable pub snapshot : Metrics → Metrics
snapshot m = record {
  cold_starts = m.cold_starts;
  warm_requests = m.warm_requests;
  queue_full_rejections = m.queue_full_rejections;
  queue_timeouts = m.queue_timeouts;
  wake_attempts = m.wake_attempts;
  wake_failures = m.wake_failures;
  tunnel_drops = m.tunnel_drops;
  embeddings_degraded = m.embeddings_degraded;
  forwarding_errors = m.forwarding_errors;
  chat_requests = m.chat_requests;
  embeddings_requests = m.embeddings_requests;
}

-- `fetch_add(1, Relaxed)`.
abbrev pub fetch_add : ℕ → ℕ
fetch_add n = (n + 1) % 2 ^ 64

unfoldable pub inc_cold_starts : Metrics → Metrics
inc_cold_starts m = record m { cold_starts = fetch_add m.cold_starts }

unfoldable pub inc_warm_requests : Metrics → Metrics
inc_warm_requests m = record m { warm_requests = fetch_add m.warm_requests }

unfoldable pub inc_queue_full : Metrics → Metrics
inc_queue_full m = record m { queue_full_rejections = fetch_add m.queue_full_rejections }

unfoldable pub inc_queue_timeouts : Metrics → Metrics
inc_queue_timeouts m = record m { queue_timeouts = fetch_add m.queue_timeouts }

unfoldable pub inc_wake_attempts : Metrics → Metrics
inc_wake_attempts m = record m { wake_attempts = fetch_add m.wake_attempts }

unfoldable pub inc_wake_failures : Metrics → Metrics
inc_wake_failures m = record m { wake_failures = fetch_add m.wake_failures }

unfoldable pub inc_tunnel_drops : Metrics → Metrics
inc_tunnel_drops m = record m { tunnel_drops = fetch_add m.tunnel_drops }

unfoldable pub inc_embeddings_degraded : Metrics → Metrics
inc_embeddings_degraded m = record m { embeddings_degraded = fetch_add m.embeddings_degraded }

unfoldable pub inc_forwarding_errors : Metrics → Metrics
inc_forwarding_errors m = record m { forwarding_errors = fetch_add m.forwarding_errors }

unfoldable pub inc_chat_requests : Metrics → Metrics
inc_chat_requests m = record m { chat_requests = fetch_add m.chat_requests }

unfoldable pub inc_embeddings_requests : Metrics → Metrics
inc_embeddings_requests m = record m { embeddings_requests = fetch_add m.embeddings_requests }
