-- ===== src/Recommender.antt =====
-- Package recommender (internal/recommender): usage histograms and percentile readouts.
pub mod Histogram
pub mod States
