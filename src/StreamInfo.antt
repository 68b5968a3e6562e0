-- ===== src/StreamInfo.antt =====
-- sourceproc/stream_info.go: a channel with the addresses of its streams.
use streamweaver.Prelude.{ℕ, Option, Text, Table}

-- The addresses by M3U index and then by sub-index; `none` for a nil map.
pub record StreamInfo : Type 0 where
  pub title : Text
  pub tvg_id : Text
  pub tvg_ch_no : Text
  pub tvg_type : Text
  pub logo_url : Text
  pub group : Text
  pub urls : Option (Table (Table Text))
  pub source_m3u : Text
  pub source_index : ℕ
