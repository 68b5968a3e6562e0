-- ===== src/Filter/Examples.antt =====
-- Filters whose regular expressions are plain texts, of which "(" does not compile.
use streamweaver.Prelude.{
  ◌≡◌, refl, false, Option, none, some, [], ◌∷◌, Text, bytes, text_eq, if◌then◌else◌,
}
use streamweaver.StreamInfo.{StreamInfo}
use streamweaver.Filter.{check_filter, init_filters}

abbrev compile : Text → Option Text
compile f = if text_eq f (bytes "(") then none else some f

abbrev channel : StreamInfo
channel = record {
  title = bytes "News";
  tvg_id = [];
  tvg_ch_no = [];
  tvg_type = [];
  logo_url = [];
  group = bytes "UK";
  urls = none;
  source_m3u = [];
  source_index = 0;
}

dropped :
    check_filter text_eq (init_filters compile (bytes "(" ∷ []) [] [] (bytes "News" ∷ [])) channel
    ≡ false
unfolding check_filter init_filters text_eq
dropped = refl
