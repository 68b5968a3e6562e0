-- ===== src/Updater/Examples.antt =====
-- Updates of one source, which is a local file.
use streamweaver.Prelude.{
  ◌≡◌, strip_prefix, refl, true, false, inl, none, some, List, [], ◌∷◌, ◌++◌, map, Text, bytes,
  text_eq, is_empty, insertion_sort, lookup, put,
}
use streamweaver.StreamInfo.{StreamInfo}
use streamweaver.Env.{determine_base_url}
use streamweaver.Sorting.{Shard, new_shard}
use streamweaver.Sorting.Entries.{Sorter}
use streamweaver.Sorting.Entries.Order.{values, sorted_entries}
use streamweaver.Processing.{Parts, trim_space, trim_left, compile_m3u}
use streamweaver.Download.{no_answer, silent, any_hangs}
use streamweaver.Disk.{Disk, has_slash}
use streamweaver.Paths.{get_new_m3u_path, get_m3u_file_path_by_index}
use streamweaver.Processor.{Setup, fresh}
use streamweaver.Processor.Ending.{Succeed}
use streamweaver.Processor.Playlist.{produced, worked}
use streamweaver.Updater.{Update, updated, Started, update_sources, initialize}
use streamweaver.Updater.Serving.{update-served}
use streamweaver.Updater.Boot.{update-given_up}

abbrev parts : Parts
parts = record {
  find_attributes = λ line. [];
  substr_filter = λ t. t;
  scheme_and_host = λ t. none;
  url_encode = λ t. t;
  join_base = λ t. none;
  encode = λ t. t;
  url_hash = λ t. bytes "abc";
  decimal = λ n. b'1' ∷ [];
  streams_dir = bytes "d/streams";
}

abbrev sorter : Sorter
sorter = record {
  pad = λ width n. [];
  slice = insertion_sort StreamInfo;
  json = record { entry = λ s. record s { urls = none }; key = λ k. k };
  ranged = values;
  sorting_key = [];
  direction = [];
}

abbrev setup : Setup
setup = record {
  parts = parts;
  keeps = λ s. true;
  shard_of = λ t. 0;
  sorter = sorter;
  url_of = λ base s. base ++ bytes "/" ++ s.title;
  indexes = bytes "1" ∷ [];
  address_of = λ idx. bytes "file:///m";
  fetch = λ url. no_answer;
  schedule = map (λ s. (s, false));
  dir = bytes "d/processed";
  sources = bytes "t/sources";
}

abbrev disk : Disk
disk = record {
  dirs = [];
  files = (bytes "/m", bytes "#EXTM3U\n#EXTINF:-1,A\nhttp://a\n") ∷ [];
  broken = λ p. false;
}

abbrev nightly : Update
nightly = record {
  now = bytes "20240102000000";
  base_url = some (bytes "http://h");
  ended = false;
  cancelled = false;
  writes = record {
    header_fails = false;
    entry_fails = false;
    shard_faults = record { flush_fails = λ i. false; open_fails = λ i. false };
    flush_fails = false;
    torn = [];
  };
}

schedule-Succeed : (ss : List StreamInfo) → Succeed setup (map (λ s. (s, false)) ss)
schedule-Succeed [] = tt
schedule-Succeed (s ∷ ss) = (refl, schedule-Succeed ss)

abbrev prod : Text
prod = get_new_m3u_path setup.dir nightly.now

abbrev tmp : Text
tmp = prod ++ bytes ".tmp"

abbrev made : Disk
made = record disk { dirs = setup.dir ∷ disk.dirs; files = put tmp [] disk.files }

abbrev shards : List Shard
shards = new_shard ∷ []

update-served_example :
    (disk' : Disk) × (update_sources setup shards nightly [] disk ≡ updated prod disk')
    × (lookup prod disk'.files
        ≡ some (
            compile_m3u
              (setup.url_of (determine_base_url (some (bytes "http://h")) none))
              (sorted_entries setup.sorter (worked setup made (fresh tmp shards)).shards)))
unfolding text_eq get_new_m3u_path get_m3u_file_path_by_index any_hangs is_empty strip_prefix
update-served_example =
    update-served setup shards nightly (bytes "http://h") [] disk refl refl refl refl refl refl
      (schedule-Succeed (produced setup made).0)
      (record {
        header = refl;
        entry = refl;
        shards = record { flushed = λ i. refl; opened = λ i. refl };
        flush = refl;
      })
      ((refl, refl), tt) refl

-- The source is remote, and gives no answer; and the context of the update is cancelled.
abbrev remote : Setup
remote = record setup { address_of = λ idx. bytes "http://m"; fetch = λ url. silent }

remote_hangs : any_hangs remote.sources remote.address_of remote.fetch remote.indexes made ≡ true
unfolding any_hangs is_empty strip_prefix
remote_hangs = refl

update-given_up_example :
    (disk' : Disk) × (update_sources setup shards (record nightly { ended = true }) [] disk
      ≡ updated [] disk')
    × (initialize setup.dir (λ s. true) [] [] [] [] disk' ≡ Started.panic)
unfolding has_slash text_eq is_empty trim_space trim_left
update-given_up_example =
    update-given_up setup shards (record nightly { ended = true }) [] disk (λ s. true) [] [] [] []
      refl refl refl (inl refl) refl

-- A stream with an address.
abbrev first_stream : StreamInfo
first_stream = record {
  title = bytes "A b";
  tvg_id = [];
  tvg_ch_no = [];
  tvg_type = [];
  logo_url = [];
  group = [];
  urls = some ((bytes "1", []) ∷ []);
  source_m3u = bytes "1";
  source_index = 0;
}
