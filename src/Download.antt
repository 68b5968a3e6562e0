-- ===== src/Download.antt =====
-- sourceproc/downloader.go: the lines of each source, from a file or from its address, with the file that keeps them. The
-- sources are downloaded at the same time, each with files of its own; here they follow one another.
pub mod Scanning
pub mod Fallback
mod Examples
use streamweaver.Prelude.{
  ℕ, zero, suc, ◌+◌, Bool, true, false, ◌||◌, not, Option, none, some, List, [], ◌∷◌, ◌++◌, Text,
  bytes, strip_prefix, has_prefix, is_empty, leb, lookup, ◌==◌, if◌then◌else◌,
}
use mathlib.Core.List.{reverse}
use streamweaver.Processing.{LineDetails}
use streamweaver.Disk.{Disk, mkdir_all, create, under}
use streamweaver.Paths.{get_m3u_file_path_by_index}

-- What a bufio.Scanner makes of a text: the lines, what it has read, and whether a line was too long.
pub record Scanned : Type 0 where
  pub texts : List Text
  pub read : Text
  pub too_long : Bool

-- A line is gathered backwards; a carriage return at its end is dropped.
abbrev pub line_of : Text → Text
line_of [] = []
line_of (c ∷ cs) = if c == b'\r' then reverse cs else reverse (c ∷ cs)

abbrev pub last_line : Text → List Text
last_line [] = []
last_line (c ∷ cs) = line_of (c ∷ cs) ∷ []

-- `n` is the length of the line so far, and `limit` the size of the buffer, which the line does not fill.
unfoldable pub scan : ℕ → ℕ → Text → Text → Scanned
scan limit n cur [] = record { texts = last_line cur; read = []; too_long = false }
scan limit n cur (c ∷ s) = elim (c == b'\n') [
  | true ↦
      let rest = scan limit 0 [] s in
      record rest { texts = line_of cur ∷ rest.texts; read = c ∷ rest.read }
  | false ↦ elim (leb limit (n + 1)) [
    | true ↦ record { texts = []; read = c ∷ []; too_long = true }
    | false ↦ let rest = scan limit (n + 1) (c ∷ cur) s in record rest { read = c ∷ rest.read }
  ]
]

abbrev pub buffer_size : ℕ
buffer_size = 1048576

unfoldable pub number_lines : ℕ → List Text → List LineDetails
number_lines n [] = []
number_lines n (t ∷ ts) = record { content = t; line_num = n } ∷ number_lines (n + 1) ts

pub data DownloadError : Type 0 where
  no_url open_error dir_error request_error invalid_response create_error read_error : DownloadError
  status_error : ℕ → DownloadError

pub record SourceDownloaderResult : Type 0 where
  pub index : Text
  pub lines : List LineDetails
  pub errors : List DownloadError

-- The result and what was read. `breaks` says that the reader ends with an error after the text.
unfoldable pub scan_and_stream : Text → Text → Bool → SourceDownloaderResult × Text
unfolding scan number_lines
scan_and_stream idx text breaks =
    let s = scan buffer_size 0 [] text in
    (
      record {
        index = idx;
        lines = number_lines 0 s.texts;
        errors = if s.too_long || breaks then read_error ∷ [] else [];
      },
      s.read,
    )

abbrev pub failure : Text → DownloadError → SourceDownloaderResult
failure idx e = record { index = idx; lines = []; errors = e ∷ [] }

unfoldable pub open_file : Text → Disk → Option Text
unfolding lookup
open_file path disk = if disk.broken path then none else lookup path disk.files

unfoldable pub handle_local_file : Text → Text → Disk → SourceDownloaderResult
unfolding open_file scan_and_stream
handle_local_file path idx disk = elim (open_file path disk) [
  | none ↦ failure idx open_error
  | some text ↦ (scan_and_stream idx text false).0
]

-- The answer to a request: an error, or a status with a body, and whether its reading ends with an error; or none that
-- ever comes, or whose body never ends, since the client has no timeout.
pub data Fetched : Type 0 where
  no_answer silent : Fetched
  answered : ℕ → Text → Bool → Fetched

unfoldable pub use_fallback : Text → Option Text → DownloadError → SourceDownloaderResult
unfolding scan_and_stream
use_fallback idx none e = failure idx e
use_fallback idx (some text) e = (scan_and_stream idx text false).0

-- A body that Peek(7) has an error for is shorter than the prefix.
-- Nothing follows a silent source: `any_hangs` then keeps the processor from its end.
unfoldable pub handle_answer :
    Text → Text → Option Text → Fetched → Disk → SourceDownloaderResult × Disk
unfolding use_fallback scan_and_stream create has_prefix
handle_answer path idx fallback no_answer disk = (use_fallback idx fallback request_error, disk)
handle_answer path idx fallback silent disk =
    (record { index = idx; lines = []; errors = [] }, disk)
handle_answer path idx fallback (answered status body breaks) disk =
    let (result, read) = scan_and_stream idx body breaks in
    if not (status == 200)
    then (use_fallback idx fallback (status_error status), disk)
    else if not (has_prefix body (bytes "#EXTM3U"))
    then (use_fallback idx fallback invalid_response, disk)
    else elim (create (path ++ bytes ".new") read disk) [
      | none ↦ (use_fallback idx fallback create_error, disk)
      | some disk' ↦ (result, disk')
    ]

module _ (sources : Text) where
  unfoldable pub handle_remote_url : Text → Fetched → Disk → SourceDownloaderResult × Disk
  unfolding handle_answer open_file mkdir_all
  handle_remote_url idx fetched disk = elim (mkdir_all sources disk) [
    | none ↦ (failure idx dir_error, disk)
    | some disk' ↦
        let path = get_m3u_file_path_by_index sources idx in
        handle_answer path idx (open_file path disk') fetched disk'
  ]

  -- `address_of` is the variable M3U_URL_ of an index, and `fetch` the answer to a request of an address.
  module _ (address_of : Text → Text) (fetch : Text → Fetched) where
    unfoldable pub download_source : Text → Disk → SourceDownloaderResult × Disk
    unfolding handle_local_file handle_remote_url strip_prefix is_empty
    download_source idx disk =
        let address = address_of idx in
        if is_empty address
        then (failure idx no_url, disk)
        else elim (strip_prefix (bytes "file://") address) [
          | some path ↦ (handle_local_file path idx disk, disk)
          | none ↦ handle_remote_url idx (fetch address) disk
        ]

    -- Whether the channel of a source is never closed.
    unfoldable pub download_hangs : Text → Disk → Bool
    unfolding mkdir_all strip_prefix is_empty
    download_hangs idx disk =
        let address = address_of idx in
        if is_empty address then false else elim (strip_prefix (bytes "file://") address) [
          | some path ↦ false
          | none ↦ elim (mkdir_all sources disk) [
            | none ↦ false
            | some disk' ↦ elim (fetch address) [
              | no_answer ↦ false
              | silent ↦ true
              | answered status body breaks ↦ false
            ]
          ]
        ]

    unfoldable pub any_hangs : List Text → Disk → Bool
    unfolding download_hangs
    any_hangs [] disk = false
    any_hangs (idx ∷ indexes) disk = download_hangs idx disk || any_hangs indexes disk

    unfoldable pub stream_download_m3u_sources :
        List Text → Disk → List SourceDownloaderResult × Disk
    unfolding download_source
    stream_download_m3u_sources [] disk = ([], disk)
    stream_download_m3u_sources (idx ∷ indexes) disk =
        let (result, disk') = download_source idx disk in
        let (results, disk'') = stream_download_m3u_sources indexes disk' in
        (result ∷ results, disk'')
