-- ===== src/Processing/Examples.antt =====
-- Two entries of a source, and an entry with a blank line.
use streamweaver.Prelude.{
  ℕ, ◌≡◌, refl, true, none, List, [], ◌∷◌, Text, bytes, has_prefix, strip_prefix,
}
use streamweaver.Processing.{Parts, LineDetails, trim_space, handle_downloaded}
use streamweaver.Processing.Lines.{Entry, lines_of, parse_entries, handle_downloaded-entries}

abbrev parts : Parts
parts = record {
  find_attributes = λ line. [];
  substr_filter = λ t. t;
  scheme_and_host = λ t. none;
  url_encode = λ t. t;
  join_base = λ t. none;
  encode = λ t. t;
  url_hash = λ t. t;
  decimal = λ n. b'1' ∷ [];
  streams_dir = bytes "/d";
}

abbrev line_at : Text → ℕ → LineDetails
line_at t n = record { content = t; line_num = n }

abbrev two_entries : List Entry
two_entries =
    record {
      head = line_at (bytes "#EXTINF:-1,A") 1;
      comments = line_at (bytes "#EXTGRP:g") 2 ∷ [];
      address = line_at (bytes "http://a") 3;
    }
    ∷ record {
      head = line_at (bytes "#EXTINF:-1,B") 4;
      comments = [];
      address = line_at (bytes "http://b") 5;
    }
    ∷ []

handle_downloaded-entries_example :
    handle_downloaded parts (λ s. true) (bytes "1") (lines_of two_entries) [] []
    ≡ parse_entries parts (λ s. true) (bytes "1") two_entries []
unfolding trim_space has_prefix strip_prefix
handle_downloaded-entries_example =
    handle_downloaded-entries parts (λ s. true) (bytes "1") two_entries []
      (
        record { head_ok = refl; comments_ok = ((refl, refl), tt); address_ok = refl },
        (record { head_ok = refl; comments_ok = tt; address_ok = refl }, tt),
      )
