-- ===== src/Download/Examples.antt =====
-- The lines of small files.
use streamweaver.Prelude.{◌≡◌, refl, [], ◌∷◌, bytes}
use streamweaver.Download.{scan}

-- The last line needs no line feed, and a carriage return is dropped.
last_line : (scan 9 0 [] (bytes "ab\r\nc")).texts ≡ bytes "ab" ∷ bytes "c" ∷ []
unfolding scan
last_line = refl

too_long : (scan 3 0 [] (bytes "a\nbcde")).read ≡ bytes "a\nbcd"
unfolding scan
too_long = refl
