-- ===== src/Download/Scanning.antt =====
-- What a scanner reads, and the lines of a text.
use streamweaver.Prelude.{
  ℕ, ◌+◌, ◌≡◌, refl, ap, ◌∙◌, Bool-cases, inl, inr, false, some, List, [], ◌∷◌, ◌++◌, arith, All,
  Text, has_suffix, has_prefix, strip_prefix, lookup, length, ◌<◌, ◌||◌, sym, leb, ◌==◌,
  if◌then◌else◌,
}
use mathlib.Core.List.{reverse, reverse-append, reverse-reverse, append_assoc, append-nil}
use streamweaver.Disk.{Disk}
use streamweaver.Download.{
  Scanned, scan, line_of, buffer_size, number_lines, read_error, scan_and_stream, open_file,
  handle_local_file,
}

-- A text of which no line is too long is read to its end.
pub scan-read :
    (limit n : ℕ) (cur s : Text)
    → (scan limit n cur s).too_long ≡ false
    → (scan limit n cur s).read ≡ s
unfolding scan
scan-read limit n cur [] h = refl
scan-read limit n cur (c ∷ s) h = elim (Bool-cases (c == b'\n')) [
  | inl e ↦ rw (e, scan) (ap (λ t. c ∷ t) (scan-read limit 0 [] s (rw (e, scan) at h)))
  | inr e ↦ elim (Bool-cases (leb limit (n + 1))) [
    | inl f ↦ absurd (ground (arith, h))
    | inr f ↦
        rw (e, scan)
          (rw (f, scan) (ap (λ t. c ∷ t) (scan-read limit (n + 1) (c ∷ cur) s (ground (arith, h)))))
  ]
]

-- A line as it is in a file: it has no line feed, does not end with a carriage return, and fits the buffer.
pub record IsLine (limit : ℕ) (t : Text) : Type 0 where
  pub no_feed : All (λ c. (c == b'\n') ≡ false) t
  pub no_return : has_suffix t (b'\r' ∷ []) ≡ false
  pub fits : length t < limit

abbrev pub joined : List Text → Text
joined [] = []
joined (t ∷ ts) = t ++ b'\n' ∷ joined ts

abbrev push : Text → Text → Text
push [] cur = cur
push (c ∷ t) cur = push t (c ∷ cur)

push-reverse : (t cur : Text) → push t cur ≡ reverse t ++ cur
push-reverse [] cur = refl
push-reverse (c ∷ t) cur =
    push-reverse t (c ∷ cur)
    ∙ sym (ap (λ r. r ++ cur) (reverse-append (c ∷ []) t) ∙ append_assoc (reverse t) (c ∷ []) cur)

line_of-reversed : (r : Text) → has_prefix r (b'\r' ∷ []) ≡ false → line_of r ≡ reverse r
unfolding has_prefix strip_prefix
line_of-reversed [] h = refl
line_of-reversed (c ∷ cs) h = ground (arith, h)

line_of-push : (t : Text) → has_suffix t (b'\r' ∷ []) ≡ false → line_of (push t []) ≡ t
unfolding has_suffix
line_of-push t h =
    ap line_of (push-reverse t [] ∙ append-nil (reverse t))
    ∙ line_of-reversed (reverse t) h
    ∙ reverse-reverse t

-- What is scanned after a line.
abbrev after_line : Text → Text → Scanned → Scanned
after_line text line rest = record rest {
  texts = line_of line ∷ rest.texts;
  read = text ++ b'\n' ∷ rest.read;
}

scan-line :
    (limit n : ℕ) (cur t s : Text)
    → All (λ c. (c == b'\n') ≡ false) t
    → n + length t < limit
    → scan limit n cur (t ++ b'\n' ∷ s) ≡ after_line t (push t cur) (scan limit 0 [] s)
unfolding scan
scan-line limit n cur [] s a h = refl
scan-line limit n cur (c ∷ t) s a h =
    let short : leb limit (n + 1) ≡ false = ground (arith, h) in
    rw (a.0, scan)
      (rw (short, scan)
        (ap (λ (r : Scanned). record r { read = c ∷ r.read })
          (scan-line limit (n + 1) (c ∷ cur) t s a.1 (omega arith))))

pub scan-joined :
    (limit : ℕ) (ts : List Text)
    → All (IsLine limit) ts
    → scan limit 0 [] (joined ts) ≡ record { texts = ts; read = joined ts; too_long = false }
unfolding scan
scan-joined limit [] a = refl
scan-joined limit (t ∷ ts) a =
    scan-line limit 0 [] t (joined ts) a.0.no_feed (omega (arith, a.0.fits))
    ∙ ap (after_line t (push t [])) (scan-joined limit ts a.1)
    ∙ ap (λ l. record { texts = l ∷ ts; read = t ++ b'\n' ∷ joined ts; too_long = false })
        (line_of-push t a.0.no_return)

-- The lines of a local file, each ended by a line feed, come from it in their order, numbered from zero, and
-- without an error, if the file can be opened and each line fits the buffer and has no line end in it.
pub handle_local_file-lines :
    (path idx : Text) (ts : List Text) (disk : Disk)
    → disk.broken path ≡ false
    → lookup path disk.files ≡ some (joined ts)
    → All (IsLine buffer_size) ts
    → handle_local_file path idx disk
      ≡ record { index = idx; lines = number_lines 0 ts; errors = [] }
unfolding handle_local_file open_file
handle_local_file-lines path idx ts disk b h a =
    rw (b, handle_local_file)
      (rw (h, handle_local_file)
        (unfold scan_and_stream in
          ap
            (λ (s : Scanned). record {
              index = idx;
              lines = number_lines 0 s.texts;
              errors = if s.too_long || false then read_error ∷ [] else [];
            })
            (scan-joined buffer_size ts a)))
