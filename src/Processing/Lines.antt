-- ===== src/Processing/Lines.antt =====
-- What the loop over the lines of a source makes of entries, of the lines between them, and of blank lines.
use streamweaver.Prelude.{
  ◌≡◌, refl, sym, ◌&&◌, ap, ◌∙◌, Bool, true, false, not, Option, none, some, List, [], ◌∷◌, ◌++◌,
  arith, All, Text, bytes, is_empty, has_prefix, strip_prefix, Table, if◌then◌else◌,
}
use streamweaver.StreamInfo.{StreamInfo}
use streamweaver.Coordinator.Pump.{if_false, if_true}
use streamweaver.Processing.{
  Parts, LineDetails, trim_space, parse_line, handle_line, handle_downloaded,
}

-- A line of an entry's head, of its address, and one that is neither.
abbrev pub IsHead : LineDetails → Type 0
IsHead l = has_prefix (trim_space l.content) (bytes "#EXTINF:") ≡ true

abbrev pub IsAddress : LineDetails → Type 0
IsAddress l = has_prefix (trim_space l.content) (bytes "#") ≡ false

abbrev pub IsComment : LineDetails → Type 0
IsComment l =
    (has_prefix (trim_space l.content) (bytes "#EXTINF:") ≡ false)
    × (has_prefix (trim_space l.content) (bytes "#") ≡ true)

pub record Entry : Type 0 where
  pub head : LineDetails
  pub comments : List LineDetails
  pub address : LineDetails

abbrev pub lines_of : List Entry → List LineDetails
lines_of [] = []
lines_of (e ∷ es) = e.head ∷ e.comments ++ e.address ∷ lines_of es

pub record IsEntry (e : Entry) : Type 0 where
  pub head_ok : IsHead e.head
  pub comments_ok : All IsComment e.comments
  pub address_ok : IsAddress e.address

no_head : (s : Text) → has_prefix s (bytes "#") ≡ false → has_prefix s (bytes "#EXTINF:") ≡ false
unfolding has_prefix strip_prefix
no_head [] h = refl
no_head (c ∷ s) h = ground (arith, h)

head-some : (s : Text) → has_prefix s (bytes "#EXTINF:") ≡ true → is_empty s ≡ false
unfolding has_prefix strip_prefix is_empty
head-some [] h = absurd (ground (arith, h))
head-some (c ∷ s) h = refl

blank-IsAddress : (l : LineDetails) → trim_space l.content ≡ [] → IsAddress l
unfolding has_prefix strip_prefix
blank-IsAddress l h = rw h

guard-comment : (b : Bool) {c : Bool} → c ≡ true → (b && not c) ≡ false
guard-comment true h = rw h
guard-comment false h = refl

guard-address : {b c : Bool} → b ≡ false → c ≡ false → (not b && not c) ≡ true
guard-address h k = rw (h, k)

module _ (parts : Parts) (keeps : StreamInfo → Bool) (m3u_index : Text) where
  abbrev kept : Option StreamInfo → List StreamInfo
  kept none = []
  kept (some s) = if keeps s then s ∷ [] else []

  taken :
      (o : Option StreamInfo) (files : Table Text)
      → ◌≡◌ {A = List StreamInfo × Text × Table Text}
          (elim o as (λ x. List StreamInfo × Text × Table Text) [
            | none ↦ ([], [], files)
            | some s ↦ (if keeps s then s ∷ [] else [], [], files)
          ])
          (kept o, [], files)
  taken none files = refl
  taken (some s) files = refl

  -- The entries, each parsed in order, without any loop over lines.
  abbrev pub parse_entries : List Entry → Table Text → List StreamInfo × Table Text
  parse_entries [] files = ([], files)
  parse_entries (e ∷ es) files =
      let parsed = parse_line parts files (trim_space e.head.content) e.address m3u_index in
      let rest = parse_entries es parsed.1 in (kept parsed.0 ++ rest.0, rest.1)

  handle_line-head :
      (l : LineDetails) (current : Text) (files : Table Text)
      → IsHead l
      → handle_line parts keeps m3u_index l current files ≡ ([], trim_space l.content, files)
  unfolding handle_line
  handle_line-head l current files h = rw (handle_line, h)

  handle_line-comment :
      (l : LineDetails) (current : Text) (files : Table Text)
      → IsComment l
      → handle_line parts keeps m3u_index l current files ≡ ([], current, files)
  unfolding handle_line
  handle_line-comment l current files h =
      if_false _ h.0 ∙ if_false _ (guard-comment (not (is_empty current)) h.1)

  handle_line-address :
      (l : LineDetails) (current : Text) (files : Table Text)
      → is_empty current ≡ false
      → IsAddress l
      → handle_line parts keeps m3u_index l current files
        ≡ (let parsed = parse_line parts files current l m3u_index in (kept parsed.0, [], parsed.1))
  unfolding handle_line
  handle_line-address l current files e h =
      if_false _ (no_head (trim_space l.content) h)
      ∙ if_true _ (guard-address e h)
      ∙ taken (parse_line parts files current l m3u_index).0
          (parse_line parts files current l m3u_index).1

  handle_line-idle :
      (l : LineDetails) (files : Table Text)
      → IsAddress l
      → handle_line parts keeps m3u_index l [] files ≡ ([], [], files)
  unfolding handle_line is_empty
  handle_line-idle l files h = if_false _ (no_head (trim_space l.content) h)

  handle_downloaded-cons :
      (l : LineDetails) (ls : List LineDetails) (current current' : Text)
      (files files' : Table Text) (streams : List StreamInfo)
      → handle_line parts keeps m3u_index l current files ≡ (streams, current', files')
      → handle_downloaded parts keeps m3u_index (l ∷ ls) current files ≡ (
          let rest = handle_downloaded parts keeps m3u_index ls current' files' in
          (streams ++ rest.0, rest.1))
  unfolding handle_downloaded
  handle_downloaded-cons l ls current current' files files' streams h = rw (handle_downloaded, h)

  handle_downloaded-comments :
      (cs : List LineDetails) (ls : List LineDetails) (current : Text) (files : Table Text)
      → All IsComment cs
      → handle_downloaded parts keeps m3u_index (cs ++ ls) current files
        ≡ handle_downloaded parts keeps m3u_index ls current files
  handle_downloaded-comments [] ls current files h = refl
  handle_downloaded-comments (c ∷ cs) ls current files h =
      handle_downloaded-cons c (cs ++ ls) current current files files []
        (handle_line-comment c current files h.0)
      ∙ handle_downloaded-comments cs ls current files h.1

  -- A source whose lines are entries, each a head, comments, and an address, gives for each entry in order the stream of
  -- the head and the address, if the head has a title and the filter keeps it, and the files of all.
  pub handle_downloaded-entries :
      (es : List Entry) (files : Table Text)
      → All IsEntry es
      → handle_downloaded parts keeps m3u_index (lines_of es) [] files ≡ parse_entries es files
  unfolding handle_downloaded
  handle_downloaded-entries [] files h = refl
  handle_downloaded-entries (e ∷ es) files h =
      let line = trim_space e.head.content in
      let parsed = parse_line parts files line e.address m3u_index in
      handle_downloaded-cons e.head (e.comments ++ e.address ∷ lines_of es) [] line files files []
        (handle_line-head e.head [] files h.0.head_ok)
      ∙ handle_downloaded-comments e.comments (e.address ∷ lines_of es) line files h.0.comments_ok
      ∙ handle_downloaded-cons e.address (lines_of es) line [] files parsed.1 (kept parsed.0)
          (handle_line-address e.address line files (head-some line h.0.head_ok) h.0.address_ok)
      ∙ ap (λ (r : List StreamInfo × Table Text). (kept parsed.0 ++ r.0, r.1))
          (handle_downloaded-entries es parsed.1 h.1)

  -- A blank line between the head of an entry and its address is taken for the address: whatever the
  -- address is, the result is as without the line of the address.
  pub handle_downloaded-blank :
      (head blank address : LineDetails) (rest : List LineDetails) (current : Text)
      (files : Table Text)
      → IsHead head
      → trim_space blank.content ≡ []
      → IsAddress address
      → handle_downloaded parts keeps m3u_index (head ∷ blank ∷ address ∷ rest) current files
        ≡ handle_downloaded parts keeps m3u_index (head ∷ blank ∷ rest) current files
  handle_downloaded-blank head blank address rest current files h b a =
      let line = trim_space head.content in
      let parsed = parse_line parts files line blank m3u_index in
      let at_blank =
        handle_line-address blank line files (head-some line h) (blank-IsAddress blank b) in
      let step : (ls : List LineDetails)
          → handle_downloaded parts keeps m3u_index (head ∷ blank ∷ ls) current files ≡ (
              let r = handle_downloaded parts keeps m3u_index ls [] parsed.1 in
              (kept parsed.0 ++ r.0, r.1)) =
        λ ls.
          handle_downloaded-cons head (blank ∷ ls) current line files files []
            (handle_line-head head current files h)
          ∙ handle_downloaded-cons blank ls line [] files parsed.1 (kept parsed.0) at_blank in
      step (address ∷ rest)
      ∙ ap (λ (r : List StreamInfo × Table Text). (kept parsed.0 ++ r.0, r.1))
          (handle_downloaded-cons address rest [] [] parsed.1 parsed.1 []
            (handle_line-idle address parsed.1 a))
      ∙ sym (step rest)
