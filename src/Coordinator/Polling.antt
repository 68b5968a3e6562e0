-- ===== src/Coordinator/Polling.antt =====
-- What the writer of proxy/stream/buffer/coordinator_m3u8.go makes of a live playlist, tick by tick.
use streamweaver.Prelude.{
  ℕ, ◌≡◌, ap, ◌∙◌, Bool, not, true, false, none, some, List, [], ◌∷◌, ◌++◌, arith, All, Text, ℤ,
  negsuc, ltb_ℤ, if◌then◌else◌,
}
use streamweaver.Config.{StreamConfig}
use streamweaver.Coordinator.{StreamCoordinator, active, is_active, write_error, status_eof}
use streamweaver.Coordinator.Loop.{timed_out}
use streamweaver.Coordinator.Pump.{if_false, if_true}
use streamweaver.Coordinator.HlsWriter.{
  Parser, PlaylistMetadata, parse_playlist, Tick, HlsLoop, polling, stopped, copied, new_hls_loop,
  streamed, process_segments, is_late, on_playlist, on_body, on_tick, hls_tick, hls_ticks,
}

ltb_ℤ_self : (n : ℤ) → ltb_ℤ n n ≡ false
ltb_ℤ_self n = ground arith

-- A playlist that goes on.
pub record IsLive (m : PlaylistMetadata) : Type 0 where
  pub no_master : m.is_master ≡ false
  pub no_end : m.is_endlist ≡ false

-- A tick in which nobody else changes the coordinator, and the context is not done.
pub record IsQuietTick (t : Tick) : Type 0 where
  pub others_eq : (c : StreamCoordinator) → t.others c ≡ c
  pub not_done : t.done ≡ false

running-active : (c : StreamCoordinator) → c.state ≡ active → not (is_active c.state) ≡ false
running-active c a = rw a

module _ (cfg : StreamConfig) (parser : Parser) (text : Text) (m : PlaylistMetadata)
    (p : parse_playlist parser text ≡ some m) (live : IsLive m) where
  -- The loop after the playlist has been read once.
  abbrev pub seen : Tick → Bool → HlsLoop
  seen t set = record {
    body = copied text;
    last_err = false;
    last_change = t.changed_at;
    last_media_seq = m.media_sequence;
    header_set = set;
  }

  hls_tick-goes :
      (t : Tick) (l : HlsLoop) (c : StreamCoordinator)
      → IsQuietTick t
      → c.state ≡ active
      → hls_tick cfg parser t l c ≡ (
          if is_late cfg parser t l
          then stopped (write_error (some timed_out) status_eof t.tested_at c)
          else on_body cfg parser t l c)
  unfolding hls_tick on_tick
  hls_tick-goes t l c q a =
      ap (on_tick cfg parser t l) (q.others_eq c)
      ∙ if_false (stopped c) (running-active c a)
      ∙ if_false _ q.not_done

  on_body-seen :
      (t u : Tick) (set : Bool) (c : StreamCoordinator)
      → on_body cfg parser t (seen u set) c ≡ polling (seen u set) c
  unfolding on_body on_playlist
  on_body-seen t u set c = rw (on_body, p, live.no_master, live.no_end, ltb_ℤ_self)

  on_body-first :
      (t : Tick) (now : ℕ) (c c' : StreamCoordinator) (set : Bool)
      → ltb_ℤ (negsuc 0) m.media_sequence ≡ true
      → process_segments cfg t 0 m.segments false c ≡ streamed c' set none
      → on_body cfg parser t (new_hls_loop text none now) c ≡ polling (seen t set) c'
  unfolding on_body on_playlist new_hls_loop
  on_body-first t now c c' set h s =
      rw (on_body, new_hls_loop, p, live.no_master, live.no_end, h, s)

  hls_tick-seen :
      (t u : Tick) (set : Bool) (c : StreamCoordinator)
      → IsQuietTick t
      → c.state ≡ active
      → is_late cfg parser t (seen u set) ≡ false
      → hls_tick cfg parser t (seen u set) c ≡ polling (seen u set) c
  hls_tick-seen t u set c q a n =
      hls_tick-goes t (seen u set) c q a ∙ if_false _ n ∙ on_body-seen t u set c

  hls_ticks-cons :
      (t : Tick) (ts : List Tick) (l l' : HlsLoop) (c c' : StreamCoordinator)
      → hls_tick cfg parser t l c ≡ polling l' c'
      → hls_ticks cfg parser (t ∷ ts) l c ≡ hls_ticks cfg parser ts l' c'
  unfolding hls_ticks
  hls_ticks-cons t ts l l' c c' h = rw (hls_ticks, h)

  hls_ticks-stopped :
      (t : Tick) (l : HlsLoop) (c c' : StreamCoordinator)
      → hls_tick cfg parser t l c ≡ stopped c'
      → hls_ticks cfg parser (t ∷ []) l c ≡ stopped c'
  unfolding hls_ticks
  hls_ticks-stopped t l c c' h = rw (hls_ticks, h)

  hls_ticks-seen :
      (ts : List Tick) (last u : Tick) (set : Bool) (c : StreamCoordinator)
      → c.state ≡ active
      → All IsQuietTick ts
      → All (λ t. is_late cfg parser t (seen u set) ≡ false) ts
      → IsQuietTick last
      → is_late cfg parser last (seen u set) ≡ true
      → hls_ticks cfg parser (ts ++ last ∷ []) (seen u set) c
        ≡ stopped (write_error (some timed_out) status_eof last.tested_at c)
  hls_ticks-seen [] last u set c a q n o h =
      hls_ticks-stopped last (seen u set) c _ (hls_tick-goes last (seen u set) c o a ∙ if_true _ h)
  hls_ticks-seen (t ∷ ts) last u set c a q n o h =
      hls_ticks-cons t (ts ++ last ∷ []) (seen u set) (seen u set) c c
        (hls_tick-seen t u set c q.0 a n.0)
      ∙ hls_ticks-seen ts last u set c a q.1 n.1 o h

  -- A live playlist, with a sequence number that is not negative, is read at the first tick, and its segments are
  -- read without an error, after which the coordinator is `c'`, and active; nobody else changes it, and the
  -- context is not done. At every later tick before the
  -- timeout, however many there are, nothing is written; and the first tick after the timeout ends the stream, with the
  -- error of the timeout and the status of an end.
  pub hls_ticks-once :
      (first : Tick) (ts : List Tick) (last : Tick) (now : ℕ) (c c' : StreamCoordinator)
      (set : Bool)
      → c.state ≡ active
      → IsQuietTick first
      → is_late cfg parser first (new_hls_loop text none now) ≡ false
      → ltb_ℤ (negsuc 0) m.media_sequence ≡ true
      → process_segments cfg first 0 m.segments false c ≡ streamed c' set none
      → c'.state ≡ active
      → All IsQuietTick ts
      → All (λ t. is_late cfg parser t (seen first set) ≡ false) ts
      → IsQuietTick last
      → is_late cfg parser last (seen first set) ≡ true
      → hls_ticks cfg parser (first ∷ ts ++ last ∷ []) (new_hls_loop text none now) c
        ≡ stopped (write_error (some timed_out) status_eof last.tested_at c')
  hls_ticks-once first ts last now c c' set a q n h s a' qs ns o l =
      hls_ticks-cons first (ts ++ last ∷ []) (new_hls_loop text none now) (seen first set) c c' (
        hls_tick-goes first (new_hls_loop text none now) c q a
        ∙ if_false _ n
        ∙ on_body-first first now c c' set h s)
      ∙ hls_ticks-seen ts last first set c' a' qs ns o l
