-- ===== src/Viewer/Relay.antt =====
-- From the source to a client: readAndWriteStream of proxy/stream/buffer/coordinator.go and HandleStream of
-- proxy/stream/media_stream.go, over one coordinator.
use streamweaver.Prelude.{
  ℕ, suc, ◌+◌, ◌<◌, ◌≡◌, refl, sym, ap, ◌∙◌, true, false, List, [], ◌∷◌, ◌++◌, Text, length, map,
  All,
}
use streamweaver.Config.{StreamConfig}
use streamweaver.Coordinator.{StreamCoordinator, active}
use streamweaver.Coordinator.Loop.{
  LoopState, going, read_and_write_stream, write_media, media_chunk,
}
use streamweaver.Coordinator.Loop
use streamweaver.Coordinator.Pump.{IsSteady, IsPaced, chunk_of, pump-data, media_chunk-plain}
use streamweaver.Coordinator.Writing.{IsRing, IsPlain, writes}
use streamweaver.Coordinator.Delivery.{joined}
use streamweaver.Client.{StreamClient, is_writable}
use streamweaver.Viewer.{Position, watch}
use streamweaver.Viewer
use streamweaver.Viewer.Sending.{bytes_in, Sent}
use streamweaver.Viewer.Delivery.{IsAt, FollowAll, AreShort, watch-writes}

-- The bytes that a list of turns has read.
abbrev pub bytes_read_by : List Loop.Turn → Text
bytes_read_by [] = []
bytes_read_by (t ∷ ts) = t.bytes_read ++ bytes_read_by ts

bytes_in-map : (ts : List Loop.Turn) → bytes_in (map chunk_of ts) ≡ bytes_read_by ts
unfolding media_chunk
bytes_in-map [] = refl
bytes_in-map (t ∷ ts) = ap (λ b. t.bytes_read ++ b) (bytes_in-map ts)

map-append : (ts us : List Loop.Turn) → map chunk_of (ts ++ us) ≡ map chunk_of ts ++ map chunk_of us
map-append [] us = refl
map-append (t ∷ ts) us = ap (λ l. chunk_of t ∷ l) (map-append ts us)

joined-map :
    (tss : List (List Loop.Turn)) → joined (map (map chunk_of) tss) ≡ map chunk_of (joined tss)
joined-map [] = refl
joined-map (ts ∷ tss) =
    ap (λ l. map chunk_of ts ++ l) (joined-map tss) ∙ sym (map-append ts (joined tss))

map-IsPlain : (ts : List Loop.Turn) → IsPlain (map chunk_of ts)
map-IsPlain [] = tt
map-IsPlain (t ∷ ts) = (media_chunk-plain t.read_at t.bytes_read, map-IsPlain ts)

length-map : (ts : List Loop.Turn) → length (map chunk_of ts) ≡ length ts
length-map [] = refl
length-map (t ∷ ts) = ap (λ n. suc n) (length-map ts)

map-AreShort :
    (n : ℕ) (tss : List (List Loop.Turn))
    → All (λ ts. length ts < n) tss
    → AreShort n (map (map chunk_of) tss)
map-AreShort n [] h = tt
map-AreShort n (ts ∷ tss) h = ((map-IsPlain ts, rw (length-map ts) h.0), map-AreShort n tss h.1)

-- The response is no playlist, so that the type of its content is not looked at. A client stands at the writer's position
-- of an active ring while the writer reads the source: bytes at each
-- turn, in time and without errors. Between two turns of the client, which is there to the end, the writer reads fewer times
-- than there are slots. Then the client has got every byte that the source has given, in order, and no other; they are counted;
-- both loops go on, over the same coordinator, and the client stands at the writer's position.
pub relay :
    (cfg : StreamConfig) (tss : List (List Loop.Turn)) (vs : List Viewer.Turn) (now : ℕ)
    (c : StreamCoordinator) (p : Position) (n : ℕ) (sc : StreamClient)
    → IsRing c
    → c.state ≡ active
    → All IsSteady (joined tss)
    → IsPaced cfg now (joined tss)
    → All (λ ts. length ts < length c.slots) tss
    → FollowAll vs (map (map chunk_of) tss)
    → is_writable sc ≡ true
    → IsAt p c.head
    → let b = bytes_read_by (joined tss) in
      (c' : StreamCoordinator) × ((l : LoopState) × (read_and_write_stream cfg write_media now
            (joined tss)
            c
          ≡ going l c'))
      × ((p' : Position) × (sc' : StreamClient) × IsAt p' c'.head
          × Sent b sc sc'
          × (watch false vs c p n sc ≡ (Viewer.going p' (n + length b) sc', c')))
relay cfg tss vs now c p n sc r a q t k f h e = (
  writes (map chunk_of (joined tss)) c,
  pump-data cfg (joined tss) now c r a q t,
  rw (joined-map tss, bytes_in-map (joined tss)) at
      (watch-writes vs (map (map chunk_of) tss) c p n sc r a f (map-AreShort (length c.slots) tss k)
        h e),
)
