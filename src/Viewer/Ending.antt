-- ===== src/Viewer/Ending.antt =====
-- How the loop of HandleStream in proxy/stream/media_stream.go ends with the stream.
use streamweaver.Prelude.{
  ℕ, suc, ◌+◌, ◌<◌, ◌≡◌, refl, sym, ap, ◌∙◌, true, false, Option, some, List, [], ◌∷◌, ◌++◌, arith,
  length, length-append,
}
use streamweaver.Coordinator.{Failure, ChunkData, StreamCoordinator, active, is_error, write_error}
use streamweaver.Coordinator.Reading.{start, error_copy}
use streamweaver.Coordinator.Writing.{
  IsRing, IsPlain, writes, writes-append, writes-active, writes-IsRing, writes-Written,
  IsPlain-IsRun,
}
use streamweaver.Coordinator.Delivery.{joined}
use streamweaver.Coordinator.Draining.{last_chunk, start-write_error, resume-write_error}
use streamweaver.Client.{StreamClient, is_writable}
use streamweaver.Viewer.{
  Turn, Watch, Position, at, asleep, going, finished, from_of, take_read, watch_turn, watch,
}
use streamweaver.Viewer.Sending.{bytes_in, Sent, Sent-append, IsOpen, send-all}
use streamweaver.Viewer.Delivery.{
  IsAt, FollowAll, AreShort, watch-writes, watch_turn-resume, bytes_in-append,
}

module _ (ws : List ChunkData) (err : Option Failure) (status now : ℕ) (c : StreamCoordinator)
    (r : IsRing c) (a : c.state ≡ active) (q : IsPlain ws)
    (k : is_error (last_chunk err status now) ≡ true) (l : suc (length ws) < length c.slots) where
  abbrev ended : StreamCoordinator
  ended = write_error err status now (writes ws c)

  from_of-ended : (p : Position) → IsAt p c.head → from_of false p ended ≡ c.head
  from_of-ended (at i) e =
      ap (λ j. start ended (some j)) e ∙ start-write_error ws err status now c r a q k l
  from_of-ended (asleep i) e = e

  pub watch_turn-ended :
      (t : Turn) (p : Position) (n : ℕ) (sc : StreamClient)
      → IsOpen t
      → is_writable sc ≡ true
      → IsAt p c.head
      → (sc' : StreamClient) × Sent (bytes_in ws) sc sc'
        × (watch_turn false t ended p n sc
            ≡ finished
                (record { bytes_written = n + length (bytes_in ws); error = err; status = status })
                sc')
  unfolding take_read error_copy last_chunk
  watch_turn-ended t p n sc o h e =
      let (sc', s, w) = send-all t o ws 0 sc h in
      (
        sc',
        s,
        watch_turn-resume t ended p n sc o
            ∙ rw (from_of-ended p e, resume-write_error ws err status now c r a q k l) (w n _),
      )

-- The loop goes on over more turns.
abbrev resumed : List Turn → Watch × StreamCoordinator → Watch × StreamCoordinator
resumed us (going p n sc, c) = watch false us c p n sc
resumed us (finished r sc, c) = (finished r sc, c)

after_turn :
    (ts us : List Turn) (w : Watch) (c : StreamCoordinator)
    → ((c : StreamCoordinator) (p : Position) (n : ℕ) (sc : StreamClient)
        → watch false (ts ++ us) c p n sc ≡ resumed us (watch false ts c p n sc))
    → resumed (ts ++ us) (w, c) ≡ resumed us (resumed ts (w, c))
after_turn ts us (going p n sc) c h = h c p n sc
after_turn ts us (finished r sc) c h = refl

watch-cons :
    (t : Turn) (ts : List Turn) (c : StreamCoordinator) (p : Position) (n : ℕ) (sc : StreamClient)
    → watch false (t ∷ ts) c p n sc
      ≡ resumed ts (watch_turn false t (t.others c) p n sc, t.others c)
unfolding watch
watch-cons t ts c p n sc =
    elim (watch_turn false t (t.others c) p n sc)
      as (λ w.
        elim w [
          | going p' n' sc' ↦ watch false ts (t.others c) p' n' sc'
          | finished r sc' ↦ (finished r sc', t.others c)
        ]
        ≡ resumed ts (w, t.others c)) [ going p' n' sc' ↦ refl | finished r sc' ↦ refl ]

watch-nil :
    (c : StreamCoordinator) (p : Position) (n : ℕ) (sc : StreamClient)
    → watch false [] c p n sc ≡ (going p n sc, c)
unfolding watch
watch-nil c p n sc = refl

watch-append :
    (ts us : List Turn) (c : StreamCoordinator) (p : Position) (n : ℕ) (sc : StreamClient)
    → watch false (ts ++ us) c p n sc ≡ resumed us (watch false ts c p n sc)
watch-append [] us c p n sc = ap (resumed us) (sym (watch-nil c p n sc))
watch-append (t ∷ ts) us c p n sc =
    rw (watch-cons t (ts ++ us) c p n sc, watch-cons t ts c p n sc)
      (after_turn ts us (watch_turn false t (t.others c) p n sc) (t.others c) (watch-append ts us))

-- What the batches leave the coordinator like.
record Ready (bs : List (List ChunkData)) (c c' : StreamCoordinator) : Type 0 where
  ring : IsRing c'
  running : c'.state ≡ active
  size : length c'.slots ≡ length c.slots

joined-Ready :
    (bs : List (List ChunkData)) (c : StreamCoordinator)
    → IsRing c
    → c.state ≡ active
    → AreShort (length c.slots) bs
    → Ready bs c (writes (joined bs) c)
unfolding writes
joined-Ready [] c r a k = record { ring = r; running = a; size = refl }
joined-Ready (ws ∷ bs) c r a k =
    let size' =
      (writes-Written ws c r a (IsPlain-IsRun ws k.0.0) (omega (arith, k.0.1))).length_eq in
    let rest =
      joined-Ready bs (writes ws c) (writes-IsRing ws c r a k.0.0) (writes-active ws c r a k.0.0)
        (rw size' k.1) in
    rw (writes-append ws (joined bs) c)
      (record { ring = rest.ring; running = rest.running; size = rest.size ∙ size' })

-- The response is no playlist, so that the type of its content is not looked at. A client stands at the writer's
-- position of an active ring, and is there to the end. Between two of its
-- turns, `ts`, fewer plain chunks are written than there are slots; and before its last turn, `t`, one list more, `ws`,
-- with room for one chunk more, after which the writer ends the stream with an error or a status. Then the
-- loop returns that error and that status, with the number of bytes in all chunks, and the client has got
-- exactly these bytes, in order.
pub watch-write_error :
    (ts : List Turn) (bs : List (List ChunkData)) (t : Turn) (ws : List ChunkData)
    (err : Option Failure) (status now : ℕ) (c : StreamCoordinator) (p : Position) (n : ℕ)
    (sc : StreamClient)
    → IsRing c
    → c.state ≡ active
    → FollowAll ts bs
    → AreShort (length c.slots) bs
    → IsOpen t
    → ((d : StreamCoordinator) → t.others d ≡ write_error err status now (writes ws d))
    → IsPlain ws
    → suc (length ws) < length c.slots
    → is_error (last_chunk err status now) ≡ true
    → is_writable sc ≡ true
    → IsAt p c.head
    → let b = bytes_in (joined bs ++ ws) in
      (sc' : StreamClient) × Sent b sc sc'
      × ((watch false (ts ++ t ∷ []) c p n sc).0
          ≡ finished (record { bytes_written = n + length b; error = err; status = status }) sc')
watch-write_error ts bs t ws err status now c p n sc r a f k o u q l e h i =
    let d = writes (joined bs) c in
    let (p', sc', i', b', w') = watch-writes ts bs c p n sc r a f k h i in
    let ready = joined-Ready bs c r a k in
    let (se, s, w) =
      watch_turn-ended ws err status now d ready.ring ready.running q e (rw ready.size l) t p'
        (n + length (bytes_in (joined bs))) sc' o b'.writable i' in
    (
      se,
      rw (bytes_in-append (joined bs) ws)
          (Sent-append (bytes_in (joined bs)) (bytes_in ws) sc sc' se b' s),
      ap (λ x. x.0)
            (watch-append ts (t ∷ []) c p n sc
              ∙ ap (resumed (t ∷ [])) w'
              ∙ watch-cons t [] d p' _ sc')
          ∙ rw (u d, w, bytes_in-append (joined bs) ws)
              (ap (λ m. finished (record { bytes_written = m; error = err; status = status }) se)
                (omega (arith, length-append (bytes_in (joined bs)) (bytes_in ws)))),
    )
