-- ===== src/Viewer/Delivery.antt =====
-- What reaches a client of the loop of HandleStream in proxy/stream/media_stream.go, and of the source.
use streamweaver.Prelude.{
  ℕ, ◌+◌, ◌<◌, ◌≡◌, refl, sym, ap, ◌∙◌, true, false, some, List, [], ◌∷◌, ◌++◌, arith, length,
  length-append, All,
}
use mathlib.Core.List.{append_assoc}
use streamweaver.Coordinator.{ChunkData, StreamCoordinator, active}
use streamweaver.Coordinator.Writing.{
  IsRing, IsPlain, writes, writes-append, writes-active, writes-IsRing, writes-Written,
  IsPlain-IsRun,
}
use streamweaver.Coordinator.Delivery.{joined, outcome, start-writes, resume-writes}
use streamweaver.Coordinator.Reading.{start, resume}
use streamweaver.Client.{StreamClient, is_writable}
use streamweaver.Viewer.{
  Turn, Watch, going, Position, at, asleep, watch_turn, watch, take_read, from_of, bytes_of,
}
use streamweaver.Viewer.Sending.{bytes_in, Sent, Sent-nil, Sent-append, IsOpen, send-all}

-- The client stands at `p`, before a read or asleep in one.
abbrev pub IsAt : Position → ℕ → Type 0
IsAt (at q) p = q ≡ p
IsAt (asleep q) p = q ≡ p

-- A turn in which the client is there, before which the others have written a list of chunks.
pub record Follows (t : Turn) (ws : List ChunkData) : Type 0 where
  pub is_open : IsOpen t
  pub others_eq : (c : StreamCoordinator) → t.others c ≡ writes ws c

abbrev pub FollowAll : List Turn → List (List ChunkData) → Type 0
FollowAll [] [] = Unit
FollowAll (t ∷ ts) (b ∷ bs) = Follows t b × FollowAll ts bs
FollowAll _ _ = ⊥

-- Each list is of plain chunks, fewer than there are slots.
abbrev pub AreShort : ℕ → List (List ChunkData) → Type 0
AreShort n = All (λ ws. IsPlain ws × (length ws < n))

-- What the client has after it was told of a list of chunks.
abbrev Told : List ChunkData → StreamCoordinator → ℕ → StreamClient → Watch → Type 0
Told ws c' n sc w =
    (p : Position) × (sc' : StreamClient) × Sent (bytes_in ws) sc sc'
    × IsAt p c'.head
    × (w ≡ going p (n + length (bytes_in ws)) sc')

take_read-outcome :
    (t : Turn) (ws : List ChunkData) (c : StreamCoordinator) (n : ℕ) (sc : StreamClient)
    → IsOpen t
    → is_writable sc ≡ true
    → Told ws (writes ws c) n sc (take_read false t (outcome ws (writes ws c).head) c.head n sc)
unfolding take_read writes
take_read-outcome t [] c n sc o h =
    (asleep c.head, sc, Sent-nil sc h, refl, ap (λ m. going (asleep c.head) m sc) (omega arith))
take_read-outcome t (w ∷ ws) c n sc o h =
    let (sc', s, r) = send-all t o (w ∷ ws) 0 sc h in (at _, sc', s, refl, r n _)

from_of-writes :
    (ws : List ChunkData) (c : StreamCoordinator) (p : Position)
    → IsRing c
    → c.state ≡ active
    → IsPlain ws
    → length ws < length c.slots
    → IsAt p c.head
    → from_of false p (writes ws c) ≡ c.head
from_of-writes ws c (at q) r a k l e =
    ap (λ i. start (writes ws c) (some i)) e ∙ start-writes ws c r a k l
from_of-writes ws c (asleep q) r a k l e = e

pub watch_turn-resume :
    (t : Turn) (c : StreamCoordinator) (p : Position) (n : ℕ) (sc : StreamClient)
    → IsOpen t
    → watch_turn false t c p n sc
      ≡ take_read false t (resume (from_of false p c) c) (from_of false p c) n sc
unfolding watch_turn
watch_turn-resume t c (at q) n sc o = rw o.not_done
watch_turn-resume t c (asleep q) n sc o = refl

watch_turn-Told :
    (t : Turn) (ws : List ChunkData) (c : StreamCoordinator) (p : Position) (n : ℕ)
    (sc : StreamClient)
    → IsRing c
    → c.state ≡ active
    → IsPlain ws
    → length ws < length c.slots
    → IsOpen t
    → is_writable sc ≡ true
    → IsAt p c.head
    → Told ws (writes ws c) n sc (watch_turn false t (writes ws c) p n sc)
watch_turn-Told t ws c p n sc r a k l o h e =
    let c' = writes ws c in
    rw
      (watch_turn-resume t c' p n sc o, from_of-writes ws c p r a k l e, resume-writes ws c r a k l)
      (take_read-outcome t ws c n sc o h)

pub bytes_in-append : (ws vs : List ChunkData) → bytes_in (ws ++ vs) ≡ bytes_in ws ++ bytes_in vs
bytes_in-append [] vs = refl
bytes_in-append (w ∷ ws) vs =
    ap (λ x. bytes_of w.buffer ++ x) (bytes_in-append ws vs)
    ∙ sym (append_assoc (bytes_of w.buffer) (bytes_in ws) (bytes_in vs))

watch-going :
    (t : Turn) (ts : List Turn) (c : StreamCoordinator) (p : Position) (n : ℕ) (sc : StreamClient)
    (d : StreamCoordinator) (p' : Position) (n' : ℕ) (sc' : StreamClient)
    → t.others c ≡ d
    → watch_turn false t d p n sc ≡ going p' n' sc'
    → watch false (t ∷ ts) c p n sc ≡ watch false ts d p' n' sc'
unfolding watch
watch-going t ts c p n sc d p' n' sc' e h = rw (watch, e, h, e)

stay :
    (c : StreamCoordinator) (p : Position) (n : ℕ) (sc : StreamClient)
    → IsAt p c.head
    → is_writable sc ≡ true
    → let c' = writes [] c in
      (p' : Position) × (sc' : StreamClient) × IsAt p' c'.head
      × Sent [] sc sc'
      × (watch false [] c p n sc ≡ (going p' (n + 0) sc', c'))
unfolding watch writes
stay c p n sc e h = (p, sc, e, Sent-nil sc h, ap (λ m. (going p m sc, c)) (omega arith))

-- A client stands at the writer's position of an active ring, and is there to the end. Between two of its
-- turns fewer plain chunks are written than there are slots. Then it has got the bytes of all of them, in the order
-- written, and no others; they are counted; it stands at the writer's position, and its loop goes on.
pub watch-writes :
    (ts : List Turn) (bs : List (List ChunkData)) (c : StreamCoordinator) (p : Position) (n : ℕ)
    (sc : StreamClient)
    → IsRing c
    → c.state ≡ active
    → FollowAll ts bs
    → AreShort (length c.slots) bs
    → is_writable sc ≡ true
    → IsAt p c.head
    → let b = bytes_in (joined bs) in
      let c' = writes (joined bs) c in
      (p' : Position) × (sc' : StreamClient) × IsAt p' c'.head
      × Sent b sc sc'
      × (watch false ts c p n sc ≡ (going p' (n + length b) sc', c'))
watch-writes [] [] c p n sc r a f k h e = stay c p n sc e h
watch-writes [] (ws ∷ bs) c p n sc r a f k h e = absurd f
watch-writes (t ∷ ts) [] c p n sc r a f k h e = absurd f
watch-writes (t ∷ ts) (ws ∷ bs) c p n sc r a f k h e =
    let d = writes ws c in
    let (p', sc', s, e', w) = watch_turn-Told t ws c p n sc r a k.0.0 k.0.1 f.0.is_open h e in
    let size =
      (writes-Written ws c r a (IsPlain-IsRun ws k.0.0) (omega (arith, k.0.1))).length_eq in
    let (p2, sc2, e2, b2, w2) =
      watch-writes ts bs d p' (n + length (bytes_in ws)) sc' (writes-IsRing ws c r a k.0.0)
        (writes-active ws c r a k.0.0) f.1 (rw size k.1) s.writable e' in
    rw (writes-append ws (joined bs) c, bytes_in-append ws (joined bs))
      (
        p2,
        sc2,
        e2,
        Sent-append (bytes_in ws) (bytes_in (joined bs)) sc sc' sc2 s b2,
        watch-going t ts c p n sc d p' _ sc' (f.0.others_eq c) w
            ∙ w2
            ∙ ap (λ m. (going p2 m sc2, writes (joined bs) d))
                (omega (arith, length-append (bytes_in ws) (bytes_in (joined bs)))),
      )
