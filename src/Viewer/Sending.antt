-- ===== src/Viewer/Sending.antt =====
-- What a client gets of the chunks of a read, by HandleStream of proxy/stream/media_stream.go.
use streamweaver.Prelude.{
  ℕ, suc, ◌+◌, ◌≡◌, refl, sym, ◌∙◌, Bool, true, false, Option, none, some, List, [], ◌∷◌, ◌++◌,
  arith, Text, Table, length, length-append, is_empty, Bool-cases, inl, inr, Option-cases, ap, ◌&&◌,
  suc,
}
use mathlib.Core.List.{append_assoc, append-nil}
use streamweaver.Coordinator.{ChunkData}
use streamweaver.Coordinator.Copies.{delivered}
use streamweaver.Coordinator.Reading.{add_chunk, copied, has_data}
use streamweaver.Client.{
  StreamClient, ResponseWriter, whole, write, write_header, is_writable, body_of, add_headers,
}
use streamweaver.Viewer.{Turn, Watch, send_chunk, send_chunks, bytes_of, headers_of, after_write}

-- The bytes of a list of chunks.
abbrev pub bytes_in : List ChunkData → Text
bytes_in [] = []
bytes_in (w ∷ ws) = bytes_of w.buffer ++ bytes_in ws

-- A client that has got the bytes `b` more.
pub record Sent (b : Text) (sc sc' : StreamClient) : Type 0 where
  pub writable : is_writable sc' ≡ true
  pub body_eq : body_of sc' ≡ body_of sc ++ b

module _ (b : Text) (sc : StreamClient) (w : ResponseWriter) (h : sc.writer ≡ some w) where
  write-sent :
      sc.headers_sent ≡ true
      → write whole b sc
        ≡ some (record sc { writer = some (record w { body = w.body ++ b }) }, length b, true)
  unfolding write write_header
  write-sent e = rw (e, h)

  write-unsent :
      sc.headers_sent ≡ false
      → write whole b sc
        ≡ some (
          record sc {
            headers_sent = true;
            writer = some (record w {
              body = w.body ++ b;
              status = some 200;
              header = add_headers sc.response_headers w.header;
            });
          },
          length b,
          true,
        )
  unfolding write write_header
  write-unsent e = rw (e, h)

  body-some : body_of sc ≡ w.body
  unfolding body_of
  body-some = rw h

  sent :
      (r : Table (List Text)) (u : Bool) (s : Option ℕ) (k : Table (List Text))
      → Sent b sc (record {
        response_headers = r;
        headers_sent = u;
        writer = some (record { status = s; header = k; body = w.body ++ b });
      })
  unfolding body_of is_writable
  sent r u s k = record { writable = refl; body_eq = rw body-some }

  pub write-some :
      (sc' : StreamClient) × Sent b sc sc' × (write whole b sc ≡ some (sc', length b, true))
  write-some = elim (Bool-cases sc.headers_sent) [
    | inl e ↦ (_, sent _ _ _ _, write-sent e)
    | inr e ↦ (_, sent _ _ _ _, write-unsent e)
  ]

pub Sent-nil : (sc : StreamClient) → is_writable sc ≡ true → Sent [] sc sc
Sent-nil sc h = record { writable = h; body_eq = sym (append-nil (body_of sc)) }

pub Sent-append :
    (a b : Text) (sc sd se : StreamClient) → Sent a sc sd → Sent b sd se → Sent (a ++ b) sc se
Sent-append a b sc sd se p q = record {
  writable = q.writable;
  body_eq = q.body_eq ∙ ap (λ x. x ++ b) p.body_eq ∙ append_assoc (body_of sc) a b;
}

pub writer-some :
    (sc : StreamClient) → is_writable sc ≡ true → (w : ResponseWriter) × (sc.writer ≡ some w)
unfolding is_writable
writer-some sc h = elim (Option-cases sc.writer) [
  | inl e ↦ absurd (ground (arith, e, h))
  | inr (w, e) ↦ (w, e)
]

write_header-sent :
    (status : ℕ) (sc : StreamClient) → sc.headers_sent ≡ true → write_header status sc ≡ some sc
unfolding write_header
write_header-sent status sc e = rw (e, write_header)

write_header-unsent :
    (status : ℕ) (sc : StreamClient) (w : ResponseWriter)
    → sc.headers_sent ≡ false
    → sc.writer ≡ some w
    → write_header status sc
      ≡ some (record sc {
        headers_sent = true;
        writer =
            some (record w {
              status = some status;
              header = add_headers sc.response_headers w.header;
            });
      })
unfolding write_header
write_header-unsent status sc w e h = rw (e, h)

-- The headers go to a client that is there, with none of the body.
pub write_header-some :
    (status : ℕ) (h : Table (List Text)) (sc : StreamClient)
    → is_writable sc ≡ true
    → (sc' : StreamClient) × Sent [] sc sc'
      × (write_header status (record sc { response_headers = h }) ≡ some sc')
unfolding is_writable body_of
write_header-some status h sc u =
    let sd : StreamClient = record sc { response_headers = h } in
    let (w, e) = writer-some sc u in
    elim (Bool-cases sc.headers_sent) [
      | inl k ↦ (
        sd,
        record { writable = u; body_eq = sym (append-nil (body_of sc)) },
        write_header-sent status sd k,
      )
      | inr k ↦ (
        _,
        record { writable = refl; body_eq = sym (append-nil (body_of sc) ∙ body-some [] sc w e) },
        write_header-unsent status sd w k e,
      )
    ]

-- A turn in which the client is there, and takes all that it is given.
pub record IsOpen (t : Turn) : Type 0 where
  pub not_done : t.done ≡ false
  pub none_done : (k : ℕ) → t.done_at k ≡ false
  pub all_taken : (k : ℕ) → t.taken k ≡ whole

and_false : (b : Bool) → (b && false) ≡ false
and_false true = refl
and_false false = refl

-- A chunk without data adds no bytes.
bytes_of-empty : (b : Option Text) → has_data b ≡ false → bytes_of b ≡ []
unfolding is_empty
bytes_of-empty none h = refl
bytes_of-empty (some []) h = refl
bytes_of-empty (some (x ∷ xs)) h = absurd (ground (arith, h))

delivered-empty :
    (w : ChunkData) (ws : List ChunkData)
    → has_data w.buffer ≡ false
    → delivered (w ∷ ws) ≡ delivered ws
unfolding delivered add_chunk
delivered-empty w ws h = rw h

delivered-data :
    (w : ChunkData) (ws : List ChunkData)
    → has_data w.buffer ≡ true
    → delivered (w ∷ ws) ≡ copied w ∷ delivered ws
unfolding delivered add_chunk
delivered-data w ws h = rw h

module _ (t : Turn) (o : IsOpen t) where
  send_chunk-open :
      (k : ℕ) (b : Text) (n : ℕ) (sc : StreamClient) (next : ℕ → StreamClient → Watch)
      → is_writable sc ≡ true
      → let sd : StreamClient = record sc { response_headers = headers_of (t.headers k) } in
        send_chunk false t k b n sc next ≡ after_write (write whole b sd) sd n next
  unfolding send_chunk
  send_chunk-open k b n sc next h = rw (h, o.all_taken k, and_false)

  send-one :
      (k : ℕ) (b : Text) (sc : StreamClient)
      → is_writable sc ≡ true
      → (sc' : StreamClient) × Sent b sc sc'
        × ((n : ℕ) (next : ℕ → StreamClient → Watch)
            → send_chunk false t k b n sc next ≡ next (n + length b) sc')
  unfolding body_of
  send-one k b sc h =
      let sd : StreamClient = record sc { response_headers = headers_of (t.headers k) } in
      let (w, e) = writer-some sc h in
      let (sc', s, r) = write-some b sd w e in
      (
        sc',
        record { writable = s.writable; body_eq = s.body_eq },
        λ n next. send_chunk-open k b n sc next h ∙ rw r,
      )

  send_chunks-data :
      (k : ℕ) (w : ChunkData) (cs : List ChunkData) (n : ℕ) (sc : StreamClient)
      (next : ℕ → StreamClient → Watch)
      → has_data w.buffer ≡ true
      → send_chunks false t k (copied w ∷ cs) n sc next
        ≡ send_chunk false t k
            (bytes_of w.buffer)
            n
            sc
            (λ n' sc'. send_chunks false t (suc k) cs n' sc' next)
  unfolding send_chunks copied
  send_chunks-data k w cs n sc next h = rw (h, o.none_done k)

  pub send-all :
      (ws : List ChunkData) (k : ℕ) (sc : StreamClient)
      → is_writable sc ≡ true
      → (sc' : StreamClient) × Sent (bytes_in ws) sc sc'
        × ((n : ℕ) (next : ℕ → StreamClient → Watch)
            → send_chunks false t k (delivered ws) n sc next ≡ next (n + length (bytes_in ws)) sc')
  unfolding send_chunks delivered
  send-all [] k sc h = (sc, Sent-nil sc h, λ n next. ap (λ m. next m sc) (omega arith))
  send-all (w ∷ ws) k sc h = elim (Bool-cases (has_data w.buffer)) [
    | inl e ↦
        let (sd, s, r) = send-one k (bytes_of w.buffer) sc h in
        let (se, s', r') = send-all ws (suc k) sd s.writable in
        (
          se,
          Sent-append (bytes_of w.buffer) (bytes_in ws) sc sd se s s',
          λ n next.
              ap (λ cs. send_chunks false t k cs n sc next) (delivered-data w ws e)
              ∙ send_chunks-data k w (delivered ws) n sc next e
              ∙ r n _
              ∙ r' _ next
              ∙ ap (λ m. next m se)
                  (omega (arith, length-append (bytes_of w.buffer) (bytes_in ws))),
        )
    | inr e ↦ rw (bytes_of-empty w.buffer e, delivered-empty w ws e) (send-all ws k sc h)
  ]
