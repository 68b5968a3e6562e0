-- ===== src/Viewer/Direct/Laws.antt =====
-- What a client gets of a direct stream, and what it loses of it.
use streamweaver.Prelude.{
  ℕ, ◌+◌, ◌≡◌, ap, ◌∙◌, true, false, none, some, List, [], ◌∷◌, ◌++◌, Text, bytes, arith, length,
  length-append, All,
}
use streamweaver.LoadBalancer.{Response}
use streamweaver.Coordinator.{eof, status_eof}
use streamweaver.Client.{StreamClient, whole, write, write_header, is_writable}
use streamweaver.Viewer.Sending.{
  Sent, Sent-nil, Sent-append, writer-some, write-some, write_header-some,
}
use streamweaver.Viewer.Direct.{
  DirectTurn, reading, returned, direct_result, direct_turn, direct_turns, direct_write,
  handle_direct_stream,
}

-- A turn that reads without an error, for a client that takes it all.
pub record IsGood (t : DirectTurn) : Type 0 where
  pub not_done : t.done ≡ false
  pub no_error : t.error ≡ none
  pub all_taken : t.taken ≡ whole

abbrev pub bytes_got : List DirectTurn → Text
bytes_got [] = []
bytes_got (t ∷ ts) = t.bytes_read ++ bytes_got ts

direct_turn-good :
    (a : Text) (t : DirectTurn) (n : ℕ) (sc : StreamClient)
    → IsGood t
    → direct_turn a t n sc ≡ direct_write a (write whole t.bytes_read sc) (n + length t.bytes_read)
unfolding direct_turn
direct_turn-good a t n sc g = rw (g.not_done, g.no_error, g.all_taken)

direct_turns-cons :
    (a : Text) (t : DirectTurn) (ts : List DirectTurn) (n n' : ℕ) (sc sc' : StreamClient)
    → direct_turn a t n sc ≡ reading n' sc'
    → direct_turns a (t ∷ ts) n sc ≡ direct_turns a ts n' sc'
unfolding direct_turns
direct_turns-cons a t ts n n' sc sc' h = rw (direct_turns, h)

direct_turns-good :
    (a : Text) (ts us : List DirectTurn) (n : ℕ) (sc : StreamClient)
    → All IsGood ts
    → is_writable sc ≡ true
    → (sc' : StreamClient) × Sent (bytes_got ts) sc sc'
      × (direct_turns a (ts ++ us) n sc ≡ direct_turns a us (n + length (bytes_got ts)) sc')
unfolding direct_turns direct_write
direct_turns-good a [] us n sc g h =
    (sc, Sent-nil sc h, ap (λ m. direct_turns a us m sc) (omega arith))
direct_turns-good a (t ∷ ts) us n sc g h =
    let (w, e) = writer-some sc h in
    let (sd, s, r) = write-some t.bytes_read sc w e in
    let (se, s', r') = direct_turns-good a ts us (n + length t.bytes_read) sd g.1 s.writable in
    (
      se,
      Sent-append t.bytes_read (bytes_got ts) sc sd se s s',
      direct_turns-cons a t (ts ++ us) n _ sc sd (direct_turn-good a t n sc g.0 ∙ rw r)
          ∙ (r'
              ∙ ap (λ m. direct_turns a us m se)
                  (omega (arith, length-append t.bytes_read (bytes_got ts)))),
    )

direct_turns-eof :
    (a : Text) (t : DirectTurn) (n : ℕ) (sc : StreamClient)
    → t.done ≡ false
    → t.error ≡ some eof
    → direct_turns a (t ∷ []) n sc
      ≡ returned
          (direct_result a (bytes "EOF reached for stream: ") (n + length t.bytes_read) status_eof)
          sc
unfolding direct_turns direct_turn
direct_turns-eof a t n sc d e = ground (arith, d, e)

handle_direct_stream-turns :
    (a : Text) (response : Response) (ts : List DirectTurn) (sc sd : StreamClient)
    → write_header response.status_code (record sc { response_headers = response.header }) ≡ some sd
    → handle_direct_stream a response ts sc ≡ direct_turns a ts 0 sd
unfolding handle_direct_stream
handle_direct_stream-turns a response ts sc sd h = rw (handle_direct_stream, h)

-- A direct stream is read without errors, up to a read that gives `t.bytes_read` together with the end of the
-- source, for a client that takes all it is given. The client gets the bytes of the reads before that one, in order,
-- and not those of the last, though they are counted as written.
pub handle_direct_stream-eof :
    (a : Text) (response : Response) (ts : List DirectTurn) (t : DirectTurn) (sc : StreamClient)
    → All IsGood ts
    → t.done ≡ false
    → t.error ≡ some eof
    → is_writable sc ≡ true
    → (sc' : StreamClient) × Sent (bytes_got ts) sc sc'
      × (handle_direct_stream a response (ts ++ t ∷ []) sc
          ≡ returned
              (direct_result a
                (bytes "EOF reached for stream: ")
                (length (bytes_got ts) + length t.bytes_read)
                status_eof)
              sc')
handle_direct_stream-eof a response ts t sc g d e h =
    let (sd, s, w) = write_header-some response.status_code response.header sc h in
    let (se, s', r) = direct_turns-good a ts (t ∷ []) 0 sd g s.writable in
    (
      se,
      Sent-append [] (bytes_got ts) sc sd se s s',
      handle_direct_stream-turns a response (ts ++ t ∷ []) sc sd w
          ∙ r
          ∙ direct_turns-eof a t (0 + length (bytes_got ts)) se d e
          ∙ ap (λ m. returned (direct_result a (bytes "EOF reached for stream: ") m status_eof) se)
              (omega arith),
    )
