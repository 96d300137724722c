-- ===== src/Receive/Read.antt =====
-- A connection that delivers messages stays sound: `receive_read` never fails an `assert`, hands on
-- sendable messages only, and its loop ends.
use adsb_tools.Prelude.{
  ==→eq, ℕ, suc, ◌≤◌, ◌<◌, ◌≡◌, refl, Bool, Option, none, some, List, [], ◌∷◌, All, length, ◌⊎◌,
  ◌==◌, if◌then◌else◌, Run, ok, ◌>>=◌, minus_one, size, arith, Bool-cases, inl, inr,
}
use adsb_tools.Buf.{Buf, buf_fill, buf_len_max}
use adsb_tools.Buf.Window.{received, read_count, buf_fill-contents}
use adsb_tools.Packet.{Packet, Stat}
use adsb_tools.Parser.{Parser}
use adsb_tools.Parser.Laws.{Promises}
use adsb_tools.Os.{Os}
use adsb_tools.Receive.{Receive, Receives, receive_del, receive_loop, receive_read}
use adsb_tools.Receive.Close.{CanClose, HasClosed, receive_del-HasClosed}
use adsb_tools.Receive.Loop.{IsSendable, IsLive, IsAttached, receive_loop-Finished}

-- What a call on `r` left: a connection that was closed, or the connection with room in its buffer and
-- nothing changed besides.
abbrev pub IsOpen : Bool → Stat → Receive → Receives → Option Receive → Receives → Type 0
IsOpen shutdown stat r s none s' = HasClosed shutdown r.peer r.on_close s s'
IsOpen shutdown stat r s (some r') s' =
    IsLive stat r' × (r'.buf.length < buf_len_max) × IsAttached r.peer r.on_close r' × (s' ≡ s)

count_cases :
    (got : Option (List ℕ))
    → (((read_count got ≡ minus_one) ⊎ (read_count got ≡ size 0)) × (received got ≡ []))
      ⊎ ((m : ℕ) × (read_count got ≡ size (suc m)))
count_cases none = inl (inl refl, refl)
count_cases (some []) = inl (inr refl, refl)
count_cases (some (x ∷ xs)) = inr (length xs, refl)

module _ {W : Type 0} (send_write : Packet → W → Run W) (max_hops : ℕ) where
  -- Why a connection is closed: `read` has delivered nothing, or the buffer is full after the loop.
  abbrev pub Reason :
      List Parser → (ℕ → Option (List ℕ)) → Receive → W → Option Receive → W → Type 0
  Reason parsers read r w (some r') w' = Unit {0}
  Reason parsers read r w none w' =
      ((n : ℕ) × (0 < n) × (received (read n) ≡ []))
      ⊎ ((filled : Buf) × (m : ℕ) × (full : Receive) × (buf_fill read r.buf
            ≡ ok (size (suc m), filled))
          × (receive_loop send_write max_hops parsers (suc filled.length)
                (record r { buf = filled }) w
              ≡ ok (full, w'))
          × (full.buf.length ≡ buf_len_max))

module _ {W : Type 0} (send_write : Packet → W → Run W) (max_hops : ℕ) (stat : Stat)
    (Inv : W → Type 0)
    (keeps : (p : Packet) (w : W)
      → IsSendable stat max_hops p
      → Inv w
      → (w' : W) × (send_write p w ≡ ok w') × Inv w') where
  module _ {os : Os} {shutdown : Bool} (r : Receive) (s : Receives)
      (can : CanClose os shutdown r.peer r.on_close s) (parsers : List Parser)
      (read : ℕ → Option (List ℕ)) (w : W) where
    record Kept (m : Run (Option Receive × W × Receives)) : Type 0 where
      pub left : Option Receive
      pub sent : W
      pub after : Receives
      pub returns : m ≡ ok (left, sent, after)
      pub is_open : IsOpen shutdown stat r s left after
      pub why : Reason send_write max_hops parsers read r w left sent
      pub held : Inv sent

    -- The end of the connection.
    closed-Kept :
        (r' : Receive) (w' : W)
        → IsAttached r.peer r.on_close r'
        → Reason send_write max_hops parsers read r w none w'
        → Inv w'
        → Kept (receive_del os shutdown r' s >>= λ s1. ok (none, w', s1))
    closed-Kept r' w' at why i =
        let (s1, done, shut) = receive_del-HasClosed can r' at.0 at.1 in
        record {
          left = none;
          sent = w';
          after = s1;
          returns = simp done;
          is_open = shut;
          why = why;
          held = i;
        }

    -- The last test of `receive_read`.
    finished-Kept :
        (r' : Receive) (w' : W)
        → IsAttached r.peer r.on_close r'
        → IsLive stat r'
        → (filled : Buf) × (m : ℕ) × (buf_fill read r.buf ≡ ok (size (suc m), filled))
          × (receive_loop send_write max_hops parsers
                (suc filled.length)
                (record r { buf = filled })
                w
              ≡ ok (r', w'))
        → Inv w'
        → Kept (
            let closed = (receive_del os shutdown r' s >>= λ s1. ok (none, w', s1)) in
            if r'.buf.length == buf_len_max then closed else ok (some r', w', s))
    finished-Kept r' w' at live (filled, m, fills, loop) i =
        elim (Bool-cases (r'.buf.length == buf_len_max)) [
          | inl full ↦
              let why = inr (filled, m, r', fills, loop, ==→eq _ _ full) in
              simp full (closed-Kept r' w' at why i)
          | inr room ↦ simp room (record {
            left = some r';
            sent = w';
            after = s;
            returns = refl;
            is_open = (live, ground (arith, room, live.valid.inside), at, refl);
            why = tt;
            held = i;
          })
        ]

    receive_read-Kept :
        All Promises parsers
        → ((n : ℕ) → length (received (read n)) ≤ n)
        → IsLive stat r
        → r.buf.length < buf_len_max
        → Inv w
        → Kept (receive_read send_write max_hops os shutdown parsers read r w s)
    unfolding receive_read
    receive_read-Kept all contract live room i =
        let (space, b', pos, fills, valid, holds) =
          buf_fill-contents read r.buf contract live.valid room in
        elim (count_cases (read space)) [
          | inl (e, nothing) ↦
              let closed = closed-Kept r w (refl, refl) (inl (space, pos, nothing)) i in
              elim e [
                | inl failed ↦ simp (receive_read, fills, failed) closed
                | inr at_end ↦ simp (receive_read, fills, at_end) closed
              ]
          | inr (m, e) ↦
              let f =
                receive_loop-Finished send_write max_hops stat Inv keeps parsers (suc b'.length)
                  (record r { buf = b' }) w all (omega arith) (refl, refl)
                  (record {
                    valid = valid;
                    identified = live.identified;
                    ready = live.ready;
                    known = live.known;
                    from = live.from;
                  })
                  i in
              simp (receive_read, fills, e, f.returns)
                (finished-Kept f.after f.world f.attached f.live (b', m, simp (fills, e), f.returns)
                  f.held)
        ]

  -- For every connection that is sound, has room and can be closed - its descriptor is registered
  -- with the event loop or cannot be, `close` takes it, and the callback returns -, all parsers that
  -- keep their promise, and every result of `read` within the size that it was given: `receive_read`
  -- does not fail an `assert`, neither its own nor one of the code that it calls, and its loop
  -- ends; it keeps what `send_write` keeps for sane packets that came from this connection, with a
  -- hop count from 1 to the limit. The connection that it leaves is sound and has room, and nothing
  -- else has changed; or it has closed the connection: its descriptor is closed, it is taken
  -- from the count and from the list, and its callback was called after that. It closes the
  -- connection only if `read` delivered nothing for a size above 0, or if the buffer is full after
  -- the loop.
  pub receive_read-keeps :
      (os : Os) (shutdown : Bool) (parsers : List Parser) (read : ℕ → Option (List ℕ)) (r : Receive)
      (w : W) (s : Receives)
      → CanClose os shutdown r.peer r.on_close s
      → All Promises parsers
      → ((n : ℕ) → length (received (read n)) ≤ n)
      → IsLive stat r
      → r.buf.length < buf_len_max
      → Inv w
      → (left : Option Receive) × (w' : W) × (s' : Receives) × (receive_read send_write max_hops os
            shutdown parsers read r w s
          ≡ ok (left, w', s'))
        × IsOpen shutdown stat r s left s'
        × Reason send_write max_hops parsers read r w left w'
        × Inv w'
  receive_read-keeps os shutdown parsers read r w s can all contract live room i =
      let k = receive_read-Kept r s can parsers read w all contract live room i in
      (k.left, k.sent, k.after, k.returns, k.is_open, k.why, k.held)
