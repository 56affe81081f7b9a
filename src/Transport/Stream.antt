-- ===== src/Transport/Stream.antt =====
-- A connection's life: bytes arrive in any pieces, and the decoder is called at any times between.
use nxfr.Prelude.{
  ℕ, List, [], ◌∷◌, ◌++◌, ◌≡◌, refl, Option, none, some, ok, err, length, All, IsByte, ap, ◌∙◌,
  append_assoc, append-nil, All-append, sym, All-append_right, All-append_left, replicate,
}
use nxfr.Common.Errors.{FrameError}
use nxfr.Transport.Codec.{NxfrFrame, Decoded, decode, encode}
use nxfr.Transport.Frames.{
  IsFrame, decode-encode, decode_sound, decode-nil, decode_waits_keeps, decode_fails_keeps,
}

pub record Connection : Type 0 where
  pub buffer : List ℕ
  pub delivered : List NxfrFrame
  pub failed : Option FrameError

abbrev pub fresh : Connection
fresh = record { buffer = []; delivered = []; failed = none }

-- Bytes that the socket hands over, or one call of `decode`.
pub data Op : Type 0 where
  arrive : List ℕ → Op
  poll : Op

-- What a call's result does to the connection.
unfoldable pub settle : Connection → Decoded → Connection
settle c (ok (some f), rest) = record c { buffer = rest; delivered = c.delivered ++ (f ∷ []) }
settle c (ok none, rest) = record c { buffer = rest }
settle c (err e, rest) = record c { buffer = rest; failed = some e }

unfoldable pub step : Op → Connection → Connection
unfolding settle
step (arrive bs) c = record c { buffer = c.buffer ++ bs }
step poll c = settle c (decode c.buffer)

unfoldable pub run : List Op → Connection → Connection
run [] c = c
run (op ∷ ops) c = run ops (step op c)

abbrev pub arrivals : List Op → List ℕ
arrivals [] = []
arrivals (arrive bs ∷ ops) = bs ++ arrivals ops
arrivals (poll ∷ ops) = arrivals ops

-- The bytes of a list of frames, as a sender writes them one after another.
abbrev pub wire : List NxfrFrame → List ℕ
wire [] = []
wire (f ∷ fs) = encode f [] ++ wire fs

wire-append : (fs gs : List NxfrFrame) → wire (fs ++ gs) ≡ wire fs ++ wire gs
wire-append [] gs = refl
wire-append (f ∷ fs) gs =
    rw (wire-append fs gs) (sym (append_assoc (encode f []) (wire fs) (wire gs)))

-- The frames that were delivered, and the bytes that wait, are the bytes that have come.
record Accounts (came : List ℕ) (c : Connection) : Type 0 where
  bytes : All IsByte c.buffer
  frames : All IsFrame c.delivered
  balance : wire c.delivered ++ c.buffer ≡ came

settle-Accounts :
    (came : List ℕ) (c : Connection) (d : Decoded)
    → decode c.buffer ≡ d
    → Accounts came c
    → Accounts came (settle c d)
unfolding settle
settle-Accounts came c (ok (some f), rest) e a =
    let (frame, cut) = decode_sound c.buffer rest f a.bytes e in
    record {
      bytes = All-append_right _ (encode f []) rest (rw cut a.bytes);
      frames = All-append _ c.delivered (f ∷ []) a.frames (frame, tt);
      balance = rw (wire-append c.delivered (f ∷ []), append-nil, append_assoc, cut) a.balance;
    }
settle-Accounts came c (ok none, rest) e a = rw (decode_waits_keeps c.buffer rest e) a
settle-Accounts came c (err x, rest) e a =
    let same = decode_fails_keeps c.buffer rest x e in
    record { bytes = rw same a.bytes; frames = a.frames; balance = rw same a.balance }

module _ (came : List ℕ) (c : Connection) (a : Accounts came c) where
  arrive-Accounts : (bs : List ℕ) → All IsByte bs → Accounts (came ++ bs) (step (arrive bs) c)
  unfolding step
  arrive-Accounts bs fit = record {
    bytes = All-append _ c.buffer bs a.bytes fit;
    frames = a.frames;
    balance = rw (← append_assoc, a.balance) refl;
  }

  poll-Accounts : Accounts came (step poll c)
  unfolding step
  poll-Accounts = settle-Accounts came c (decode c.buffer) refl a

run-Accounts :
    (ops : List Op) (came : List ℕ) (c : Connection)
    → All IsByte (arrivals ops)
    → Accounts came c
    → Accounts (came ++ arrivals ops) (run ops c)
unfolding run
run-Accounts [] came c fit a = rw append-nil a
run-Accounts (arrive bs ∷ ops) came c fit a = rw (← append_assoc) (
    run-Accounts ops (came ++ bs) (step (arrive bs) c) (All-append_right _ bs (arrivals ops) fit)
      (arrive-Accounts came c a bs (All-append_left _ bs (arrivals ops) fit)))
run-Accounts (poll ∷ ops) came c fit a =
    run-Accounts ops came (step poll c) fit (poll-Accounts came c a)

fresh-Accounts : Accounts [] fresh
fresh-Accounts = record { bytes = tt; frames = tt; balance = refl }

-- However the bytes come and whenever the decoder is called, what was delivered are valid frames,
-- and their bytes with those that wait are all the bytes that came.
pub run_conserves :
    (ops : List Op)
    → All IsByte (arrivals ops)
    → All IsFrame (run ops fresh).delivered
      × (wire (run ops fresh).delivered ++ (run ops fresh).buffer ≡ arrivals ops)
run_conserves ops fit =
    let a = run-Accounts ops [] fresh fit fresh-Accounts in (a.frames, a.balance)

decode-wire :
    (f : NxfrFrame) (fs : List NxfrFrame) (rest : List ℕ)
    → IsFrame f
    → decode (wire (f ∷ fs) ++ rest) ≡ (ok (some f), wire fs ++ rest)
decode-wire f fs rest v =
    rw (append_assoc (encode f []) (wire fs) rest) (decode-encode f v (wire fs ++ rest))

-- Two readings of the same bytes as frames agree, if the second leaves nothing to decode.
delivered_unique :
    (ds fs : List NxfrFrame) (rest : List ℕ)
    → All IsFrame ds
    → All IsFrame fs
    → wire ds ++ rest ≡ wire fs
    → decode rest ≡ (ok none, rest)
    → (ds ≡ fs) × (rest ≡ [])
delivered_unique [] [] rest hd hf e idle = (refl, e)
delivered_unique [] (f ∷ fs) rest hd hf e idle =
    cc (e, append-nil (wire (f ∷ fs)), idle, decode-wire f fs [] hf.0)
delivered_unique (d ∷ ds) [] rest hd hf e idle = cc (e, decode-nil, decode-wire d ds rest hd.0)
delivered_unique (d ∷ ds) (f ∷ fs) rest hd hf e idle =
    let first = decode-wire d ds rest hd.0 in
    let second = decode-wire f fs [] hf.0 in
    let same : d ≡ f = cc (e, append-nil (wire (f ∷ fs))) in
    let after : wire ds ++ rest ≡ wire fs =
      cc (e, append-nil (wire (f ∷ fs)), append-nil (wire fs)) in
    let (ih, none_left) = delivered_unique ds fs rest hd.1 hf.1 after idle in (cc, none_left)

-- Frames that arrive in any pieces are delivered in order and whole, once a call waits for more.
pub run_reassembles :
    (ops : List Op) (fs : List NxfrFrame)
    → All IsFrame fs
    → All IsByte (wire fs)
    → arrivals ops ≡ wire fs
    → decode (run ops fresh).buffer ≡ (ok none, (run ops fresh).buffer)
    → ((run ops fresh).delivered ≡ fs) × ((run ops fresh).buffer ≡ [])
run_reassembles ops fs hf bytes e idle =
    let (frames, balance) = run_conserves ops (rw e bytes) in
    delivered_unique _ fs _ frames hf (balance ∙ e) idle

step_frame :
    (c : Connection) (f : NxfrFrame) (rest : List ℕ)
    → IsFrame f
    → c.buffer ≡ encode f [] ++ rest
    → step poll c ≡ record c { buffer = rest; delivered = c.delivered ++ (f ∷ []) }
unfolding step
step_frame c f rest v e = rw (e, decode-encode f v rest) refl

-- As many calls as there are whole frames in the buffer deliver them all, and leave the rest.
pub polls_deliver :
    (fs : List NxfrFrame) (c : Connection) (rest : List ℕ)
    → All IsFrame fs
    → c.buffer ≡ wire fs ++ rest
    → run (replicate (length fs) poll) c ≡ record c { buffer = rest; delivered = c.delivered ++ fs }
unfolding run
polls_deliver [] c rest h e = rw append-nil (cc e)
polls_deliver (f ∷ fs) c rest h e =
    ap (run (replicate (length fs) poll))
      (step_frame c f (wire fs ++ rest) h.0 (e ∙ append_assoc (encode f []) (wire fs) rest))
    ∙ (polls_deliver fs (record c { buffer = wire fs ++ rest; delivered = c.delivered ++ (f ∷ []) })
          rest h.1 refl
        ∙ rw append_assoc refl)
