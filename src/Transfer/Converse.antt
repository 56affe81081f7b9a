-- ===== src/Transfer/Converse.antt =====
-- Sequences of events that complete a transfer, from the streaming state and from the start.
use nxfr.Prelude.{ℕ, zero, suc, List, [], ◌∷◌, ◌++◌, refl}
use nxfr.Machine.{replay}
use nxfr.Transfer.{
  TransferState, TransferEvent, idle, offered, pending, negotiating, streaming, paused,
  all_metadata_acked, pause_received, resume_received, transfer_handle_event,
}
use nxfr.Transfer.Diagram.{EndsStream, sent_last, received_all, Confirms, peer_confirms, confirmed}
use nxfr.Transfer.Runs.{Opens, as_sender, as_receiver, pauses, Completes, Steps}

prepend :
    (s t : TransferState) (e : TransferEvent) (es : List TransferEvent)
    → Steps s e t
    → Completes t es
    → Completes s (e ∷ es)
unfolding replay
prepend s t e es (now, st) (more, rest) = (now ++ more, rw (st, rest))

pub streaming-Completes :
    (n : ℕ) (d k : TransferEvent)
    → EndsStream d
    → Confirms k
    → Completes streaming (pauses n ++ d ∷ k ∷ [])
unfolding replay transfer_handle_event
streaming-Completes zero _ _ sent_last peer_confirms = (_, refl)
streaming-Completes zero _ _ sent_last confirmed = (_, refl)
streaming-Completes zero _ _ received_all peer_confirms = (_, refl)
streaming-Completes zero _ _ received_all confirmed = (_, refl)
streaming-Completes (suc n) d k e c =
    let rest = pauses n ++ d ∷ k ∷ [] in
    prepend streaming paused pause_received (resume_received ∷ rest) (_, refl)
      (prepend paused streaming resume_received rest (_, refl) (streaming-Completes n d k e c))

pub opening-Completes :
    (r a : TransferEvent) (es : List TransferEvent)
    → Opens r a
    → Completes streaming es
    → Completes idle (r ∷ a ∷ all_metadata_acked ∷ es)
unfolding transfer_handle_event
opening-Completes _ _ es as_sender c =
    prepend idle offered _ _ (_, refl)
      (prepend offered negotiating _ _ (_, refl) (prepend negotiating streaming _ es (_, refl) c))
opening-Completes _ _ es as_receiver c =
    prepend idle pending _ _ (_, refl)
      (prepend pending negotiating _ _ (_, refl) (prepend negotiating streaming _ es (_, refl) c))
