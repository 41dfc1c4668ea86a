-- ===== src/Packet/Rx/Order.antt =====
-- Any use of the receive queue of Sources/Packet/Handler.cpp from start-up.
use blazenet_device_fw.Prelude.{
  ◌≤◌, ◌≡◌, refl, sym, subst, ap, ◌∙◌, Bool, false, ◌&&◌, Option, none, some, List, [], ◌∷◌, ◌++◌,
  append_assoc, Outcome, ok, panic, fault, ◌>>=◌, arith,
}
use blazenet_device_fw.Packet.Buffers.{RxPacketBuffer}
use blazenet_device_fw.Packet.Rx.{RxPacketInfo, handle_rx_packet, pop_rx_queue, discard_rx_packet}
use blazenet_device_fw.Packet.Rx.Ledger.{
  rx_bytes, RxAccounted, Receives, handle_rx_packet-Receives, pop_rx_queue-RxAccounted,
  discard_rx_packet-RxAccounted,
}
use blazenet_device_fw.System.{System, Env, boot}

-- The state, the packets that HandleRxPacket has accepted and those that PopRxQueue has handed
-- out, oldest first, and the ones that are not discarded yet.
pub record Session : Type 0 where
  pub system : System
  pub accepted : List RxPacketBuffer
  pub taken : List RxPacketBuffer
  pub outstanding : List RxPacketBuffer

-- A packet is received, the oldest is popped if there is one, and one that was popped is discarded
-- with or without a request to acknowledge it.
pub data Event : Type 0 where
  receive : RxPacketInfo → Event
  take : Event
  give_back : Bool → Event

abbrev accept : Session → Option RxPacketBuffer × System → Session
accept x (none, t) = record x { system = t }
accept x (some b, t) = record x { system = t; accepted = x.accepted ++ b ∷ [] }

abbrev take_first : List RxPacketBuffer → Session → Outcome Session
take_first [] x = ok x
take_first (b ∷ bs) x = pop_rx_queue x.system >>= λ (r : RxPacketBuffer × System).
    ok (record x { system = r.1; taken = x.taken ++ r.0 ∷ []; outstanding = r.0 ∷ x.outstanding })

abbrev give_first : Env → Bool → List RxPacketBuffer → Session → Outcome Session
give_first env ack [] x = ok x
give_first env ack (b ∷ bs) x = discard_rx_packet env b ack x.system >>= λ (t : System).
    ok (record x { system = t; outstanding = bs })

unfoldable pub happen : Env → Event → Session → Outcome Session
happen env (receive info) x = ok (accept x (handle_rx_packet env info x.system))
happen env take x = take_first x.system.rx.queue x
happen env (give_back ack) x = give_first env ack x.outstanding x

unfoldable pub happen_all : Env → List Event → Session → Outcome Session
happen_all env [] x = ok x
happen_all env (e ∷ es) x = happen env e x >>= happen_all env es

-- No acknowledgement is due: the packet asks for none, or the discard is not to send one.
abbrev pub IsQuiet : Bool → List RxPacketBuffer → Type 0
IsQuiet ack [] = Unit {0}
IsQuiet ack (b ∷ bs) = (b.auto_ack && ack) ≡ false

-- The length of a received packet fits its field, and no discard acknowledges.
abbrev pub Fits : Event → Session → Type 0
Fits (receive info) x = info.packet_bytes ≤ 65535
Fits take x = Unit {0}
Fits (give_back ack) x = IsQuiet ack x.outstanding

abbrev pub After : (Session → Type 0) → Outcome Session → Type 0
After P (ok x) = P x
After P panic = Unit {0}
After P fault = Unit {0}

-- Each event fits the state that the events before it have led to.
abbrev pub AreFitting : Env → List Event → Session → Type 0
AreFitting env [] x = Unit {0}
AreFitting env (e ∷ es) x = Fits e x × After (AreFitting env es) (happen env e x)

-- The packets taken and those still queued are the ones accepted, in order, and the bytes counted
-- are those of the queued and the outstanding ones.
pub record IsOrdered (x : Session) : Type 0 where
  pub in_order : x.accepted ≡ x.taken ++ x.system.rx.queue
  pub accounted : RxAccounted x.system.rx x.outstanding

abbrev pub Orders : Outcome Session → Type 0
Orders m = (x : Session) × (m ≡ ok x) × IsOrdered x

accept-IsOrdered :
    (info : RxPacketInfo) (x : Session) (r : Option RxPacketBuffer × System)
    → IsOrdered x
    → Receives info x.outstanding x.system r
    → IsOrdered (accept x r)
accept-IsOrdered info x (none, t) o (drops, v) = record {
  in_order = o.in_order ∙ ap (λ q. x.taken ++ q) (sym drops.same_queue);
  accounted = v;
}
accept-IsOrdered info x (some b, t) o (same, queue, irq, v) = record {
  in_order =
      ap (λ l. l ++ b ∷ []) o.in_order
      ∙ (append_assoc x.taken x.system.rx.queue (b ∷ []) ∙ ap (λ q. x.taken ++ q) (sym queue));
  accounted = v;
}

take-Orders :
    (q : List RxPacketBuffer) (x : Session)
    → x.system.rx.queue ≡ q
    → IsOrdered x
    → Orders (take_first q x)
take-Orders [] x e o = (x, refl, o)
take-Orders (b ∷ bs) x e o =
    let (t, run, queue, v) = pop_rx_queue-RxAccounted x.system b bs x.outstanding e o.accounted in
    let y : Session = record x {
      system = t;
      taken = x.taken ++ b ∷ [];
      outstanding = b ∷ x.outstanding;
    } in
    (
      y,
      rw run,
      record {
        in_order =
            o.in_order
            ∙ (ap (λ q. x.taken ++ q) e
                ∙ (sym (append_assoc x.taken (b ∷ []) bs)
                    ∙ ap (λ q. (x.taken ++ b ∷ []) ++ q) (sym queue)));
        accounted = v;
      },
    )

give-Orders :
    (env : Env) (ack : Bool) (out : List RxPacketBuffer) (x : Session)
    → x.outstanding ≡ out
    → IsQuiet ack out
    → IsOrdered x
    → Orders (give_first env ack out x)
give-Orders env ack [] x e quiet o = (x, refl, o)
give-Orders env ack (b ∷ bs) x e quiet o =
    let (t, run, queue, v) =
      discard_rx_packet-RxAccounted env x.system b ack bs quiet
        (subst (RxAccounted x.system.rx) e o.accounted) in
    (
      record x { system = t; outstanding = bs },
      rw run,
      record { in_order = o.in_order ∙ ap (λ q. x.taken ++ q) (sym queue); accounted = v },
    )

happen-Orders :
    (env : Env) (e : Event) (x : Session) → Fits e x → IsOrdered x → Orders (happen env e x)
unfolding happen
happen-Orders env (receive info) x small o =
    let r = handle_rx_packet env info x.system in
    let kept = handle_rx_packet-Receives env info x.system x.outstanding small o.accounted in
    (accept x r, refl, accept-IsOrdered info x r o kept)
happen-Orders env take x small o = take-Orders x.system.rx.queue x refl o
happen-Orders env (give_back ack) x quiet o = give-Orders env ack x.outstanding x refl quiet o

happen_all-Orders :
    (env : Env) (es : List Event) (x : Session)
    → AreFitting env es x
    → IsOrdered x
    → Orders (happen_all env es x)
unfolding happen_all
happen_all-Orders env [] x small o = (x, refl, o)
happen_all-Orders env (e ∷ es) x (now, later) o =
    let (y, run, w) = happen-Orders env e x now o in
    rw run (happen_all-Orders env es y (subst (After (AreFitting env es)) run later) w)

-- Start-up, with nothing received.
abbrev pub session_start : Session
session_start = record { system = boot; accepted = []; taken = []; outstanding = [] }

session_start-IsOrdered : IsOrdered session_start
unfolding rx_bytes
session_start-IsOrdered = record { in_order = refl; accounted = ground arith }

-- After any packets received, of at most 65535 bytes, popped while there are any, and discarded
-- while no acknowledgement is due, in any order from start-up: every call returns; the packets popped
-- and then those in the queue are exactly the packets that HandleRxPacket has accepted, in the
-- order of their arrival; and the bytes counted are those of the queued and of the outstanding
-- packets, within the limits on bytes and queue length.
pub receive-IsOrdered :
    (env : Env) (es : List Event)
    → AreFitting env es session_start
    → Orders (happen_all env es session_start)
receive-IsOrdered env es fits = happen_all-Orders env es session_start fits session_start-IsOrdered
